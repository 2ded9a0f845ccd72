-- ===== src/Smtx/Queue/Steps/Tests.antt =====
-- The theorems on interleavings at a queue of three pairs.
use cos516_project.Prelude.{
  ℕ, ◌∷◌, ◌++◌, List, replicate, ◌*◌, [], arith, ◌≡◌, refl, some, length, ◌≤◌,
}
use cos516_project.Smtx.Queue.{Queue, reset, produce, empty}
use cos516_project.Smtx.Queue.Refine.{Represents, reset-Represents, produce-Represents}
use cos516_project.Smtx.Queue.Steps.{
  flagged, erased, State, Turn, produces, consumes, interleave, at, ready, waiting, turn,
  produce_step, consume_step,
}
use cos516_project.Smtx.Queue.Steps.Order.{interleave-order}
use cos516_project.Smtx.Queue.Steps.Drain.{interleave-drains}

abbrev nothing_yet : Queue
nothing_yet =
    reset (2 * 3)
      (record { head = 4; prealloc = 0; tail = 2; prealloc_tail = 0; finished = 1; slots = [] })

abbrev one_value : Queue
one_value = produce (2 * 3) nothing_yet 7

one_value-Represents : Represents 3 one_value (7 ∷ [])
one_value-Represents =
    produce-Represents 3 7 nothing_yet [] (reset-Represents 3 _ (omega arith)) (omega arith)

-- A call of each side, mixed: the consumer has erased 7 when the flag of 9 is set.
abbrev mixed : List Turn
mixed = consumes ∷ produces 9 ∷ consumes ∷ consumes ∷ produces 0 ∷ []

abbrev after_mixed : State
after_mixed = record {
  queue = record {
    head = 2;
    prealloc = 0;
    tail = 0;
    prealloc_tail = 0;
    finished = 0;
    slots = 1 ∷ 0 ∷ 1 ∷ 9 ∷ 0 ∷ 0 ∷ [];
  };
  producer = flagged;
  consumer = erased 7;
  sent = 7 ∷ 9 ∷ [];
  received = [];
}

mixed-runs : interleave 3 mixed (at one_value ready waiting (7 ∷ []) []) ≡ some after_mixed
unfolding interleave turn produce_step consume_step produce reset empty
mixed-runs = refl

after_mixed-sent : after_mixed.sent ≡ after_mixed.received ++ 7 ∷ 9 ∷ []
after_mixed-sent = refl

interleave-order_example :
    (pending : List ℕ) × (after_mixed.sent ≡ after_mixed.received ++ pending) × (length pending ≤ 3)
interleave-order_example =
    interleave-order 3 mixed one_value (7 ∷ []) after_mixed one_value-Represents mixed-runs

interleave-drains_example :
    (s : State) × (interleave 3 (replicate (5 * 2) consumes) after_mixed ≡ some s)
    × (s.received ≡ 7 ∷ 9 ∷ [])
    × (s.sent ≡ 7 ∷ 9 ∷ [])
interleave-drains_example =
    interleave-drains 3 mixed one_value (7 ∷ []) (7 ∷ 9 ∷ []) after_mixed one_value-Represents
      mixed-runs after_mixed-sent
