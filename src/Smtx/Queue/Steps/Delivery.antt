-- ===== src/Smtx/Queue/Steps/Delivery.antt =====
-- The consumer's turns, whatever it was doing, deliver the next value.
use cos516_project.Prelude.{
  zero, ℕ, ◌∷◌, ◌++◌, suc, replicate, List, ◌≤◌, ◌≡◌, if-elim, arith, some, get_or, [], ◌<◌, refl,
  length, false, ap, sym, ◌∙◌,
}
use mathlib.Core.List.{append_cancel_left}
use cos516_project.Smtx.Queue.{Queue, empty}
use cos516_project.Smtx.Queue.Steps.{
  State, Turn, Producer, Consumer, seen, took, erased, freed, consumes, turn, interleave, at, ready,
  waiting, consume_step,
}
use cos516_project.Smtx.Queue.Steps.Invariant.{Inv, Taking, lost, next_tail}
use cos516_project.Smtx.Queue.Steps.Consume.{see-Inv, consume_step-Inv}
use cos516_project.Smtx.Queue.Refine.{Represents}
use cos516_project.Smtx.Queue.Pairs.{slot}
use cos516_project.Smtx.Queue.Steps.Order.{interleave-Inv, rest-Inv}

-- Some turns of the consumer.
unfoldable pub rounds : ℕ → ℕ → State → State
rounds c zero s = s
rounds c (suc n) s = rounds c n (consume_step c s.consumer s)

pub interleave-rounds :
    (c n : ℕ) (s : State) → interleave c (replicate n consumes) s ≡ some (rounds c n s)
unfolding interleave turn rounds
interleave-rounds c zero s = refl
interleave-rounds c (suc n) s = interleave-rounds c n (consume_step c s.consumer s)

-- How many turns come at least before the one that frees a pair.
budget : Consumer → ℕ
budget waiting = 3
budget seen = 2
budget (took x) = 1
budget (erased x) = 0
budget freed = 4

rounds-quiet :
    (c n : ℕ) (k : Consumer) (q : Queue) (p : Producer) (sent received : List ℕ)
    → n ≤ budget k
    → (rounds c n (at q p k sent received)).received ≡ received
unfolding rounds budget consume_step
rounds-quiet c zero k q p sent received h = refl
rounds-quiet c (suc n) waiting q p sent received h =
    if-elim (λ (s : State). (rounds c n s).received ≡ received) (empty q)
      (λ _. rounds-quiet c n waiting q p sent received (omega arith))
      (λ _. rounds-quiet c n seen q p sent received (omega arith))
rounds-quiet c (suc n) seen q p sent received h =
    rounds-quiet c n (took _) q p sent received (omega arith)
rounds-quiet c (suc n) (took x) q p sent received h =
    rounds-quiet c n (erased x) _ p sent received (omega arith)
rounds-quiet c (suc n) (erased x) q p sent received h = absurd (omega arith)
rounds-quiet c (suc n) freed q p sent received h =
    rounds-quiet c n waiting _ p sent received (omega arith)

module _ (c x : ℕ) (p : Producer) (sent received ys : List ℕ)
    (log : sent ≡ received ++ x ∷ ys) where
  -- What is pending is what has been sent and not received.
  pending_is :
      (k : Consumer) (q : Queue) (inv : Inv c (at q p k sent received)) → inv.pending ≡ x ∷ ys
  pending_is k q inv = append_cancel_left received inv.pending (x ∷ ys) (sym inv.logs ∙ log)

  unfoldable pub Delivers : ℕ → Consumer → Queue → Type 0
  Delivers n k q = (rounds c n (at q p k sent received)).received ≡ received ++ x ∷ []

  from_erased :
      (q : Queue) (z r : ℕ)
      → r ≤ 4
      → Inv c (at q p (erased z) sent received)
      → Delivers (suc r) (erased z) q
  unfolding Delivers rounds consume_step Taking budget
  from_erased q z r h inv =
      let oldest : get_or (x ∷ ys) 0 0 ≡ z = rw (pending_is (erased z) q inv) at inv.taking.1 in
      let same : x ≡ z = oldest in rw same (rounds-quiet c r freed _ p sent (received ++ z ∷ []) h)

  from_took :
      (q : Queue) (z r : ℕ)
      → r ≤ 3
      → Inv c (at q p (took z) sent received)
      → Delivers (suc (suc r)) (took z) q
  unfolding Delivers rounds consume_step
  from_took q z r h inv =
      from_erased _ z r (omega arith) (consume_step-Inv c p (took z) q sent received inv)

  from_seen :
      (q : Queue) (r : ℕ)
      → r ≤ 2
      → Inv c (at q p seen sent received)
      → Delivers (suc (suc (suc r))) seen q
  unfolding Delivers rounds consume_step
  from_seen q r h inv =
      from_took q _ r (omega arith) (consume_step-Inv c p seen q sent received inv)

  from_waiting :
      (q : Queue) (r : ℕ)
      → r ≤ 1
      → Inv c (at q p waiting sent received)
      → Delivers (suc (suc (suc (suc r)))) waiting q
  unfolding Delivers rounds consume_step lost next_tail empty
  from_waiting q r h inv =
      let at_start : slot c inv.start 0 ≡ inv.start = ground (arith, inv.ring.start_in) in
      let some_left : 0 < length inv.pending = rw (pending_is waiting q inv) (omega arith) in
      let set_there : get_or q.slots q.tail 0 ≡ 1 =
        rw (inv.tail_at) (rw at_start at (inv.ring.used 0 some_left)) in
      let full : empty q ≡ false = rw set_there refl in
      let sees : consume_step c waiting (at q p waiting sent received) ≡ at q p seen sent received =
        rw full refl in
      ap (λ s. (rounds c (suc (suc (suc r))) s).received) sees
      ∙ from_seen q r (omega arith) (see-Inv c p q sent received inv full)

  from_freed : (q : Queue) → Inv c (at q p freed sent received) → Delivers 5 freed q
  unfolding Delivers rounds consume_step
  from_freed q inv = from_waiting _ 0 (omega arith) (consume_step-Inv c p freed q sent received inv)

  pub five_rounds : (k : Consumer) (q : Queue) → Inv c (at q p k sent received) → Delivers 5 k q
  five_rounds waiting q inv = from_waiting q 1 (omega arith) inv
  five_rounds seen q inv = from_seen q 2 (omega arith) inv
  five_rounds (took z) q inv = from_took q z 3 (omega arith) inv
  five_rounds (erased z) q inv = from_erased q z 4 (omega arith) inv
  five_rounds freed q inv = from_freed q inv

-- After any interleaving from a queue that represents a list, where a value is pending, five turns
-- of the consumer, wherever it stands, receive exactly the next one.
interleave-delivers :
    (c x : ℕ) (ts : List Turn) (q : Queue) (xs ys : List ℕ) (s : State)
    → Represents c q xs
    → interleave c ts (at q ready waiting xs []) ≡ some s
    → s.sent ≡ s.received ++ x ∷ ys
    → (s' : State) × (interleave c (replicate 5 consumes) s ≡ some s')
      × (s'.received ≡ s.received ++ x ∷ [])
unfolding Delivers
interleave-delivers c x ts q xs ys s r e log =
    let inv = interleave-Inv c ts (at q ready waiting xs []) s (rest-Inv c q xs r) e in
    (
      rounds c 5 s,
      interleave-rounds c 5 s,
      five_rounds c x s.producer s.sent s.received ys log s.consumer s.queue inv,
    )
