-- ===== src/Smtx/Queue/Steps/Drain.antt =====
-- The consumer's turns, whatever it was doing, deliver all that is pending.
use cos516_project.Prelude.{
  ℕ, ◌++◌, List, length, ◌≡◌, some, ◌*◌, suc, zero, ◌∙◌, sym, if-elim, [], replicate, append-nil,
  refl, ◌∷◌, append_assoc, ap, arith,
}
use cos516_project.Smtx.Queue.Steps.{
  State, Turn, consumes, interleave, at, ready, waiting, consume_step, Consumer, took, erased, seen,
  freed,
}
use cos516_project.Smtx.Queue.Steps.Delivery.{Delivers, rounds, five_rounds, interleave-rounds}
use cos516_project.Smtx.Queue.{Queue, empty}
use cos516_project.Smtx.Queue.Refine.{Represents}
use cos516_project.Smtx.Queue.Steps.Invariant.{Inv}
use cos516_project.Smtx.Queue.Steps.Consume.{consume_step-Inv}
use cos516_project.Smtx.Queue.Steps.Order.{interleave-Inv, rest-Inv}

-- The consumer leaves the log of what has been sent alone.
consume_step-sent : (c : ℕ) (k : Consumer) (s : State) → (consume_step c k s).sent ≡ s.sent
unfolding consume_step
consume_step-sent c waiting s =
    if-elim (λ (t : State). t.sent ≡ s.sent) (empty s.queue) (λ _. refl) (λ _. refl)
consume_step-sent c seen s = refl
consume_step-sent c (took x) s = refl
consume_step-sent c (erased x) s = refl
consume_step-sent c freed s = refl

rounds-sent : (c n : ℕ) (s : State) → (rounds c n s).sent ≡ s.sent
unfolding rounds
rounds-sent c zero s = refl
rounds-sent c (suc n) s =
    rounds-sent c n (consume_step c s.consumer s) ∙ consume_step-sent c s.consumer s

rounds-Inv : (c n : ℕ) (s : State) → Inv c s → Inv c (rounds c n s)
unfolding rounds
rounds-Inv c zero s inv = inv
rounds-Inv c (suc n) s inv =
    rounds-Inv c n (consume_step c s.consumer s)
      (consume_step-Inv c s.producer s.consumer s.queue s.sent s.received inv)

-- Five rounds for each pending value.
rounds-received :
    (c : ℕ) (pending : List ℕ) (s : State)
    → Inv c s
    → s.sent ≡ s.received ++ pending
    → (rounds c (5 * length pending) s).received ≡ s.sent
unfolding rounds Delivers
rounds-received c [] s inv log = sym (log ∙ append-nil s.received)
rounds-received c (x ∷ ys) s inv log =
    let t = rounds c 5 s in
    let next : t.received ≡ s.received ++ x ∷ [] =
      five_rounds c x s.producer s.sent s.received ys log s.consumer s.queue inv in
    let log' : t.sent ≡ t.received ++ ys =
      rounds-sent c 5 s
      ∙ log
      ∙ sym (append_assoc s.received (x ∷ []) ys)
      ∙ ap (λ l. l ++ ys) (sym next) in
    let more : 5 * length (x ∷ ys) ≡ suc (suc (suc (suc (suc (5 * length ys))))) = omega arith in
    rw more (rounds-received c ys t (rounds-Inv c 5 s inv) log' ∙ rounds-sent c 5 s)

-- From a queue that represents a list, after any interleaving of a producer with a consumer that
-- calls __sw_queue_empty before each __sw_queue_consume, as busy_wait does and
-- __specpriv_begin_iter does not, in which no call of produce starts while as many values as
-- there are pairs are outstanding, five turns of the consumer for each value that is pending,
-- wherever the two stand, receive all that has been sent.
pub interleave-drains :
    (c : ℕ) (ts : List Turn) (q : Queue) (xs pending : List ℕ) (s : State)
    → Represents c q xs
    → interleave c ts (at q ready waiting xs []) ≡ some s
    → s.sent ≡ s.received ++ pending
    → (s' : State) × (interleave c (replicate (5 * length pending) consumes) s ≡ some s')
      × (s'.received ≡ s.sent)
      × (s'.sent ≡ s.sent)
interleave-drains c ts q xs pending s r e log =
    let inv = interleave-Inv c ts (at q ready waiting xs []) s (rest-Inv c q xs r) e in
    let n = 5 * length pending in
    (rounds c n s, interleave-rounds c n s, rounds-received c pending s inv log, rounds-sent c n s)
