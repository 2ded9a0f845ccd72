-- ===== src/Smtx/Queue/Steps/Alone.antt =====
-- One side's turns in a row: a whole call.
use cos516_project.Prelude.{
  ℕ, ◌∷◌, ◌++◌, List, length, ◌≡◌, false, ◌<◌, ◌+◌, [], some, ◌*◌, refl, ltb, true, arith, Option,
  ap, Bool-cases, length-append, inl, ◌∙◌, append_assoc, inr, append-nil, none, sym,
}
use cos516_project.Smtx.Queue.Traces.{run, run_list, Op, put, get, deliver}
use cos516_project.Smtx.Queue.{Queue, produce, consume, empty}
use cos516_project.Smtx.Queue.Steps.{
  ◌>>=◌, produces, consumes, turn, interleave, at, ready, waiting, produce_step, consume_step, Turn,
  State,
}
use cos516_project.Smtx.Queue.Refine.{
  Represents, produce-Represents, consume-Represents, empty-cons,
}

module _ (c : ℕ) (q : Queue) (sent received : List ℕ) where
  -- Three turns of the producer are a call of `__sw_queue_produce`.
  interleave-produce :
      (v : ℕ)
      → length sent < length received + c
      → interleave c (produces v ∷ produces v ∷ produces v ∷ []) (at q ready waiting sent received)
        ≡ some (at (produce (2 * c) q v) ready waiting (sent ++ v ∷ []) received)
  unfolding interleave turn produce_step produce
  interleave-produce v room =
      let fits : ltb (length sent) (length received + c) ≡ true = ground (arith, room) in
      rw fits refl

  -- Five turns of the consumer on a queue that is not empty are a call of `__sw_queue_consume`.
  interleave-consume :
      empty q ≡ false
      → interleave c
          (consumes ∷ consumes ∷ consumes ∷ consumes ∷ consumes ∷ [])
          (at q ready waiting sent received)
        ≡ some
            (at (consume (2 * c) q).1 ready waiting sent (received ++ (consume (2 * c) q).0 ∷ []))
  unfolding interleave turn consume_step consume
  interleave-consume h = rw h refl

-- The turns of a call that nothing interrupts.
unfoldable pub turns_of : Op → List Turn
turns_of (put v) = produces v ∷ produces v ∷ produces v ∷ []
turns_of get = consumes ∷ consumes ∷ consumes ∷ consumes ∷ consumes ∷ []

unfoldable pub all_turns : List Op → List Turn
all_turns [] = []
all_turns (op ∷ ops) = turns_of op ++ all_turns ops

-- The values that calls put.
unfoldable pub values_put : List Op → List ℕ
values_put [] = []
values_put (put v ∷ ops) = v ∷ values_put ops
values_put (get ∷ ops) = values_put ops

bind-append :
    (c : ℕ) (o : Option State) (ts us : List Turn) (s' : State)
    → ((s1 : State)
        → interleave c ts s1 ≡ some s'
        → interleave c (ts ++ us) s1 ≡ interleave c us s')
    → (o >>= interleave c ts) ≡ some s'
    → (o >>= interleave c (ts ++ us)) ≡ interleave c us s'
bind-append c none ts us s' rec e = cc
bind-append c (some s1) ts us s' rec e = rec s1 e

interleave-append :
    (c : ℕ) (ts us : List Turn) (s s' : State)
    → interleave c ts s ≡ some s'
    → interleave c (ts ++ us) s ≡ interleave c us s'
unfolding interleave
interleave-append c [] us s s' e = let same : s ≡ s' = cc in rw same refl
interleave-append c (t ∷ ts) us s s' e =
    bind-append c (turn c t s) ts us s' (λ s1 e1. interleave-append c ts us s1 s' e1) e

-- What the logs say when nothing is going on.
room_left :
    (c : ℕ) (sent received xs : List ℕ)
    → sent ≡ received ++ xs
    → length xs < c
    → length sent < length received + c
room_left c sent received xs log h = omega (arith, ap length log, length-append received xs)

undeliver :
    (x : ℕ) (o : Option (List ℕ × List ℕ)) (out ys : List ℕ)
    → deliver x o ≡ some (out, ys)
    → (out' : List ℕ) × (o ≡ some (out', ys))
undeliver x none out ys e = cc
undeliver x (some (out', ys')) out ys e =
    let same : ys' ≡ ys = cc in (out', ap (λ l. some (out', l)) same)

-- Where the same calls on a bounded list neither overflow nor underflow, the turns of whole calls
-- one after the other have the effect of the calls on the queue, and log what they put and get.
pub interleave-run :
    (c : ℕ) (ops : List Op) (q : Queue) (sent received xs out ys : List ℕ)
    → Represents c q xs
    → sent ≡ received ++ xs
    → run_list c xs ops ≡ some (out, ys)
    → interleave c (all_turns ops) (at q ready waiting sent received)
      ≡ some (
          at
            (run (2 * c) q ops).1
            ready
            waiting
            (sent ++ values_put ops)
            (received ++ (run (2 * c) q ops).0))
unfolding all_turns turns_of run run_list values_put interleave
interleave-run c [] q sent received xs out ys r log e =
    rw (append-nil sent, append-nil received) refl
interleave-run c (put v ∷ ops) q sent received xs out ys r log e =
    elim (Bool-cases (ltb (length xs) c)) [
      | inl room ↦
          let fits : length xs < c = ground (arith, room) in
          let log' : sent ++ v ∷ [] ≡ received ++ (xs ++ v ∷ []) =
            ap (λ l. l ++ v ∷ []) log ∙ append_assoc received xs (v ∷ []) in
          interleave-append c (turns_of (put v)) (all_turns ops) _ _
            (interleave-produce c q sent received v (room_left c sent received xs log fits))
          ∙ interleave-run c ops (produce (2 * c) q v) (sent ++ v ∷ []) received (xs ++ v ∷ []) out
              ys (produce-Represents c v q xs r fits) log' (rw room at e)
          ∙ ap
              (λ l. some (
                at (run (2 * c) (produce (2 * c) q v) ops).1 ready waiting l
                  (received ++ (run (2 * c) (produce (2 * c) q v) ops).0)))
              (append_assoc sent (v ∷ []) (values_put ops))
      | inr full ↦ absurd (ground arith)
    ]
interleave-run c (get ∷ ops) q sent received [] out ys r log e = cc
interleave-run c (get ∷ ops) q sent received (x ∷ xs) out ys r log e =
    let (first, rest) = consume-Represents c x xs q r in
    let (out', e') = undeliver x (run_list c xs ops) out ys e in
    let q' = (consume (2 * c) q).1 in
    let log' : sent ≡ (received ++ (consume (2 * c) q).0 ∷ []) ++ xs =
      rw first (log ∙ sym (append_assoc received (x ∷ []) xs)) in
    interleave-append c (turns_of get) (all_turns ops) _ _
      (interleave-consume c q sent received (empty-cons c x xs q r))
    ∙ interleave-run c ops q' sent (received ++ (consume (2 * c) q).0 ∷ []) xs out' ys rest log' e'
    ∙ ap (λ l. some (at (run (2 * c) q' ops).1 ready waiting (sent ++ values_put ops) l))
        (append_assoc received ((consume (2 * c) q).0 ∷ []) (run (2 * c) q' ops).0)
