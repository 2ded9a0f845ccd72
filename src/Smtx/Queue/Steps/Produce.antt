-- ===== src/Smtx/Queue/Steps/Produce.antt =====
-- The turns of the producer keep the invariant.
use cos516_project.Prelude.{
  ℕ, ◌∷◌, ◌++◌, Option, some, List, none, if-elim, ltb, set, length, ◌+◌, [], ◌*◌, ◌<◌, arith, ◌≡◌,
  length-append, ap, ◌∙◌, append_assoc, get_or-set_self, get_or-append_left, ◌≢◌, get_or-set_ne,
  refl,
}
use cos516_project.Smtx.Queue.Steps.{
  State, Producer, Consumer, ready, wrote, flagged, at, produce_step,
}
use cos516_project.Smtx.Queue.Steps.Invariant.{Inv, next_head, Sending, lost, Taking-carry}
use cos516_project.Smtx.Queue.{Queue, advance}
use cos516_project.Smtx.Queue.Pairs.{slot, slot-lt, advance-slot}
use cos516_project.Smtx.Queue.Ring.{write_value-Ring, set_flag-Ring}

-- A result, if there is one, has the property.
unfoldable pub Holds : (State → Type 0) → Option State → Type 0
Holds P none = Unit {0}
Holds P (some s) = P s

module _ (c : ℕ) (k : Consumer) (q : Queue) (sent received : List ℕ) where
  write_value-Inv :
      (v : ℕ)
      → Inv c (at q ready k sent received)
      → length sent < length received + c
      → Inv c (at (record q { slots = set q.slots (q.head + 1) v }) (wrote v) k sent received)
  unfolding next_head Sending
  write_value-Inv v inv room =
      let xs = inv.pending in
      let t = inv.start in
      let n = slot c t (length xs) in
      let w = set q.slots (2 * n + 1) v in
      let sizes : length sent ≡ length received + length xs =
        ap length inv.logs ∙ length-append received xs in
      let free : length xs < c = omega (arith, sizes, room) in
      let n_in = slot-lt c t inv.ring.start_in (length xs) free in
      rw inv.head_at (record {
        pending = xs;
        start = t;
        logs = inv.logs;
        ring = write_value-Ring c t q.slots xs (lost k) inv.ring v free;
        head_at = refl;
        tail_at = inv.tail_at;
        sending =
            (free, get_or-set_self q.slots (2 * n + 1) v 0 (omega (arith, inv.ring.size, n_in)));
        taking =
            Taking-carry q.slots w xs xs t k
              (λ h.
                let apart : t ≢ n = ground (arith, inv.ring.start_in) in
                (h, refl, get_or-set_ne q.slots v 0 (omega arith)))
              inv.taking;
      })

  set_flag-Inv :
      (v : ℕ)
      → Inv c (at q (wrote v) k sent received)
      → Inv c (at (record q { slots = set q.slots q.head 1 }) flagged k (sent ++ v ∷ []) received)
  unfolding next_head Sending
  set_flag-Inv v inv =
      let xs = inv.pending in
      let t = inv.start in
      let n = slot c t (length xs) in
      let w = set q.slots (2 * n) 1 in
      let (free, holds) = inv.sending in
      let grown : length (xs ++ v ∷ []) ≡ length xs + 1 = length-append xs (v ∷ []) in
      rw inv.head_at (record {
        pending = xs ++ v ∷ [];
        start = t;
        logs = ap (λ l. l ++ v ∷ []) inv.logs ∙ append_assoc received xs (v ∷ []);
        ring = set_flag-Ring c t q.slots xs (lost k) inv.ring v free holds;
        head_at = rw grown (advance-slot c t inv.ring.start_in (length xs) free);
        tail_at = inv.tail_at;
        sending = tt;
        taking =
            Taking-carry q.slots w xs (xs ++ v ∷ []) t k
              (λ h. (
                omega (arith, grown),
                get_or-append_left xs (v ∷ []) 0 0 h,
                get_or-set_ne q.slots 1 0 (omega arith),
              ))
              inv.taking;
      })

  move_head-Inv :
      Inv c (at q flagged k sent received)
      → Inv c (at (record q { head = advance (2 * c) q.head }) ready k sent received)
  unfolding next_head Sending
  move_head-Inv inv = record {
    pending = inv.pending;
    start = inv.start;
    logs = inv.logs;
    ring = inv.ring;
    head_at = inv.head_at;
    tail_at = inv.tail_at;
    sending = tt;
    taking = inv.taking;
  }

pub produce_step-Inv :
    (c v : ℕ) (p : Producer) (k : Consumer) (q : Queue) (sent received : List ℕ)
    → Inv c (at q p k sent received)
    → Holds (Inv c) (produce_step c v p (at q p k sent received))
unfolding produce_step Holds
produce_step-Inv c v ready k q sent received inv =
    if-elim (λ (o : Option State). Holds (Inv c) o) (ltb (length sent) (length received + c))
      (λ room. write_value-Inv c k q sent received v inv (ground (arith, room))) (λ _. tt)
produce_step-Inv c v (wrote w) k q sent received inv = set_flag-Inv c k q sent received w inv
produce_step-Inv c v flagged k q sent received inv = move_head-Inv c k q sent received inv
