-- ===== src/Smtx/Queue/Steps/Consume.antt =====
-- The turns of the consumer keep the invariant.
use cos516_project.Prelude.{
  ℕ, ◌∷◌, ◌++◌, List, if-elim, if◌then◌else◌, ◌==◌, get_or, set, ◌≡◌, ◌*◌, ◌+◌, true, false, [],
  ◌<◌, arith, subst, length, ◌≢◌, sym, refl, get_or-set_ne, suc, ◌∙◌, get_or-set_self, append_assoc,
}
use cos516_project.Smtx.Queue.Steps.{
  State, Producer, Consumer, waiting, seen, took, erased, freed, at, consume_step,
}
use cos516_project.Smtx.Queue.Steps.Invariant.{
  Inv, next_tail, lost, Taking, next_head, Sending-carry, Sending,
}
use cos516_project.Smtx.Queue.{Queue, empty, advance}
use cos516_project.Smtx.Queue.Ring.{Ring, clear_value-Ring, clear_flag-Ring}
use cos516_project.Smtx.Queue.Pairs.{flag, slot}

-- A flag that is set is that of a pending value.
occupied :
    (c t : ℕ) (slots xs : List ℕ)
    → Ring c slots t xs 0
    → (if flag slots t == 0 then true else false) ≡ false
    → 0 < length xs
occupied c t slots [] r e =
    let at_start : slot c t 0 ≡ t = ground (arith, r.start_in) in
    let clear : flag slots t ≡ 0 =
      rw at_start at (r.free 0 (omega arith) (omega (arith, r.start_in))) in
    absurd (ground (arith, clear, e))
occupied c t slots (x ∷ xs) r e = omega arith

module _ (c : ℕ) (p : Producer) (q : Queue) (sent received : List ℕ) where
  pub see-Inv :
      Inv c (at q p waiting sent received) → empty q ≡ false → Inv c (at q p seen sent received)
  unfolding next_tail lost Taking empty
  see-Inv inv e = record {
    pending = inv.pending;
    start = inv.start;
    logs = inv.logs;
    ring = inv.ring;
    head_at = inv.head_at;
    tail_at = inv.tail_at;
    sending = inv.sending;
    taking = occupied c inv.start q.slots inv.pending inv.ring (rw inv.tail_at at e);
  }

  take-Inv :
      Inv c (at q p seen sent received)
      → Inv c (at q p (took (get_or q.slots (q.tail + 1) 0)) sent received)
  unfolding next_tail lost Taking
  take-Inv inv =
      let at_start : slot c inv.start 0 ≡ inv.start = ground (arith, inv.ring.start_in) in
      rw inv.tail_at (record {
        pending = inv.pending;
        start = inv.start;
        logs = inv.logs;
        ring = inv.ring;
        head_at = inv.head_at;
        tail_at = refl;
        sending = inv.sending;
        taking = (inv.taking, sym (rw at_start at (inv.ring.kept 0 inv.taking (omega arith))));
      })

  erase-Inv :
      (x : ℕ)
      → Inv c (at q p (took x) sent received)
      → Inv c (at (record q { slots = set q.slots (q.tail + 1) 0 }) p (erased x) sent received)
  unfolding next_tail lost Taking
  erase-Inv x inv =
      let t = inv.start in
      let xs = inv.pending in
      let w = set q.slots (2 * t + 1) 0 in
      rw inv.tail_at (record {
        pending = xs;
        start = t;
        logs = inv.logs;
        ring = clear_value-Ring c t q.slots xs inv.ring;
        head_at = inv.head_at;
        tail_at = refl;
        sending =
            Sending-carry c q.slots w t t xs xs p
              (λ room.
                let apart : t ≢ slot c t (length xs) =
                  ground (arith, inv.ring.start_in, inv.taking.0) in
                (room, get_or-set_ne q.slots 0 0 (omega arith)))
              inv.sending;
        taking = (
          inv.taking.0,
          inv.taking.1,
          get_or-set_self q.slots (2 * t + 1) 0 0 (omega (arith, inv.ring.size, inv.ring.start_in)),
        );
      })

  free_pair-Inv :
      (x t : ℕ) (xs : List ℕ)
      → sent ≡ received ++ xs
      → Ring c q.slots t xs 1
      → next_head c p q.head ≡ 2 * slot c t (length xs)
      → q.tail ≡ 2 * t
      → Sending c q.slots t xs p
      → 0 < length xs
      → get_or xs 0 0 ≡ x
      → Inv c (at (record q { slots = set q.slots (2 * t) 0 }) p freed sent (received ++ x ∷ []))
  unfolding next_tail lost Taking
  free_pair-Inv x t [] logs ring head_at tail_at sending some_left first = absurd (omega arith)
  free_pair-Inv x t (y ∷ ys) logs ring head_at tail_at sending some_left first =
      let w = set q.slots (2 * t) 0 in
      let there : slot c (slot c t 1) (length ys) ≡ slot c t (suc (length ys)) =
        ground (arith, ring.start_in, ring.fits) in
      record {
        pending = ys;
        start = slot c t 1;
        logs = logs ∙ sym (rw (sym first) (append_assoc received (y ∷ []) ys));
        ring = clear_flag-Ring c t y q.slots ys ring;
        head_at = rw there head_at;
        tail_at = rw tail_at (ground (arith, ring.start_in));
        sending =
            Sending-carry c q.slots w t (slot c t 1) (y ∷ ys) ys p
              (λ room. (omega arith, rw there (get_or-set_ne q.slots 0 0 (omega arith)))) sending;
        taking = tt;
      }

  free-Inv :
      (x : ℕ)
      → Inv c (at q p (erased x) sent received)
      → Inv c (
          at
            (record q { slots = set q.slots q.tail (get_or q.slots (q.tail + 1) 0) })
            p
            freed
            sent
            (received ++ x ∷ []))
  unfolding next_tail lost Taking
  free-Inv x inv =
      let (some_left, first, gone) = inv.taking in
      let here : set q.slots q.tail (get_or q.slots (q.tail + 1) 0)
          ≡ set q.slots (2 * inv.start) 0 =
        rw (inv.tail_at, gone) refl in
      subst (λ w. Inv c (at (record q { slots = w }) p freed sent (received ++ x ∷ []))) (sym here)
        (free_pair-Inv x inv.start inv.pending inv.logs inv.ring inv.head_at inv.tail_at inv.sending
          some_left first)

  move_tail-Inv :
      Inv c (at q p freed sent received)
      → Inv c (at (record q { tail = advance (2 * c) q.tail }) p waiting sent received)
  unfolding next_tail lost Taking
  move_tail-Inv inv = record {
    pending = inv.pending;
    start = inv.start;
    logs = inv.logs;
    ring = inv.ring;
    head_at = inv.head_at;
    tail_at = inv.tail_at;
    sending = inv.sending;
    taking = tt;
  }

pub consume_step-Inv :
    (c : ℕ) (p : Producer) (k : Consumer) (q : Queue) (sent received : List ℕ)
    → Inv c (at q p k sent received)
    → Inv c (consume_step c k (at q p k sent received))
unfolding consume_step
consume_step-Inv c p waiting q sent received inv =
    if-elim (λ (s : State). Inv c s) (empty q) (λ _. inv) (λ e. see-Inv c p q sent received inv e)
consume_step-Inv c p seen q sent received inv = take-Inv c p q sent received inv
consume_step-Inv c p (took x) q sent received inv = erase-Inv c p q sent received x inv
consume_step-Inv c p (erased x) q sent received inv = free-Inv c p q sent received x inv
consume_step-Inv c p freed q sent received inv = move_tail-Inv c p q sent received inv
