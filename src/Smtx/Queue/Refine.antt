-- ===== src/Smtx/Queue/Refine.antt =====
-- A queue of c pairs against a first-in, first-out list of at most c values.
use cos516_project.Prelude.{
  ℕ, ◌+◌, ◌*◌, ◌≤◌, ◌<◌, ◌≡◌, ◌∙◌, arith, List, [], ◌∷◌, ◌++◌, length, get_or, length-append,
  ℕ_discrete, sym, get_or-append_last, get_or-append_left, get_or-set_self, ◌≢◌, suc,
  length-replicate, true, get_or-replicate, ◌↔◌, refl, set, length-set, get_or-set_ne, false,
}
use cos516_project.Smtx.Queue.{Queue, produce, consume, empty, reset, advance}
use cos516_project.Smtx.Queue.Pairs.{
  slot, flag, value, slot-lt, advance-slot, length-write_pair, flag-write_pair_self,
  value-write_pair_self, slot-ne, flag-write_pair_ne, value-write_pair_ne, write_pair, slot-slot,
  slot-slot_last,
}

-- The queue holds the values `xs`, oldest first, from pair `start` on, and every other pair is free.
pub record Represents (c : ℕ) (q : Queue) (xs : List ℕ) : Type 0 where
  pub start : ℕ
  pub start_in : start < c
  pub tail_at : q.tail ≡ 2 * start
  pub head_at : q.head ≡ 2 * slot c start (length xs)
  pub size : length q.slots ≡ 2 * c
  pub fits : length xs ≤ c
  pub used :
      (i : ℕ)
      → i < length xs
      → (flag q.slots (slot c start i) ≡ 1) × (value q.slots (slot c start i) ≡ get_or xs i 0)
  pub free : (i : ℕ) → length xs ≤ i → i < c → flag q.slots (slot c start i) ≡ 0

module _ (c v : ℕ) (q : Queue) (xs : List ℕ) (r : Represents c q xs) where
  -- Into a queue that represents a list below its capacity, __sw_queue_produce appends the value.
  pub produce-Represents : length xs < c → Represents c (produce (2 * c) q v) (xs ++ v ∷ [])
  unfolding produce
  produce-Represents room =
      let n = length xs in
      let k = slot c r.start n in
      let k_in = slot-lt c r.start r.start_in n room in
      let grown : length (xs ++ v ∷ []) ≡ n + 1 = length-append xs (v ∷ []) in
      record {
        start = r.start;
        start_in = r.start_in;
        tail_at = r.tail_at;
        head_at = rw r.head_at (rw grown (advance-slot c r.start r.start_in n room));
        size = rw r.head_at (length-write_pair q.slots k 1 v ∙ r.size);
        fits = omega (arith, grown);
        used = λ i h. rw r.head_at (elim (ℕ_discrete i n) [
          | yes last ↦ rw last (
            flag-write_pair_self q.slots k 1 v (omega (arith, r.size)),
            value-write_pair_self q.slots k 1 v (omega (arith, r.size))
                ∙ sym (get_or-append_last xs v 0),
          )
          | no early ↦
              let below : i < n = omega (arith, grown) in
              let apart =
                slot-ne c r.start r.start_in n i room (omega arith) (λ e. early (sym e)) in
              let old = r.used i below in
              (
                flag-write_pair_ne q.slots k 1 v (slot c r.start i) apart ∙ old.0,
                value-write_pair_ne q.slots k 1 v (slot c r.start i) apart
                    ∙ old.1
                    ∙ sym (get_or-append_left xs (v ∷ []) i 0 below),
              )
        ]);
        free = λ i lo hi.
            let apart = slot-ne c r.start r.start_in n i room hi (omega (arith, grown)) in
            rw r.head_at (
              flag-write_pair_ne q.slots k 1 v (slot c r.start i) apart
              ∙ r.free i (omega (arith, grown)) hi);
      }

-- The array after `__sw_queue_consume`: the pair at the tail is cleared.
consumed_slots :
    (c : ℕ) (q : Queue) (xs : List ℕ) (r : Represents c q xs)
    → (consume (2 * c) q).1.slots ≡ write_pair q.slots r.start 0 0
unfolding consume
consumed_slots c q xs r =
    let inside : 2 * r.start + 1 < length q.slots = omega (arith, r.size, r.start_in) in
    rw (r.tail_at, get_or-set_self q.slots (2 * r.start + 1) 0 0 inside)

-- Clearing the flag at the tail and moving on removes the oldest value.
module _ (c x : ℕ) (xs : List ℕ) (q : Queue) (r : Represents c q (x ∷ xs)) (slots : List ℕ)
    (same_size : length slots ≡ length q.slots) (cleared : flag slots r.start ≡ 0)
    (others : (j : ℕ)
      → r.start ≢ j
      → (flag slots j ≡ flag q.slots j) × (value slots j ≡ value q.slots j)) where
  drop-Represents : Represents c (record q { tail = advance (2 * c) q.tail; slots = slots }) xs
  drop-Represents =
      let t = r.start in
      record {
        start = slot c t 1;
        start_in = ground (arith, r.start_in);
        tail_at = rw r.tail_at (ground (arith, r.start_in));
        head_at = r.head_at ∙ ground (arith, r.start_in, r.fits);
        size = same_size ∙ r.size;
        fits = omega (arith, r.fits);
        used = λ i h.
            let there = slot-slot c t r.start_in i (omega (arith, r.fits)) in
            let apart : t ≢ slot c t (suc i) = ground (arith, r.start_in, r.fits) in
            let old = r.used (suc i) (omega arith) in
            let kept = others (slot c t (suc i)) apart in rw there (kept.0 ∙ old.0, kept.1 ∙ old.1);
        free = λ i lo hi. elim (ℕ_discrete (i + 1) c) [
          | yes last ↦ rw (slot-slot_last c t r.start_in i last) cleared
          | no early ↦
              let there = slot-slot c t r.start_in i (omega arith) in
              let apart : t ≢ slot c t (suc i) = ground (arith, r.start_in) in
              rw there
                ((others (slot c t (suc i)) apart).0 ∙ r.free (suc i) (omega arith) (omega arith))
        ];
      }

module _ (c x : ℕ) (xs : List ℕ) (q : Queue) (r : Represents c q (x ∷ xs)) where
  -- On a queue that represents a list that is not empty, __sw_queue_consume returns the oldest
  -- value and removes it.
  pub consume-Represents : ((consume (2 * c) q).0 ≡ x) × Represents c (consume (2 * c) q).1 xs
  unfolding consume
  consume-Represents =
      let t = r.start in
      let w = write_pair q.slots t 0 0 in
      let at_start : slot c t 0 ≡ t = ground (arith, r.start_in) in
      let first : value q.slots t ≡ x = rw at_start at ((r.used 0 (omega arith)).1) in
      let dropped =
        drop-Represents c x xs q r w (length-write_pair q.slots t 0 0)
          (flag-write_pair_self q.slots t 0 0 (omega (arith, r.size, r.start_in)))
          (λ j ne.
            (flag-write_pair_ne q.slots t 0 0 j ne, value-write_pair_ne q.slots t 0 0 j ne)) in
      (rw r.tail_at first, rw (consumed_slots c q (x ∷ xs) r) dropped)

  -- One round of `__sw_queue_clear` removes the oldest value, too, and leaves its word behind.
  pub clear_round :
      Represents c (record q { tail = advance (2 * c) q.tail; slots = set q.slots q.tail 0 }) xs
  clear_round =
      let t = r.start in
      drop-Represents c x xs q r (set q.slots q.tail 0) (length-set q.slots q.tail 0)
        (rw r.tail_at (get_or-set_self q.slots (2 * t) 0 0 (omega (arith, r.size, r.start_in))))
        (λ j ne.
          rw r.tail_at
            (get_or-set_ne q.slots 0 0 (omega arith), get_or-set_ne q.slots 0 0 (omega arith)))

-- The flag at the tail.
pub front_free : (c : ℕ) (q : Queue) → Represents c q [] → get_or q.slots q.tail 0 ≡ 0
front_free c q r =
    let at_start : slot c r.start 0 ≡ r.start = ground (arith, r.start_in) in
    rw r.tail_at (rw at_start at (r.free 0 (omega arith) (omega (arith, r.start_in))))

pub front_used :
    (c x : ℕ) (xs : List ℕ) (q : Queue) → Represents c q (x ∷ xs) → get_or q.slots q.tail 0 ≡ 1
front_used c x xs q r =
    let at_start : slot c r.start 0 ≡ r.start = ground (arith, r.start_in) in
    rw r.tail_at (rw at_start at ((r.used 0 (omega arith)).0))

-- On a queue that represents a list, __sw_queue_empty answers whether the list is empty.
empty_lem : (c : ℕ) (q : Queue) (xs : List ℕ) → Represents c q xs → (empty q ≡ true) ↔ (xs ≡ [])
unfolding empty
empty_lem c q [] r = rw (front_free c q r) ((λ _. refl), (λ _. refl))
empty_lem c q (x ∷ xs) r = rw (front_used c x xs q r) ((λ e. cc), (λ e. cc))

-- `__sw_queue_reset` gives the empty queue.
pub reset-Represents : (c : ℕ) (q : Queue) → 0 < c → Represents c (reset (2 * c) q) []
unfolding reset
reset-Represents c q h = record {
  start = 0;
  start_in = h;
  tail_at = refl;
  head_at = ground arith;
  size = length-replicate (2 * c) 0;
  fits = omega arith;
  used = λ i k. absurd (omega arith);
  free = λ i _ _. get_or-replicate (2 * c) (2 * slot c 0 i) 0;
}

-- Producing into a queue that represents a list of its capacity writes over the oldest value, so
-- that the next value consumed is the new one.
pub produce_full :
    (c v x : ℕ) (q : Queue) (xs : List ℕ)
    → Represents c q (x ∷ xs)
    → length (x ∷ xs) ≡ c
    → (consume (2 * c) (produce (2 * c) q v)).0 ≡ v
unfolding produce consume
produce_full c v x q xs r full =
    let t = r.start in
    let at_tail : slot c t (length (x ∷ xs)) ≡ t = ground (arith, r.start_in) in
    rw (r.head_at, r.tail_at, at_tail)
      (value-write_pair_self q.slots t 1 v (omega (arith, r.size, r.start_in)))

pub empty-nil : (c : ℕ) (q : Queue) → Represents c q [] → empty q ≡ true
unfolding empty
empty-nil c q r = rw (front_free c q r) refl

pub empty-cons : (c x : ℕ) (xs : List ℕ) (q : Queue) → Represents c q (x ∷ xs) → empty q ≡ false
unfolding empty
empty-cons c x xs q r = rw (front_used c x xs q r) refl
