-- ===== src/Smtx/Queue/Ring.antt =====
-- The array of a queue between two stores of `__sw_queue_produce` or `__sw_queue_consume`.
use cos516_project.Prelude.{
  ℕ, suc, ◌+◌, ◌*◌, ◌≤◌, ◌<◌, ◌≡◌, ◌≢◌, ◌∙◌, arith, List, [], ◌∷◌, ◌++◌, length, get_or, set, sym,
  length-set, get_or-set_self, get_or-set_ne, length-append, ℕ_discrete, get_or-append_last,
  get_or-append_left,
}
use cos516_project.Smtx.Queue.Pairs.{slot, flag, value, slot-lt, slot-ne, slot-slot, slot-slot_last}

-- The pairs from pair `start` on are flagged and hold the values `xs`, oldest first, every other
-- pair is free; the `lost` oldest values have been erased.
pub record Ring (c : ℕ) (slots : List ℕ) (start : ℕ) (xs : List ℕ) (lost : ℕ) : Type 0 where
  pub start_in : start < c
  pub size : length slots ≡ 2 * c
  pub fits : length xs ≤ c
  pub used : (i : ℕ) → i < length xs → flag slots (slot c start i) ≡ 1
  pub kept : (i : ℕ) → i < length xs → lost ≤ i → value slots (slot c start i) ≡ get_or xs i 0
  pub free : (i : ℕ) → length xs ≤ i → i < c → flag slots (slot c start i) ≡ 0

module _ (c start : ℕ) (slots xs : List ℕ) (b : ℕ) (r : Ring c slots start xs b) where
  -- Writing a value into a free pair.
  pub write_value-Ring :
      (v : ℕ) → length xs < c → Ring c (set slots (2 * slot c start (length xs) + 1) v) start xs b
  write_value-Ring v room =
      let k = slot c start (length xs) in
      record {
        start_in = r.start_in;
        size = length-set slots (2 * k + 1) v ∙ r.size;
        fits = r.fits;
        used = λ i h. get_or-set_ne slots v 0 (omega arith) ∙ r.used i h;
        kept = λ i h hb.
            let apart =
              slot-ne c start r.start_in (length xs) i room (omega (arith, r.fits)) (omega arith) in
            get_or-set_ne slots v 0 (omega arith) ∙ r.kept i h hb;
        free = λ i lo hi. get_or-set_ne slots v 0 (omega arith) ∙ r.free i lo hi;
      }

  -- Setting the flag of a free pair that holds `v`.
  pub set_flag-Ring :
      (v : ℕ)
      → length xs < c
      → value slots (slot c start (length xs)) ≡ v
      → Ring c (set slots (2 * slot c start (length xs)) 1) start (xs ++ v ∷ []) b
  set_flag-Ring v room holds =
      let n = length xs in
      let k = slot c start n in
      let k_in = slot-lt c start r.start_in n room in
      let grown : length (xs ++ v ∷ []) ≡ n + 1 = length-append xs (v ∷ []) in
      record {
        start_in = r.start_in;
        size = length-set slots (2 * k) 1 ∙ r.size;
        fits = omega (arith, grown);
        used = λ i h. elim (ℕ_discrete i n) [
          | yes last ↦ rw last (get_or-set_self slots (2 * k) 1 0 (omega (arith, r.size)))
          | no early ↦
              let apart =
                slot-ne c start r.start_in n i room (omega (arith, grown)) (λ e. early (sym e)) in
              get_or-set_ne slots 1 0 (omega arith) ∙ r.used i (omega (arith, grown))
        ];
        kept = λ i h hb. elim (ℕ_discrete i n) [
          | yes last ↦
              rw last
                (get_or-set_ne slots 1 0 (omega arith) ∙ holds ∙ sym (get_or-append_last xs v 0))
          | no early ↦
              let below : i < n = omega (arith, grown) in
              get_or-set_ne slots 1 0 (omega arith)
              ∙ r.kept i below hb
              ∙ sym (get_or-append_left xs (v ∷ []) i 0 below)
        ];
        free = λ i lo hi.
            let apart = slot-ne c start r.start_in n i room hi (omega (arith, grown)) in
            get_or-set_ne slots 1 0 (omega arith) ∙ r.free i (omega (arith, grown)) hi;
      }

-- Erasing the oldest value.
pub clear_value-Ring :
    (c start : ℕ) (slots xs : List ℕ)
    → Ring c slots start xs 0
    → Ring c (set slots (2 * start + 1) 0) start xs 1
clear_value-Ring c start slots xs r = record {
  start_in = r.start_in;
  size = length-set slots (2 * start + 1) 0 ∙ r.size;
  fits = r.fits;
  used = λ i h. get_or-set_ne slots 0 0 (omega arith) ∙ r.used i h;
  kept = λ i h hb.
      let apart : start ≢ slot c start i = ground (arith, r.start_in, r.fits) in
      get_or-set_ne slots 0 0 (omega arith) ∙ r.kept i h (omega arith);
  free = λ i lo hi. get_or-set_ne slots 0 0 (omega arith) ∙ r.free i lo hi;
}

-- Clearing the flag of the oldest pair.
pub clear_flag-Ring :
    (c start x : ℕ) (slots xs : List ℕ)
    → Ring c slots start (x ∷ xs) 1
    → Ring c (set slots (2 * start) 0) (slot c start 1) xs 0
clear_flag-Ring c start x slots xs r =
    let w = set slots (2 * start) 0 in
    record {
      start_in = ground (arith, r.start_in);
      size = length-set slots (2 * start) 0 ∙ r.size;
      fits = omega (arith, r.fits);
      used = λ i h.
          let apart : start ≢ slot c start (suc i) = ground (arith, r.start_in, r.fits) in
          rw (slot-slot c start r.start_in i (omega (arith, r.fits)))
            (get_or-set_ne slots 0 0 (omega arith) ∙ r.used (suc i) (omega arith));
      kept = λ i h _.
          rw (slot-slot c start r.start_in i (omega (arith, r.fits)))
            (get_or-set_ne slots 0 0 (omega arith) ∙ r.kept (suc i) (omega arith) (omega arith));
      free = λ i lo hi. elim (ℕ_discrete (i + 1) c) [
        | yes last ↦
            rw (slot-slot_last c start r.start_in i last)
              (get_or-set_self slots (2 * start) 0 0 (omega (arith, r.size, r.start_in)))
        | no early ↦
            let apart : start ≢ slot c start (suc i) = ground (arith, r.start_in) in
            rw (slot-slot c start r.start_in i (omega arith))
              (get_or-set_ne slots 0 0 (omega arith) ∙ r.free (suc i) (omega arith) (omega arith))
      ];
    }
