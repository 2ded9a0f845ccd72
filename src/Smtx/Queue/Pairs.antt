-- ===== src/Smtx/Queue/Pairs.antt =====
-- The array of a queue as pairs of a flag and a value.
use cos516_project.Prelude.{
  ℕ, ◌+◌, ◌-◌, ◌*◌, ◌<◌, ◌≡◌, ◌≢◌, ◌∙◌, arith, List, length, get_or, set, length-set,
  get_or-set_self, get_or-set_ne, ltb, if◌then◌else◌, suc,
}
use cos516_project.Smtx.Queue.{advance}

abbrev pub flag : List ℕ → ℕ → ℕ
flag slots k = get_or slots (2 * k) 0

abbrev pub value : List ℕ → ℕ → ℕ
value slots k = get_or slots (2 * k + 1) 0

-- The `i`th pair from pair `t` on, going round at `c`.
abbrev pub slot : ℕ → ℕ → ℕ → ℕ
slot c t i = if ltb (t + i) c then t + i else t + i - c

abbrev pub write_pair : List ℕ → ℕ → ℕ → ℕ → List ℕ
write_pair slots k f v = set (set slots (2 * k + 1) v) (2 * k) f

module _ (slots : List ℕ) (k f v : ℕ) where
  pub length-write_pair : length (write_pair slots k f v) ≡ length slots
  length-write_pair =
      length-set (set slots (2 * k + 1) v) (2 * k) f ∙ length-set slots (2 * k + 1) v

  pub flag-write_pair_self : 2 * k < length slots → flag (write_pair slots k f v) k ≡ f
  flag-write_pair_self h = get_or-set_self (set slots (2 * k + 1) v) (2 * k) f 0 (rw length-set h)

  pub value-write_pair_self : 2 * k + 1 < length slots → value (write_pair slots k f v) k ≡ v
  value-write_pair_self h =
      get_or-set_ne (set slots (2 * k + 1) v) f 0 (omega arith)
      ∙ get_or-set_self slots (2 * k + 1) v 0 h

  pub flag-write_pair_ne : (j : ℕ) → k ≢ j → flag (write_pair slots k f v) j ≡ flag slots j
  flag-write_pair_ne j ne =
      get_or-set_ne (set slots (2 * k + 1) v) f 0 (omega arith)
      ∙ get_or-set_ne slots v 0 (omega arith)

  pub value-write_pair_ne : (j : ℕ) → k ≢ j → value (write_pair slots k f v) j ≡ value slots j
  value-write_pair_ne j ne =
      get_or-set_ne (set slots (2 * k + 1) v) f 0 (omega arith)
      ∙ get_or-set_ne slots v 0 (omega arith)

module _ (c t : ℕ) (h : t < c) where
  pub slot-lt : (i : ℕ) → i < c → slot c t i < c
  slot-lt i hi = ground arith

  pub slot-ne : (i j : ℕ) → i < c → j < c → i ≢ j → slot c t i ≢ slot c t j
  slot-ne i j hi hj ne = ground arith

  -- The pair after pair `i`, by the code's wrap, and by the model's.
  pub advance-slot : (i : ℕ) → i < c → advance (2 * c) (2 * slot c t i) ≡ 2 * slot c t (i + 1)
  advance-slot i hi = ground arith

  pub slot-slot : (i : ℕ) → i + 1 < c → slot c (slot c t 1) i ≡ slot c t (suc i)
  slot-slot i hi = ground arith

  pub slot-slot_last : (i : ℕ) → i + 1 ≡ c → slot c (slot c t 1) i ≡ t
  slot-slot_last i hi = ground arith
