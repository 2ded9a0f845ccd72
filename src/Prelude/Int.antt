-- ===== src/Prelude/Int.antt =====
-- C's `int` for the counters that can fall below zero. Overflow is left out.
use Prim.Native.Nat.{ℕ, suc, ◌+◌, ◌-◌, ◌%◌, ◌≤◌}
use mathlib.Core.Bool.{Bool, false}
use cos516_project.Prelude.Tests.{leb, ◌==◌, if◌then◌else◌}

-- `negsuc n` is -(n + 1).
pub data ℤ : Type 0 where
  pos : ℕ → ℤ
  negsuc : ℕ → ℤ

-- `x -= 1`, `x += 1`
abbrev pub pred_ℤ : ℤ → ℤ
pred_ℤ (pos n) = if n == 0 then negsuc 0 else pos (n - 1)
pred_ℤ (negsuc n) = negsuc (n + 1)

abbrev pub suc_ℤ : ℤ → ℤ
suc_ℤ (pos n) = pos (n + 1)
suc_ℤ (negsuc n) = if n == 0 then pos 0 else negsuc (n - 1)

-- `x == 0`, `x > 0`, and `x >= k` at a natural `k`
abbrev pub is_zero : ℤ → Bool
is_zero (pos n) = n == 0
is_zero (negsuc n) = false

abbrev pub is_pos : ℤ → Bool
is_pos (pos n) = leb 1 n
is_pos (negsuc n) = false

abbrev pub geb : ℤ → ℕ → Bool
geb (pos n) k = leb k n
geb (negsuc n) k = false

-- `x % k == 0`: C's remainder takes the sign of `x`, so it is 0 exactly when `k` divides |x|.
abbrev pub divides : ℕ → ℤ → Bool
divides k (pos n) = n % k == 0
divides k (negsuc n) = suc n % k == 0

-- A counter that is not negative and at most `b`.
abbrev pub AtMost : ℕ → ℤ → Type 0
AtMost b (pos n) = n ≤ b
AtMost b (negsuc n) = ⊥
