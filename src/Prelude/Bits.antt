-- ===== src/Prelude/Bits.antt =====
-- The native bit operations at variables: one equation for the lowest digit, absorption, and the
-- splitting of a word into fields.
use Prim.Native.Nat.{ℕ, zero, suc, ◌+◌, ◌*◌, ◌/◌, ◌%◌, ◌^◌, ◌≤◌, ◌<◌, min, max}
use Prim.Native.Nat.{digits, bitwise, bit_and, bit_or, bit_and-bitwise, bit_or-bitwise}
use mathlib.Core.Path.{◌≡◌, refl, ap, sym, ◌∙◌}
use native.Mathlib.Nat.{le_refl, pow-suc}
use native.Mathlib.Omega.{arith}

-- A native operation runs a recursion over the binary digits of its first argument, on as much fuel
-- as that argument; `z` says what it makes of the other one when the first is used up.
module _ (z : ℕ → ℕ) (f : ℕ → ℕ → ℕ) (used_up : (y : ℕ) → z y ≡ 2 * z (y / 2) + f 0 (y % 2)) where
  -- Any fuel that is not less than the first argument gives the same, by induction on a bound of it.
  spare_fuel :
      (bound fuel x y : ℕ) → fuel ≤ bound → x ≤ fuel → digits z f fuel x y ≡ bitwise z f x y
  spare_fuel bound zero zero y h k = refl
  spare_fuel bound zero (suc x) y h k = absurd (omega arith)
  spare_fuel bound (suc fuel) zero y h k = refl
  spare_fuel zero (suc fuel) (suc x) y h k = absurd (omega arith)
  spare_fuel (suc bound) (suc fuel) (suc x) y h k =
      let half = suc x / 2 in
      let outer = spare_fuel bound fuel half (y / 2) (omega arith) (omega arith) in
      let inner = spare_fuel bound x half (y / 2) (omega arith) (omega arith) in
      rw (outer, inner) refl

  halves : (x y : ℕ) → bitwise z f x y ≡ 2 * bitwise z f (x / 2) (y / 2) + f (x % 2) (y % 2)
  halves zero y = used_up y
  halves (suc x) y = omega (arith, spare_fuel x x (suc x / 2) (y / 2) (le_refl x) (omega arith))

bit_or_step : (x y : ℕ) → bit_or x y ≡ 2 * bit_or (x / 2) (y / 2) + max (x % 2) (y % 2)
bit_or_step x y =
    bit_or-bitwise x y
    ∙ halves (λ b. b) max (λ b. omega arith) x y
    ∙ ap (λ (t : ℕ). 2 * t + max (x % 2) (y % 2)) (sym (bit_or-bitwise (x / 2) (y / 2)))

bit_and_step : (x y : ℕ) → bit_and x y ≡ 2 * bit_and (x / 2) (y / 2) + min (x % 2) (y % 2)
bit_and_step x y =
    bit_and-bitwise x y
    ∙ halves (λ b. 0) min (λ b. omega arith) x y
    ∙ ap (λ (t : ℕ). 2 * t + min (x % 2) (y % 2)) (sym (bit_and-bitwise (x / 2) (y / 2)))

pub zero-bit_and : (b : ℕ) → bit_and 0 b ≡ 0
zero-bit_and b = bit_and-bitwise 0 b

absorb_fuel : (n a b : ℕ) → a ≤ n → bit_or a (bit_and a b) ≡ a
absorb_fuel n zero b h = rw (zero-bit_and b) refl
absorb_fuel zero (suc a) b h = absurd (omega arith)
absorb_fuel (suc n) (suc a) b h =
    let x = bit_and (suc a) b in
    let half : x / 2 ≡ bit_and (suc a / 2) (b / 2) = omega (arith, bit_and_step (suc a) b) in
    ground (
      arith,
      bit_or_step (suc a) x,
      bit_and_step (suc a) b,
      absorb_fuel n (suc a / 2) (b / 2) (omega arith),
    )

-- Absorption: or-ing a part of a word into it changes nothing.
pub bit_or-bit_and : (a b : ℕ) → bit_or a (bit_and a b) ≡ a
bit_or-bit_and a b = absorb_fuel a a b (le_refl _)

-- One place further to the left.
shift_once : (word places : ℕ) → word * 2 ^ suc places ≡ word * 2 ^ places + word * 2 ^ places
shift_once word places =
    let doubled : word * (2 ^ places * 2) ≡ word * 2 ^ places + word * 2 ^ places = ground arith in
    ap (◌*◌ word) (pow-suc 2 places) ∙ doubled

-- `&` works on the low `k` bits and on the rest apart.
pub bit_and-split :
    (k a b r s : ℕ)
    → r < 2 ^ k
    → s < 2 ^ k
    → bit_and (a * 2 ^ k + r) (b * 2 ^ k + s) ≡ bit_and a b * 2 ^ k + bit_and r s
bit_and-split zero a b r s hr hs = ground (arith, zero-bit_and s)
bit_and-split (suc k) a b r s hr hs =
    let x = a * 2 ^ suc k + r in
    let y = b * 2 ^ suc k + s in
    let ex : x / 2 ≡ a * 2 ^ k + r / 2 = omega (arith, shift_once a k) in
    let ey : y / 2 ≡ b * 2 ^ k + s / 2 = omega (arith, shift_once b k) in
    ground (
      arith,
      bit_and_step x y,
      bit_and_step r s,
      shift_once a k,
      shift_once b k,
      shift_once (bit_and a b) k,
      pow-suc 2 k,
      bit_and-split k a b (r / 2) (s / 2) (omega (arith, pow-suc 2 k)) (omega (arith, pow-suc 2 k)),
    )
