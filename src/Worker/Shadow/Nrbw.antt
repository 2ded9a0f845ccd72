-- ===== src/Worker/Shadow/Nrbw.antt =====
-- The two ways in which `check_nrbw` looks for a byte with its low bit set.
use cos516_project.Prelude.{List, ℕ, ◌<◌, All, ◌^◌, arith, bit_and, ◌≡◌, ◌*◌, ◌∷◌, ◌+◌, [], refl}
use cos516_project.Worker.Shadow.{check_nrbw, check_nrbw_debug, low_bits}
use cos516_project.Prelude.Bits.{bit_and-split}

-- Two words side by side, and the same mask on both.
wide_test :
    (s0 s1 m : ℕ)
    → s0 < 2 ^ 64
    → m < 2 ^ 64
    → bit_and (s1 * 2 ^ 64 + s0) (m * 2 ^ 64 + m) ≡ bit_and s1 m * 2 ^ 64 + bit_and s0 m
wide_test s0 s1 m h hm = bit_and-split 64 s1 m s0 m h hm

low_bits-lt : low_bits < 2 ^ 64
low_bits-lt = omega arith

-- On pages of 64-bit words the test of check_nrbw on registers and its test word by word agree.
pub check_nrbw_lem :
    (page : List ℕ) → All (λ s. s < 2 ^ 64) page → check_nrbw page ≡ check_nrbw_debug page
unfolding check_nrbw check_nrbw_debug
check_nrbw_lem [] h = refl
check_nrbw_lem (s ∷ []) h = refl
check_nrbw_lem (s0 ∷ s1 ∷ rest) h =
    ground (arith, wide_test s0 s1 low_bits h.0 low_bits-lt, check_nrbw_lem rest h.1.1)
