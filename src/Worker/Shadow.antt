-- ===== src/Worker/Shadow.antt =====
-- loopevent_orig.cpp: the scans over one page of shadow memory. A page is the list of its 512
-- words of 64 bits; `~` on a word is taken from 2 ^ 64 - 1.
pub mod Scan
pub mod Nrbw
use cos516_project.Prelude.{
  ℕ, ◌+◌, ◌-◌, ◌*◌, ◌/◌, ◌^◌, List, [], ◌∷◌, Bool, true, false, not, ◌&&◌, ◌||◌, bit_and, bit_or,
  ◌==◌, if◌then◌else◌,
}

abbrev pub not_64 : ℕ → ℕ
not_64 w = 2 ^ 64 - 1 - w

-- The low bit of every byte, and every bit of a byte but the third.
abbrev pub low_bits : ℕ
low_bits = 0x0101010101010101

abbrev pub written_bits : ℕ
written_bits = 0xfbfbfbfbfbfbfbfb

-- mask = (s >> 2) & (~(s >> 1)) & 0x0101010101010101L
unfoldable pub read_mask : ℕ → ℕ
read_mask s = bit_and (bit_and (s / 4) (not_64 (s / 2))) low_bits

-- shadow |= (s & mask)
unfoldable pub mark_read : ℕ → ℕ
unfolding read_mask
mark_read s = bit_or s (bit_and s (read_mask s))

abbrev pub is_written : ℕ → Bool
is_written s = not (bit_and s written_bits == 0)

-- What `clear_read` has when its loop ends.
pub record Cleared : Type 0 where
  pub nonzero : ℕ
  pub readonly : Bool
  pub page : List ℕ

abbrev pub one_if_set : ℕ → ℕ
one_if_set s = if s == 0 then 0 else 1

abbrev pub count_round : ℕ → ℕ → ℕ → ℕ
count_round s0 s1 nonzero =
    if s0 == 0 && s1 == 0 then nonzero else nonzero + one_if_set s0 + one_if_set s1

abbrev pub readonly_round : ℕ → ℕ → Bool → Bool
readonly_round s0 s1 readonly =
    if s0 == 0 && s1 == 0
    then readonly
    else if is_written s0 || is_written s1
    then false
    else readonly

abbrev pub mark_round : ℕ → ℕ → List ℕ → List ℕ
mark_round s0 s1 rest =
    if s0 == 0 && s1 == 0 then s0 ∷ s1 ∷ rest else mark_read s0 ∷ mark_read s1 ∷ rest

-- The loop of `clear_read`, two words a round.
unfoldable pub clear_loop : List ℕ → ℕ → Bool → Cleared
unfolding mark_read
clear_loop (s0 ∷ s1 ∷ rest) nonzero readonly =
    let r = clear_loop rest (count_round s0 s1 nonzero) (readonly_round s0 s1 readonly) in
    record r { page = mark_round s0 s1 r.page }
clear_loop page nonzero readonly = record { nonzero = nonzero; readonly = readonly; page = page }

-- The count, and the page afterwards.
unfoldable pub clear_read : List ℕ → ℕ × List ℕ
unfolding clear_loop
clear_read page = let r = clear_loop page 0 true in (if r.readonly then 0 else r.nonzero, r.page)

pub is_ro_page : List ℕ → Bool
is_ro_page (s0 ∷ s1 ∷ rest) =
    if s0 == 0 && s1 == 0
    then is_ro_page rest
    else if is_written s0 || is_written s1
    then false
    else is_ro_page rest
is_ro_page page = true

-- `check_nrbw` with DEBUG_ON: word by word.
pub check_nrbw_debug : List ℕ → Bool
check_nrbw_debug (s0 ∷ s1 ∷ rest) =
    if not (bit_and s0 low_bits == 0)
    then false
    else if not (bit_and s1 low_bits == 0)
    then false
    else check_nrbw_debug rest
check_nrbw_debug page = true

-- `check_nrbw` otherwise: the two words of a round make one register, tested by
-- `_mm_test_all_zeros` against `_mm_set1_epi8(1)`.
unfoldable pub check_nrbw : List ℕ → Bool
check_nrbw (s0 ∷ s1 ∷ rest) =
    if s0 == 0 && s1 == 0
    then check_nrbw rest
    else if not (bit_and (s1 * 2 ^ 64 + s0) (low_bits * 2 ^ 64 + low_bits) == 0)
    then false
    else check_nrbw rest
check_nrbw page = true
