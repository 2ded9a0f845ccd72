-- ===== src/Worker/Shadow/Scan.antt =====
-- What the scans of a page compute: `clear_read` and `is_ro_page`.
use cos516_project.Prelude.{
  List, ℕ, Bool, ◌≡◌, ◌∷◌, ◌+◌, true, [], ◌&&◌, not, false, refl, ap, arith, ◌∙◌, if◌then◌else◌,
}
use cos516_project.Worker.Shadow.{
  clear_loop, mark_read, one_if_set, read_mask, is_written, count_round, mark_round, clear_read,
  is_ro_page, readonly_round, written_bits,
}
use cos516_project.Prelude.Bits.{bit_or-bit_and, zero-bit_and}

mark_read_lem : (s : ℕ) → mark_read s ≡ s
unfolding mark_read
mark_read_lem s = bit_or-bit_and s (read_mask s)

-- The number of words that are not zero.
abbrev pub nonzero_words : List ℕ → ℕ
nonzero_words [] = 0
nonzero_words (s ∷ page) = one_if_set s + nonzero_words page

-- No word has a bit outside the third of a byte.
abbrev pub all_readonly : List ℕ → Bool
all_readonly [] = true
all_readonly (s ∷ page) = not (is_written s) && all_readonly page

-- A page of an even number of words.
abbrev pub IsPaired : List ℕ → Type 0
IsPaired [] = Unit {0}
IsPaired (s ∷ []) = ⊥
IsPaired (s0 ∷ s1 ∷ page) = IsPaired page

mark_round_lem : (s0 s1 : ℕ) (rest : List ℕ) → mark_round s0 s1 rest ≡ s0 ∷ s1 ∷ rest
mark_round_lem s0 s1 rest = ground (arith, mark_read_lem s0, mark_read_lem s1)

count_round_lem :
    (s0 s1 n m : ℕ) → count_round s0 s1 n + m ≡ n + (one_if_set s0 + (one_if_set s1 + m))
count_round_lem s0 s1 n m = ground arith

readonly_round_lem :
    (s0 s1 : ℕ) (r a : Bool)
    → (readonly_round s0 s1 r && a) ≡ (r && (not (is_written s0) && (not (is_written s1) && a)))
readonly_round_lem s0 s1 r a = ground (arith, zero-bit_and written_bits)

clear_loop-page :
    (page : List ℕ) (nonzero : ℕ) (readonly : Bool) → (clear_loop page nonzero readonly).page ≡ page
unfolding clear_loop
clear_loop-page [] nonzero readonly = refl
clear_loop-page (s ∷ []) nonzero readonly = refl
clear_loop-page (s0 ∷ s1 ∷ rest) nonzero readonly =
    ap (mark_round s0 s1) (clear_loop-page rest _ _) ∙ mark_round_lem s0 s1 rest

clear_loop-nonzero :
    (page : List ℕ) (nonzero : ℕ) (readonly : Bool)
    → IsPaired page
    → (clear_loop page nonzero readonly).nonzero ≡ nonzero + nonzero_words page
unfolding clear_loop
clear_loop-nonzero [] nonzero readonly h = omega arith
clear_loop-nonzero (s ∷ []) nonzero readonly h = absurd h
clear_loop-nonzero (s0 ∷ s1 ∷ rest) nonzero readonly h =
    clear_loop-nonzero rest _ _ h ∙ count_round_lem s0 s1 nonzero (nonzero_words rest)

clear_loop-readonly :
    (page : List ℕ) (nonzero : ℕ) (readonly : Bool)
    → IsPaired page
    → (clear_loop page nonzero readonly).readonly ≡ (readonly && all_readonly page)
unfolding clear_loop
clear_loop-readonly [] nonzero true h = refl
clear_loop-readonly [] nonzero false h = refl
clear_loop-readonly (s ∷ []) nonzero readonly h = absurd h
clear_loop-readonly (s0 ∷ s1 ∷ rest) nonzero readonly h =
    clear_loop-readonly rest _ _ h ∙ readonly_round_lem s0 s1 readonly (all_readonly rest)

-- On a page of an even number of words, clear_read returns 0 where no byte was written and the
-- number of nonzero words otherwise, and leaves the page as it was.
pub clear_read_lem :
    (page : List ℕ)
    → IsPaired page
    → clear_read page ≡ (if all_readonly page then 0 else nonzero_words page, page)
unfolding clear_read
clear_read_lem page h =
    rw (clear_loop-page page 0 true, clear_loop-readonly page 0 true h)
      (ap (λ (n : ℕ). (if all_readonly page then 0 else n, page))
        (clear_loop-nonzero page 0 true h ∙ omega arith))

-- On a page of an even number of words, is_ro_page holds exactly where no byte was written.
is_ro_page_lem : (page : List ℕ) → IsPaired page → is_ro_page page ≡ all_readonly page
unfolding is_ro_page
is_ro_page_lem [] h = refl
is_ro_page_lem (s ∷ []) h = absurd h
is_ro_page_lem (s0 ∷ s1 ∷ rest) h = ground (arith, zero-bit_and written_bits, is_ro_page_lem rest h)
