-- ===== src/Worker/Forward/Pages.antt =====
-- What a loop of `end_iter` over pages does to the pages.
use cos516_project.Prelude.{
  ◌∷◌, zero, List, ℕ, ◌≡◌, arith, if-elim, replicate, false, true, not, length, suc, refl, ◌↔◌, [],
  All, subst, sym,
}
use cos516_project.Worker.Forward.{
  end_page, end_pages, Platform, check_required, forward_pair, Page, is_touched, Check, Sender,
  clear_touched,
}
use cos516_project.Worker.Shadow.Scan.{nonzero_words}
use cos516_project.Prelude.Bits.{zero-bit_and}

-- What the functions of utils.h do, by their names: the one writes zeros over a page, the other
-- tells whether all of it is zero.
pub record IsPlatform (u : Platform) : Type 0 where
  pub sets_zero : (shadow : List ℕ) → u.set_zero_page shadow ≡ replicate (length shadow) 0
  pub tells_zero : (shadow : List ℕ) → (u.is_zero_page shadow ≡ true) ↔ (nonzero_words shadow ≡ 0)

-- No page of the list is marked as touched.
abbrev pub IsUntouched : Page → Type 0
IsUntouched p = is_touched p.shadow ≡ false

replicate-zero-untouched : (n : ℕ) → is_touched (replicate n 0) ≡ false
replicate-zero-untouched zero = refl
replicate-zero-untouched (suc n) = ground (arith, zero-bit_and 0x80)

nonzero_words-untouched : (shadow : List ℕ) → nonzero_words shadow ≡ 0 → is_touched shadow ≡ false
nonzero_words-untouched [] h = refl
nonzero_words-untouched (zero ∷ shadow) h = ground (arith, zero-bit_and 0x80)
nonzero_words-untouched (suc s ∷ shadow) h = absurd (ground (arith, h))

forward_pair-shadow :
    (u : Platform) (nonzero : ℕ) (p : Page) (check : Check) (s : Sender)
    → (forward_pair u nonzero p check s).1 ≡ record p { shadow = u.set_zero_page p.shadow }
unfolding forward_pair
forward_pair-shadow u nonzero p check s = ground arith

end_page-IsUntouched :
    (u : Platform) (p : Page) (s : Sender) → IsPlatform u → IsUntouched (end_page u p s).1
unfolding end_page
end_page-IsUntouched u p s hu =
    if-elim (λ (r : Sender × Page). IsUntouched r.1) (not (is_touched p.shadow))
      (λ e. ground (arith, e))
      (λ e.
        if-elim (λ (r : Sender × Page). IsUntouched r.1) (u.is_zero_page (clear_touched p.shadow))
          (λ z. nonzero_words-untouched _ ((hu.tells_zero _).0 z))
          (λ z. subst IsUntouched (sym (forward_pair-shadow u _ _ check_required s)) (
            subst (λ sh. is_touched sh ≡ false) (sym (hu.sets_zero _))
              (replicate-zero-untouched _))))

-- Where the functions of utils.h do what their names say, no page is marked as touched after a
-- loop of end_iter.
pub end_pages-IsUntouched :
    (u : Platform) (ps : List Page) (s : Sender)
    → IsPlatform u
    → All IsUntouched (end_pages u ps s).1
unfolding end_pages
end_pages-IsUntouched u [] s hu = tt
end_pages-IsUntouched u (p ∷ ps) s hu =
    (end_page-IsUntouched u p s hu, end_pages-IsUntouched u ps (end_page u p s).0 hu)
