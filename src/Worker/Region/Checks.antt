-- ===== src/Worker/Region/Checks.antt =====
-- What the checks of a heap find.
use cos516_project.Prelude.{
  zero, suc, ℕ, ◌+◌, ◌∷◌, ◌++◌, ◌≡◌, List, [], arith, Bool, if-elim, if◌then◌else◌, ltb, ap, ◌==◌,
  ◌&&◌, ◌∙◌, Bool-cases, inr, not, refl, inl, ◌≢◌,
}
use cos516_project.Worker.Shadow.{clear_read, check_nrbw}
use cos516_project.Worker.Forward.{
  Platform, Page, Sender, Call, Check, forward_page, forward_packet, broadcast_eoi,
  broadcast_malloc_chunk, misspec, check_free, forward_pair, forward_words, buffer_ro_page,
  make_room, forward_ro_page, flush, is_touched, clear_touched,
}
use cos516_project.Worker.Region.{Layout, Area, check_page}

-- The calls of misspec.
abbrev pub misspecs : List Call → ℕ
misspecs [] = 0
misspecs (misspec ∷ cs) = suc (misspecs cs)
misspecs (c ∷ cs) = misspecs cs

misspecs-append : (cs ds : List Call) → misspecs (cs ++ ds) ≡ misspecs cs + misspecs ds
misspecs-append [] ds = omega arith
misspecs-append (misspec ∷ cs) ds = ap suc (misspecs-append cs ds) ∙ omega arith
misspecs-append (forward_page a ps check ∷ cs) ds = misspecs-append cs ds
misspecs-append (forward_packet a v check ∷ cs) ds = misspecs-append cs ds
misspecs-append (broadcast_eoi ∷ cs) ds = misspecs-append cs ds
misspecs-append (broadcast_malloc_chunk e i ∷ cs) ds = misspecs-append cs ds

forward_words-misspecs :
    (address : ℕ) (mem shadow : List ℕ) (check : Check)
    → misspecs (forward_words address mem shadow check) ≡ 0
unfolding forward_words
forward_words-misspecs address [] shadow check = refl
forward_words-misspecs address (m ∷ mem) [] check = refl
forward_words-misspecs address (m ∷ mem) (s ∷ shadow) check =
    if-elim (λ (cs : List Call). misspecs cs ≡ 0) (s == 0)
      (λ _. forward_words-misspecs (address + 8) mem shadow check)
      (λ _. forward_words-misspecs (address + 8) mem shadow check)

buffer_ro_page-misspecs :
    (buffer_address page : ℕ) (s : Sender)
    → misspecs (buffer_ro_page buffer_address page s).calls ≡ misspecs s.calls
unfolding buffer_ro_page make_room forward_ro_page flush
buffer_ro_page-misspecs buffer_address page s =
    if-elim (λ (t : Sender). misspecs t.calls ≡ misspecs s.calls) (s.index == 512)
      (λ _.
        if-elim (λ (t : Sender). misspecs t.calls ≡ misspecs s.calls) (s.index == 0) (λ _. refl)
          (λ _. misspecs-append s.calls _ ∙ omega arith))
      (λ _. refl)

forward_pair-misspecs :
    (u : Platform) (nonzero : ℕ) (p : Page) (check : Check) (s : Sender)
    → misspecs (forward_pair u nonzero p check s).0.calls ≡ misspecs s.calls
unfolding forward_pair
forward_pair-misspecs u nonzero p check s =
    if-elim (λ (r : Sender × Page). misspecs r.0.calls ≡ misspecs s.calls) (ltb 8 nonzero)
      (λ _.
        misspecs-append (s.calls ++ forward_page p.address p.mem check ∷ []) _
        ∙ omega (arith, misspecs-append s.calls (forward_page p.address p.mem check ∷ [])))
      (λ _.
        if-elim (λ (r : Sender × Page). misspecs r.0.calls ≡ misspecs s.calls) (not (nonzero == 0))
          (λ _.
            misspecs-append s.calls (forward_words p.address p.mem p.shadow check)
            ∙ omega (arith, forward_words-misspecs p.address p.mem p.shadow check))
          (λ _. buffer_ro_page-misspecs u.buffer_address p.address s))

-- A touched page with a byte that was read before it was written.
abbrev pub fails : List ℕ → Bool
fails page = is_touched page && not (check_nrbw (clear_read (clear_touched page)).1)

-- How many of `n` pages from `begin` on fail.
unfoldable pub failing : ℕ → ℕ → (ℕ → List ℕ) → ℕ
failing zero begin shadow = 0
failing (suc n) begin shadow =
    (if fails (shadow begin) then 1 else 0) + failing n (begin + 4096) shadow

module _ (u : Platform) (h : Layout) where
  -- A round counts its own page, and changes no other.
  pub check_page-misspecs :
      (begin : ℕ) (a : Area)
      → (misspecs (check_page u h begin a).sender.calls
          ≡ (if fails (a.shadow begin) then 1 else 0) + misspecs a.sender.calls)
        × ((x : ℕ) → x ≢ begin → (check_page u h begin a).shadow x ≡ a.shadow x)
  unfolding check_page
  check_page-misspecs begin a =
      let page = a.shadow begin in
      let r = clear_read (clear_touched page) in
      elim (Bool-cases (is_touched page)) [
        | inr untouched ↦ rw untouched (omega arith, λ x ne. refl)
        | inl touched ↦ elim (Bool-cases (check_nrbw r.1)) [
          | inl passes ↦
              rw (touched, passes)
                (
                  forward_pair-misspecs u r.0 _ check_free a.sender ∙ omega arith,
                  λ x ne. ground (arith, ne),
                )
          | inr failed ↦
              rw (touched, failed)
                (
                  misspecs-append a.sender.calls (misspec ∷ []) ∙ omega arith,
                  λ x ne. ground (arith, ne),
                )
        ]
      ]
