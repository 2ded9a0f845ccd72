-- ===== src/Worker/Region/Pages.antt =====
-- The loops over the pages of heaps end, and check what they would otherwise only send.
use cos516_project.Prelude.{
  zero, suc, ℕ, ◌+◌, ◌∷◌, ◌-◌, List, ◌<◌, ◌≡◌, true, some, ◌/◌, false, refl, if-elim, arith,
  Bool-cases, ltb, inl, not, inr, ◌==◌, ◌∙◌, subst, Option, ap, [], sym,
}
use cos516_project.Worker.Shadow.{clear_read, check_nrbw}
use cos516_project.Worker.Forward.{
  Platform, Page, Sender, check_free, forward_pair, is_touched, clear_touched, Check,
}
use cos516_project.Worker.Region.{
  Layout, Area, page_size, check_page, forward_one, each_page, for_each, check_region_nrbw,
  check_versioned_region_nrbw, forward_region, forward_versioned_region, max_workers, below,
  pair_of,
}

-- The number of pages that start between two addresses.
abbrev pub page_count : ℕ → ℕ → ℕ
page_count begin bound = (bound - begin + 4095) / 4096

unfoldable pub visit : ℕ → (ℕ → Area → Area) → ℕ → Area → Area
visit zero round begin a = a
visit (suc n) round begin a = visit n round (begin + page_size) (round begin a)

visit_count :
    (fuel n : ℕ) (round : ℕ → Area → Area) (begin bound : ℕ) (a : Area)
    → page_count begin bound ≡ n
    → n < fuel
    → each_page fuel round begin bound a ≡ some (visit n round begin a)
unfolding each_page visit
visit_count zero n round begin bound a e h = absurd (omega arith)
visit_count (suc fuel) zero round begin bound a e h =
    let over : ltb begin bound ≡ false = ground (arith, e) in rw over refl
visit_count (suc fuel) (suc n) round begin bound a e h =
    let inside : ltb begin bound ≡ true = ground (arith, e) in
    rw inside
      (visit_count fuel n round (begin + 4096) bound (round begin a) (omega arith) (omega arith))

pub each_page-visit :
    (fuel : ℕ) (round : ℕ → Area → Area) (begin bound : ℕ) (a : Area)
    → page_count begin bound < fuel
    → each_page fuel round begin bound a ≡ some (visit (page_count begin bound) round begin a)
each_page-visit fuel round begin bound a h =
    visit_count fuel (page_count begin bound) round begin bound a refl h

-- A page passes the check, if it has been touched.
abbrev pub PagePasses : List ℕ → Type 0
PagePasses page = is_touched page ≡ true → check_nrbw (clear_read (clear_touched page)).1 ≡ true

unfoldable pub Passes : Area → Type 0
Passes a = (x : ℕ) → PagePasses (a.shadow x)

-- Two loops end alike, and every page still passes.
unfoldable SameEnd : (Area → Option Area) → (Area → Option Area) → Area → Type 0
SameEnd f g a = (a' : Area) × (f a ≡ some a') × (g a ≡ some a') × Passes a'

for_each-same :
    (ids : List ℕ) (f g : ℕ → Area → Option Area) (a : Area)
    → ((i : ℕ) (b : Area) → Passes b → SameEnd (f i) (g i) b)
    → Passes a
    → SameEnd (for_each ids f) (for_each ids g) a
unfolding for_each SameEnd
for_each-same [] f g a step ok = (a, refl, refl, ok)
for_each-same (i ∷ ids) f g a step ok =
    let (b, ef, eg, ok') = step i a ok in
    let (d, ef', eg', ok'') = for_each-same ids f g b step ok' in (d, rw ef ef', rw eg eg', ok'')

module _ (u : Platform) (h : Layout)
    (zeroed : (page : List ℕ) → is_touched (u.set_zero_page page) ≡ false) where
  forward_pair-shadow :
      (nonzero : ℕ) (p : Page) (check : Check) (s : Sender)
      → (forward_pair u nonzero p check s).1.shadow ≡ u.set_zero_page p.shadow
  unfolding forward_pair
  forward_pair-shadow nonzero p check s =
      if-elim (λ (r : Sender × Page). r.1.shadow ≡ u.set_zero_page p.shadow) (ltb 8 nonzero)
        (λ _. refl)
        (λ _.
          if-elim (λ (r : Sender × Page). r.1.shadow ≡ u.set_zero_page p.shadow)
            (not (nonzero == 0)) (λ _. refl) (λ _. refl))

  zero-PagePasses : (page : List ℕ) → PagePasses (u.set_zero_page page)
  zero-PagePasses page touched = let none_touched = zeroed page in cc

  pair_of-Passes :
      (nonzero begin : ℕ) (words : List ℕ) (a : Area)
      → Passes a
      → Passes (pair_of u h check_free nonzero begin words a)
  unfolding Passes
  pair_of-Passes nonzero begin words a ok x =
      let sent : Page = record {
        address = begin;
        shadow_address = h.shadow_of begin;
        mem = a.mem begin;
        shadow = words;
      } in
      if-elim (λ (page : List ℕ). PagePasses page) (x == begin)
        (λ _.
          subst PagePasses (sym (forward_pair-shadow nonzero sent check_free a.sender))
            (zero-PagePasses words))
        (λ _. ok x)

  forward_one-Passes :
      (begin : ℕ) (a : Area) → Passes a → Passes (forward_one u h check_free begin a)
  unfolding forward_one
  forward_one-Passes begin a ok =
      let r = clear_read (clear_touched (a.shadow begin)) in
      if-elim Passes (is_touched (a.shadow begin)) (λ _. pair_of-Passes r.0 begin r.1 a ok)
        (λ _. ok)

  check_page-forward_one :
      (begin : ℕ) (a : Area)
      → Passes a
      → check_page u h begin a ≡ forward_one u h check_free begin a
  unfolding check_page forward_one Passes
  check_page-forward_one begin a ok = elim (Bool-cases (is_touched (a.shadow begin))) [
    | inl touched ↦ rw (touched, ok begin touched) refl
    | inr untouched ↦ rw untouched refl
  ]

  visit-same :
      (n begin : ℕ) (a : Area)
      → Passes a
      → (visit n (check_page u h) begin a ≡ visit n (forward_one u h check_free) begin a)
        × Passes (visit n (forward_one u h check_free) begin a)
  unfolding visit
  visit-same zero begin a ok = (refl, ok)
  visit-same (suc n) begin a ok = rw (check_page-forward_one begin a ok) (
      visit-same n (begin + page_size) (forward_one u h check_free begin a)
        (forward_one-Passes begin a ok))

  -- Both loops over one heap end with the same result.
  range-same :
      (fuel begin bound : ℕ) (a : Area)
      → page_count begin bound < fuel
      → Passes a
      → SameEnd
          (each_page fuel (check_page u h) begin bound)
          (each_page fuel (forward_one u h check_free) begin bound)
          a
  unfolding SameEnd
  range-same fuel begin bound a enough ok =
      let n = page_count begin bound in
      let (same, ok') = visit-same n begin a ok in
      (
        visit n (forward_one u h check_free) begin a,
        each_page-visit fuel (check_page u h) begin bound a enough ∙ ap some same,
        each_page-visit fuel (forward_one u h check_free) begin bound a enough,
        ok',
      )

  -- Where set_zero_page leaves a page untouched, the fuel exceeds the pages of each heap, and
  -- every touched page passes the check, check_region_nrbw ends as forward_region with CHECK_FREE
  -- does, and all pages still pass.
  pub check_region_nrbw-forward_region :
      (fuel : ℕ) (ids : List ℕ) (a : Area)
      → ((i : ℕ) → page_count (h.heap_begin i) (h.heap_bound i) < fuel)
      → Passes a
      → (a' : Area) × (check_region_nrbw fuel u h (some ids) a ≡ some a')
        × (forward_region fuel u h check_free (some ids) a ≡ some a')
        × Passes a'
  unfolding check_region_nrbw forward_region SameEnd
  check_region_nrbw-forward_region fuel ids a enough ok =
      for_each-same ids _ _ a
        (λ i b. range-same fuel (h.heap_begin i) (h.heap_bound i) b (enough i)) ok

  -- Where set_zero_page leaves a page untouched, the fuel exceeds the pages of each heap of each
  -- worker, and every touched page passes the check, check_versioned_region_nrbw ends as
  -- forward_versioned_region with CHECK_FREE does, and all pages still pass.
  pub check_versioned_region_nrbw-forward_versioned_region :
      (fuel : ℕ) (ids : List ℕ) (a : Area)
      → ((j i : ℕ) → page_count (h.versioned_heap_begin j i) (h.versioned_heap_bound j i) < fuel)
      → Passes a
      → (a' : Area) × (check_versioned_region_nrbw fuel u h (some ids) a ≡ some a')
        × (forward_versioned_region fuel u h check_free (some ids) a ≡ some a')
        × Passes a'
  unfolding check_versioned_region_nrbw forward_versioned_region SameEnd
  check_versioned_region_nrbw-forward_versioned_region fuel ids a enough ok =
      for_each-same ids _ _ a
        (λ i b. for_each-same (below max_workers) _ _ b (λ j d.
          range-same fuel (h.versioned_heap_begin j i) (h.versioned_heap_bound j i) d (enough j i)))
        ok
