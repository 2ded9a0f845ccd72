-- ===== src/Worker/Region/Whole.antt =====
-- What the checks of a whole region find, over all pages of all its heaps.
use cos516_project.Prelude.{
  zero, suc, ℕ, ◌+◌, ◌∷◌, ◌++◌, ◌≡◌, List, ◌<◌, [], arith, Bool, ◌&&◌, not, ◌==◌, true, refl, ap,
  ap₂, ◌∙◌, some, Option, if◌then◌else◌, ◌≢◌,
}
use cos516_project.Worker.Forward.{Platform}
use cos516_project.Worker.Region.{
  Layout, Area, check_page, check_region_nrbw, check_versioned_region_nrbw, for_each, each_page,
  below, max_workers,
}
use cos516_project.Worker.Region.Pages.{page_count, visit, each_page-visit}
use cos516_project.Worker.Region.Checks.{misspecs, fails, check_page-misspecs}

-- The addresses of `n` pages from `begin` on.
unfoldable pub pages : ℕ → ℕ → List ℕ
pages zero begin = []
pages (suc n) begin = begin ∷ pages n (begin + 4096)

abbrev pub all_of : List ℕ → (ℕ → List ℕ) → List ℕ
all_of [] f = []
all_of (i ∷ is) f = f i ++ all_of is f

-- The pages of the heaps of a region, and of those of all workers.
abbrev pub region_pages : Layout → List ℕ → List ℕ
region_pages h ids =
    all_of ids λ i. pages (page_count (h.heap_begin i) (h.heap_bound i)) (h.heap_begin i)

abbrev pub versioned_pages : Layout → List ℕ → List ℕ
versioned_pages h ids = all_of ids λ i. all_of (below max_workers) λ j.
    pages (page_count (h.versioned_heap_begin j i) (h.versioned_heap_bound j i))
      (h.versioned_heap_begin j i)

-- No page is listed twice.
abbrev pub is_new : ℕ → List ℕ → Bool
is_new x [] = true
is_new x (y ∷ ys) = not (y == x) && is_new x ys

abbrev pub distinct : List ℕ → Bool
distinct [] = true
distinct (x ∷ xs) = is_new x xs && distinct xs

-- How many of the pages fail.
unfoldable pub failing_of : List ℕ → (ℕ → List ℕ) → ℕ
failing_of [] shadow = 0
failing_of (x ∷ xs) shadow = (if fails (shadow x) then 1 else 0) + failing_of xs shadow

failing_of-same :
    (x : ℕ) (xs : List ℕ) (shadow shadow' : ℕ → List ℕ)
    → is_new x xs ≡ true
    → ((y : ℕ) → y ≢ x → shadow' y ≡ shadow y)
    → failing_of xs shadow' ≡ failing_of xs shadow
unfolding failing_of
failing_of-same x [] shadow shadow' new e = refl
failing_of-same x (y ∷ ys) shadow shadow' new e =
    let other : y ≢ x = ground (arith, new) in
    let rest : is_new x ys ≡ true = ground (arith, new) in
    ap₂ (λ (page : List ℕ) (n : ℕ). (if fails page then 1 else 0) + n) (e y other)
      (failing_of-same x ys shadow shadow' rest e)

-- Rounds at a list of pages.
visit_all : (ℕ → Area → Area) → List ℕ → Area → Area
visit_all round [] a = a
visit_all round (x ∷ xs) a = visit_all round xs (round x a)

visit_all-append :
    (round : ℕ → Area → Area) (xs ys : List ℕ) (a : Area)
    → visit_all round (xs ++ ys) a ≡ visit_all round ys (visit_all round xs a)
unfolding visit_all
visit_all-append round [] ys a = refl
visit_all-append round (x ∷ xs) ys a = visit_all-append round xs ys (round x a)

visit-pages :
    (round : ℕ → Area → Area) (n begin : ℕ) (a : Area)
    → visit n round begin a ≡ visit_all round (pages n begin) a
unfolding visit visit_all pages
visit-pages round zero begin a = refl
visit-pages round (suc n) begin a = visit-pages round n (begin + 4096) (round begin a)

-- A loop whose rounds visit pages visits those of all its rounds.
for_each-visits :
    (round : ℕ → Area → Area) (is : List ℕ) (body : ℕ → Area → Option Area) (f : ℕ → List ℕ)
    (a : Area)
    → ((i : ℕ) (b : Area) → body i b ≡ some (visit_all round (f i) b))
    → for_each is body a ≡ some (visit_all round (all_of is f) a)
unfolding for_each visit_all
for_each-visits round [] body f a h = refl
for_each-visits round (i ∷ is) body f a h =
    rw (h i a, visit_all-append round (f i) (all_of is f) a)
      (for_each-visits round is body f (visit_all round (f i) a) h)

module _ (u : Platform) (h : Layout) where
  visit_all-misspecs :
      (xs : List ℕ) (a : Area)
      → distinct xs ≡ true
      → misspecs (visit_all (check_page u h) xs a).sender.calls
        ≡ misspecs a.sender.calls + failing_of xs a.shadow
  unfolding visit_all failing_of
  visit_all-misspecs [] a all_distinct = omega arith
  visit_all-misspecs (x ∷ xs) a all_distinct =
      let new : is_new x xs ≡ true = ground (arith, all_distinct) in
      let rest : distinct xs ≡ true = ground (arith, all_distinct) in
      let (counted, others) = check_page-misspecs u h x a in
      let later = failing_of-same x xs a.shadow (check_page u h x a).shadow new others in
      visit_all-misspecs xs (check_page u h x a) rest ∙ omega (arith, counted, later)

  heap-visits :
      (fuel begin bound : ℕ) (a : Area)
      → page_count begin bound < fuel
      → each_page fuel (check_page u h) begin bound a
        ≡ some (visit_all (check_page u h) (pages (page_count begin bound) begin) a)
  heap-visits fuel begin bound a enough =
      each_page-visit fuel (check_page u h) begin bound a enough
      ∙ ap some (visit-pages (check_page u h) (page_count begin bound) begin a)

  -- On a region of any heaps, no page of which is listed twice, with fuel for the pages of each
  -- heap, check_region_nrbw ends after one call of misspec for each touched page of these heaps
  -- in which a byte was read before it was written.
  pub check_region_nrbw-finds :
      (fuel : ℕ) (ids : List ℕ) (a : Area)
      → ((i : ℕ) → page_count (h.heap_begin i) (h.heap_bound i) < fuel)
      → distinct (region_pages h ids) ≡ true
      → (a' : Area) × (check_region_nrbw fuel u h (some ids) a ≡ some a')
        × (misspecs a'.sender.calls
            ≡ misspecs a.sender.calls + failing_of (region_pages h ids) a.shadow)
  unfolding check_region_nrbw
  check_region_nrbw-finds fuel ids a enough apart = (
    visit_all (check_page u h) (region_pages h ids) a,
    for_each-visits (check_page u h) ids _ _ a
        (λ i b. heap-visits fuel (h.heap_begin i) (h.heap_bound i) b (enough i)),
    visit_all-misspecs (region_pages h ids) a apart,
  )

  -- On a region of any heaps, with those of all workers and no page listed twice, and with fuel
  -- for the pages of each heap, check_versioned_region_nrbw ends after one call of misspec for
  -- each touched page of these heaps in which a byte was read before it was written.
  pub check_versioned_region_nrbw-finds :
      (fuel : ℕ) (ids : List ℕ) (a : Area)
      → ((j i : ℕ) → page_count (h.versioned_heap_begin j i) (h.versioned_heap_bound j i) < fuel)
      → distinct (versioned_pages h ids) ≡ true
      → (a' : Area) × (check_versioned_region_nrbw fuel u h (some ids) a ≡ some a')
        × (misspecs a'.sender.calls
            ≡ misspecs a.sender.calls + failing_of (versioned_pages h ids) a.shadow)
  unfolding check_versioned_region_nrbw
  check_versioned_region_nrbw-finds fuel ids a enough apart = (
    visit_all (check_page u h) (versioned_pages h ids) a,
    for_each-visits (check_page u h) ids _ _ a (λ i b.
        for_each-visits (check_page u h) (below max_workers) _ _ b (λ j d.
          heap-visits fuel (h.versioned_heap_begin j i) (h.versioned_heap_bound j i) d
            (enough j i))),
    visit_all-misspecs (versioned_pages h ids) a apart,
  )
