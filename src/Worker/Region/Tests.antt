-- ===== src/Worker/Region/Tests.antt =====
-- The theorems on the loops over heaps at heaps of one page and of three.
use cos516_project.Prelude.{
  ℕ, ◌+◌, ◌∷◌, some, ◌*◌, ◌<◌, ◌≡◌, [], if◌then◌else◌, ◌%◌, ◌^◌, arith, refl, ◌==◌, true,
}
use cos516_project.Worker.Tests.{platform, fresh_sender}
use cos516_project.Worker.Region.{Layout, Area, check_region_nrbw, check_versioned_region_nrbw}
use cos516_project.Worker.Region.Pages.{page_count}
use cos516_project.Worker.Region.Whole.{
  pages, distinct, region_pages, versioned_pages, failing_of, check_region_nrbw-finds,
  check_versioned_region_nrbw-finds,
}
use cos516_project.Worker.Region.Checks.{misspecs, failing}
use cos516_project.Worker.Shadow.{check_nrbw, clear_read, clear_loop, mark_read, read_mask}

-- Heaps of three pages, and versioned ones of less than one.
abbrev layout : Layout
layout = record {
  heap_begin = λ i. 65536 * i;
  heap_bound = λ i. 65536 * i + 12288;
  versioned_heap_begin = λ j i. 65536 * (8 * j + i);
  versioned_heap_bound = λ j i. 65536 * (8 * j + i) + 100;
  shadow_of = λ address. address + 2 ^ 40;
}

-- The first page of each heap is written, the others are blank; 1 marks a byte that was read first.
abbrev area : ℕ → Area
area word = record {
  mem = λ x. 5 ∷ 6 ∷ [];
  shadow = λ x. if x % 65536 == 0 then 0x82 ∷ word ∷ [] else 0 ∷ 0 ∷ [];
  sender = fresh_sender;
}

enough : (i : ℕ) → page_count (layout.heap_begin i) (layout.heap_bound i) < 4
enough i = omega arith

versioned_enough :
    (j i : ℕ) → page_count (layout.versioned_heap_begin j i) (layout.versioned_heap_bound j i) < 4
versioned_enough j i = omega arith

heaps-distinct : distinct (region_pages layout (1 ∷ 2 ∷ [])) ≡ true
unfolding pages
heaps-distinct = refl

check_region_nrbw-finds_example :
    (a : Area) × (check_region_nrbw 4 platform layout (some (1 ∷ 2 ∷ [])) (area 1) ≡ some a)
    × (misspecs a.sender.calls ≡ 0 + failing_of (region_pages layout (1 ∷ 2 ∷ [])) (area 1).shadow)
check_region_nrbw-finds_example =
    check_region_nrbw-finds platform layout 4 (1 ∷ 2 ∷ []) (area 1) enough heaps-distinct

-- The first page of each heap fails.
two_fail : failing_of (region_pages layout (1 ∷ 2 ∷ [])) (area 1).shadow ≡ 2
unfolding pages failing_of check_nrbw clear_read clear_loop mark_read read_mask
two_fail = refl

versioned_heaps-distinct : distinct (versioned_pages layout (1 ∷ 2 ∷ [])) ≡ true
unfolding pages
versioned_heaps-distinct = refl

check_versioned_region_nrbw-finds_example :
    (a : Area) × (check_versioned_region_nrbw 4 platform layout (some (1 ∷ 2 ∷ [])) (area 1)
      ≡ some a)
    × (misspecs a.sender.calls
        ≡ 0 + failing_of (versioned_pages layout (1 ∷ 2 ∷ [])) (area 1).shadow)
check_versioned_region_nrbw-finds_example =
    check_versioned_region_nrbw-finds platform layout 4 (1 ∷ 2 ∷ []) (area 1) versioned_enough
      versioned_heaps-distinct

-- One page fails.
one_fails : failing 3 65536 (area 1).shadow ≡ 1
unfolding failing check_nrbw clear_read clear_loop mark_read read_mask
one_fails = refl
