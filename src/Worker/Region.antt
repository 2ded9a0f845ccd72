-- ===== src/Worker/Region.antt =====
-- loopevent_orig.cpp: the loops over whole heaps, which check for reads before writes or only send.
use cos516_project.Prelude.{
  zero, suc, ℕ, ◌+◌, ◌∷◌, ◌++◌, ◌-◌, List, if◌then◌else◌, Option, none, some, ◌==◌, [], ltb,
}
use cos516_project.Worker.Shadow.{clear_read, check_nrbw}
use cos516_project.Worker.Forward.{
  Platform, Page, Sender, Check, check_free, forward_pair, is_touched, clear_touched, send, misspec,
}
pub mod Pages
pub mod Checks
pub mod Whole
mod Tests

-- Where the heaps stand, and the shadow of an address: code that stands elsewhere.
pub record Layout : Type 0 where
  pub heap_begin : ℕ → ℕ
  pub heap_bound : ℕ → ℕ
  pub versioned_heap_begin : ℕ → ℕ → ℕ
  pub versioned_heap_bound : ℕ → ℕ → ℕ
  pub shadow_of : ℕ → ℕ

-- The words of the page at an address, those of its shadow, and what has been sent.
pub record Area : Type 0 where
  pub mem : ℕ → List ℕ
  pub shadow : ℕ → List ℕ
  pub sender : Sender

abbrev pub page_size : ℕ
page_size = 4096

abbrev pub max_workers : ℕ
max_workers = 32 - 1

abbrev set_shadow : Area → ℕ → List ℕ → Area
set_shadow a begin words = record a { shadow = λ x. if x == begin then words else a.shadow x }

-- The call of forward_pair on a page whose shadow has been read.
abbrev pub pair_of : Platform → Layout → Check → ℕ → ℕ → List ℕ → Area → Area
pair_of u h check nonzero begin words a =
    let page : Page = record {
      address = begin;
      shadow_address = h.shadow_of begin;
      mem = a.mem begin;
      shadow = words;
    } in
    let r = forward_pair u nonzero page check a.sender in
    record (set_shadow a begin r.1.shadow) { sender = r.0 }

-- A round of check_region_nrbw. What misspec does stands elsewhere: the call is recorded.
unfoldable pub check_page : Platform → Layout → ℕ → Area → Area
check_page u h begin a =
    if is_touched (a.shadow begin)
    then (let r = clear_read (clear_touched (a.shadow begin)) in
        if check_nrbw r.1
        then pair_of u h check_free r.0 begin r.1 a
        else record (set_shadow a begin r.1) { sender = send misspec a.sender })
    else a

-- A round of forward_region.
unfoldable pub forward_one : Platform → Layout → Check → ℕ → Area → Area
forward_one u h check begin a =
    if is_touched (a.shadow begin)
    then (let r = clear_read (clear_touched (a.shadow begin)) in pair_of u h check r.0 begin r.1 a)
    else a

-- while (begin < bound) { ...; begin += PAGE_SIZE; }; `none` means that the fuel ran out.
unfoldable pub each_page : ℕ → (ℕ → Area → Area) → ℕ → ℕ → Area → Option Area
each_page zero round begin bound a = none
each_page (suc fuel) round begin bound a =
    let rest = each_page fuel round (begin + page_size) bound (round begin a) in
    if ltb begin bound then rest else some a

abbrev and_then : Option Area → (Area → Option Area) → Option Area
and_then none f = none
and_then (some a) f = f a

-- A loop over a set of numbers, or over 0, 1, ... for `n` rounds.
unfoldable pub for_each : List ℕ → (ℕ → Area → Option Area) → Area → Option Area
for_each [] body a = some a
for_each (i ∷ is) body a = and_then (body i a) (for_each is body)

abbrev pub counting : ℕ → ℕ → List ℕ
counting zero i = []
counting (suc n) i = i ∷ counting n (suc i)

abbrev pub below : ℕ → List ℕ
below n = counting n 0

-- `if (region)`: the pointer may be NULL.
abbrev if_region : Option (List ℕ) → (ℕ → Area → Option Area) → Area → Option Area
if_region none body a = some a
if_region (some ids) body a = for_each ids body a

unfoldable pub check_region_nrbw : ℕ → Platform → Layout → Option (List ℕ) → Area → Option Area
check_region_nrbw fuel u h region =
    if_region region λ i. each_page fuel (check_page u h) (h.heap_begin i) (h.heap_bound i)

unfoldable pub check_versioned_region_nrbw :
    ℕ → Platform → Layout → Option (List ℕ) → Area → Option Area
check_versioned_region_nrbw fuel u h region = if_region region λ i.
    for_each (below max_workers)
      λ j. each_page fuel (check_page u h) (h.versioned_heap_begin j i) (h.versioned_heap_bound j i)

unfoldable pub forward_region : ℕ → Platform → Layout → Check → Option (List ℕ) → Area → Option Area
forward_region fuel u h check region =
    if_region region λ i. each_page fuel (forward_one u h check) (h.heap_begin i) (h.heap_bound i)

unfoldable pub forward_versioned_region :
    ℕ → Platform → Layout → Check → Option (List ℕ) → Area → Option Area
forward_versioned_region fuel u h check region = if_region region λ i.
    for_each (below max_workers) λ j.
      each_page fuel (forward_one u h check) (h.versioned_heap_begin j i)
        (h.versioned_heap_bound j i)
