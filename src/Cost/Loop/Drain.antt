-- ===== src/Cost/Loop/Drain.antt =====
-- The loop of `__specpriv_begin_iter` over one queue of uncommitted values: its rounds, its end and
-- its cost.
use cos516_project.Prelude.{
  ℕ, ◌≤◌, min, ◌*◌, ◌+◌, ◌/◌, ◌≡◌, ◌%◌, ◌-◌, pos, some, get_elem?, arith, ◌<◌, ◌∙◌, suc, ap,
  ℕ_discrete, refl, ◌≢◌, zero, dec_lt,
}
use cos516_project.Cost.Machine.{
  QueueRef, Machine, Heap, tally, ucvf_at, queue_at, commit_at, ok, reverse_at,
}
use cos516_project.Cost.Valid.{
  IsTally, AreValid, IsInRange, set_tally-set_tally, set_tally-AreValid, tally-set_tally_self,
}
use cos516_project.Cost.Loop.{drain}
use cos516_project.Cost.Loop.Rounds.{
  drained, chunk_cost, same_state, step-done, step-alloc, step-normal, step-super_ro,
  step-super_page,
}

-- How many chunks ALLOC packets bring: one for each read-only page that is taken, and one more for
-- an odd tally.
abbrev alloc_count : ℕ → ℕ → ℕ
alloc_count n pages = min pages (n / 4) + n % 2

-- The whole cost, for `n` packets, `pages` read-only pages left, and `c` for a chunk.
unfoldable pub drain_cost : ℕ → ℕ → ℕ → ℕ
drain_cost c n pages =
    6 * (n + 1)
    + 2 * ((n + 2) / 4)
    + min pages (n / 4)
    + 14336 * (n / 4 - pages)
    + alloc_count n pages * (256 * c)

module _ (c n p q : ℕ) where
  cost-empty : n ≡ 0 → drain_cost c n p ≡ 6
  unfolding drain_cost
  cost-empty z =
      let none_left : alloc_count n p ≡ 0 = omega arith in
      omega (arith, ap (λ (t : ℕ). t * (256 * c)) none_left)

  cost-odd : n % 2 ≡ 1 → q ≡ p → 6 + 256 * c + drain_cost c (n - 1) q ≡ drain_cost c n p
  unfolding drain_cost
  cost-odd o e =
      let one : alloc_count n p ≡ suc (alloc_count (n - 1) q) = omega arith in
      omega (arith, ap (λ (t : ℕ). t * (256 * c)) one)

  cost-normal : n % 4 ≡ 2 → q ≡ p → 14 + drain_cost c (n - 2) q ≡ drain_cost c n p
  unfolding drain_cost
  cost-normal o e =
      let same : alloc_count n p ≡ alloc_count (n - 2) q = omega arith in
      omega (arith, ap (λ (t : ℕ). t * (256 * c)) same)

  cost-super_ro : n ≢ 0 → n % 4 ≡ 0 → q + 1 ≡ p → 7 + drain_cost c (n - 1) q ≡ drain_cost c n p
  unfolding drain_cost
  cost-super_ro nz o e =
      let same : alloc_count n p ≡ alloc_count (n - 1) q = omega arith in
      omega (arith, ap (λ (t : ℕ). t * (256 * c)) same)

  cost-super_page :
      n ≢ 0 → n % 4 ≡ 0 → p ≡ 0 → q ≡ 0 → 14348 + drain_cost c (n - 2) q ≡ drain_cost c n p
  unfolding drain_cost
  cost-super_page nz o e f =
      let same : alloc_count n p ≡ alloc_count (n - 2) q = omega arith in
      omega (arith, ap (λ (t : ℕ). t * (256 * c)) same)

IsTally-le : (ref : QueueRef) (n m : ℕ) → m ≤ n → IsTally ref (pos n) → IsTally ref (pos m)
IsTally-le (ucvf_at i j) n m h p = omega arith
IsTally-le (queue_at i j) n m h p = tt
IsTally-le (commit_at i) n m h p = omega arith
IsTally-le (reverse_at i) n m h p = omega arith

-- The kinds of tallies that the code tells apart.
data Kind (n : ℕ) : Type 0 where
  empty : n ≡ 0 → Kind n
  odd : n % 2 ≡ 1 → Kind n
  twice_odd : n % 4 ≡ 2 → Kind n
  by_four : n ≢ 0 → n % 4 ≡ 0 → Kind n

kind_of : (n : ℕ) → Kind n
kind_of n = elim (ℕ_discrete n 0) [
  | yes z ↦ empty z
  | no nz ↦ elim (ℕ_discrete (n % 2) 1) [
    | yes o ↦ odd o
    | no e ↦ elim (ℕ_discrete (n % 4) 2) [ yes t ↦ twice_odd t | no f ↦ by_four nz (omega arith) ]
  ]
]

module _ (wid : ℕ) (ref : QueueRef) (h : Heap) where
  -- What the loop does on a queue of `n` packets, started with this fuel in this state.
  abbrev pub Drains : ℕ → ℕ → Machine → Type 0
  Drains fuel n s =
      drain fuel wid ref s
      ≡ ok tt (drained ref 0 (drain_cost (chunk_cost h) n s.ro_pages) (min s.ro_pages (n / 4)) s)

  -- A state in which the loop stands at a queue of `n` packets.
  abbrev StandsAt : ℕ → Machine → Type 0
  StandsAt n s =
      (tally ref s.tallies ≡ some (pos n))
      × IsTally ref (pos n)
      × AreValid s.tallies
      × (get_elem? s.memory.heaps wid ≡ some h)

  -- One round, then the rest.
  module _ (r : IsInRange ref) (fuel n : ℕ) (s : Machine) (at : StandsAt n s)
      (ih : (m : ℕ) (t : Machine) → StandsAt m t → m < fuel → Drains fuel m t) where
    continue :
        (left c pages : ℕ)
        → left ≤ n
        → left < fuel
        → drain (suc fuel) wid ref s ≡ drain fuel wid ref (drained ref left c pages s)
        → c + drain_cost (chunk_cost h) left (s.ro_pages - pages)
          ≡ drain_cost (chunk_cost h) n s.ro_pages
        → pages + min (s.ro_pages - pages) (left / 4) ≡ min s.ro_pages (n / 4)
        → Drains (suc fuel) n s
    continue left c pages le lt step e f =
        let t = drained ref left c pages s in
        let b = IsTally-le ref n left le at.1 in
        let v = set_tally-AreValid ref (pos left) at.2 r b in
        step
        ∙ ih left t (tally-set_tally_self ref (pos left) at.2 r, b, v, at.3) lt
        ∙ rw (set_tally-set_tally ref (pos left) (pos 0) at.2 r)
            (ap (ok tt) (same_state ref s (omega (arith, e)) (omega (arith, f)) refl))

    round : n < suc fuel → Drains (suc fuel) n s
    round lt = elim (kind_of n) [
      | empty z ↦
          step-done wid ref n fuel s at.0 at.2 r z
          ∙ ap (ok tt) (
              same_state ref s (omega (arith, cost-empty (chunk_cost h) n s.ro_pages 0 z))
                (omega arith) refl)
      | odd o ↦
          continue (n - 1) (6 + 256 * chunk_cost h) 0 (omega arith) (omega arith)
            (step-alloc wid ref n fuel s at.0 at.2 r h at.3 o)
            (cost-odd (chunk_cost h) n s.ro_pages (s.ro_pages - 0) o (omega arith)) (omega arith)
      | twice_odd t ↦
          continue (n - 2) 14 0 (omega arith) (omega arith)
            (step-normal wid ref n fuel s at.0 at.2 r t)
            (cost-normal (chunk_cost h) n s.ro_pages (s.ro_pages - 0) t (omega arith)) (omega arith)
      | by_four nz f ↦ elim (dec_lt 0 s.ro_pages) [
        | yes some_left ↦
            continue (n - 1) 7 1 (omega arith) (omega arith)
              (step-super_ro wid ref n fuel s at.0 at.2 r nz f some_left)
              (cost-super_ro (chunk_cost h) n s.ro_pages (s.ro_pages - 1) nz f (omega arith))
              (omega arith)
        | no none_left ↦
            continue (n - 2) 14348 0 (omega arith) (omega arith)
              (step-super_page wid ref n fuel s at.0 at.2 r nz f (omega arith))
              (cost-super_page (chunk_cost h) n s.ro_pages (s.ro_pages - 0) nz f (omega arith)
                (omega arith))
              (omega arith)
      ]
    ]

  -- Where the tallies are valid and the queue holds n packets, the receive loop ends within n + 1
  -- rounds, empties the queue, uses one read-only page for each fourth packet while there are
  -- any, costs the closed formula, and changes nothing else.
  pub drain_lem :
      (fuel n : ℕ) (s : Machine) → IsInRange ref → StandsAt n s → n < fuel → Drains fuel n s
  drain_lem zero n s r at lt = absurd (omega arith)
  drain_lem (suc fuel) n s r at lt =
      round r fuel n s at (λ m t stands below. drain_lem fuel m t r stands below) lt
