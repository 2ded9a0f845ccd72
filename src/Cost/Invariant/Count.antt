-- ===== src/Cost/Invariant/Count.antt =====
-- The counts that `update_shadow_*` make of a buffer, against a plain sum over its entries.
use cos516_project.Prelude.{
  List, ℕ, get_or, if◌then◌else◌, ◌+◌, [], ◌==◌, ◌*◌, ◌<◌, ◌≤◌, ◌≡◌, arith, get_elem?-eq-get_or,
  ◌∙◌, ap₂, ap,
}
use cos516_project.Cost.Invariant.{
  read_buffer, count_changes, Which, rows, count_entry, clip, update_shadow_loop_invariants,
  update_shadow_linear_predicted_values, linear_predictions, loop_invariants,
}
use cos516_project.Cost.Machine.Rules.{sum_range, for_fold-sum, for_range-tick, sum_range-le}
use cos516_project.Cost.Machine.{Machine, ok}
use cos516_project.Cost.Valid.{AreBuffers, grid-IsRow}
use cos516_project.Cost.Invariant.Range.{rows-IsGrid}

-- The entry at row `i` and column `j`, and whether it counts.
abbrev pub entry : List (List ℕ) → ℕ → ℕ → ℕ
entry l i j = get_or (get_or l i []) j 0

abbrev is_set : ℕ → ℕ
is_set x = if x == 0 then 0 else 1

-- The number of nonzero entries, and the cost of walking through all of them.
abbrev pub set_entries : List (List ℕ) → ℕ → ℕ → ℕ
set_entries l loads contexts =
    sum_range (λ i. sum_range (λ j. is_set (entry l i j)) contexts 0) loads 0

abbrev pub walk_cost : List (List ℕ) → ℕ → ℕ → ℕ
walk_cost l loads contexts =
    sum_range (λ i. sum_range (λ j. 4 + entry l i j * 13) contexts 0) loads 0

read_entry :
    (w : Which) (i j c : ℕ) (s : Machine)
    → i < 12
    → j < 12
    → AreBuffers s.buffers
    → read_buffer w i j (record s { cost = c })
      ≡ ok (entry (rows w s.buffers) i j) (record s { cost = c })
unfolding read_buffer
read_entry w i j c s hi hj v =
    let g = rows-IsGrid w v in
    let row = grid-IsRow (λ x. x < 8) g i hi in
    rw (get_elem?-eq-get_or (get_or (rows w s.buffers) i []) j 0 (rw row.0 hj))

count_entry_lem :
    (w : Which) (i j b d : ℕ) (s : Machine)
    → i < 12
    → j < 12
    → AreBuffers s.buffers
    → count_entry w i j b (record s { cost = d })
      ≡ ok
          (b + is_set (entry (rows w s.buffers) i j))
          (record s { cost = d + (4 + entry (rows w s.buffers) i j * 13) })
unfolding count_entry
count_entry_lem w i j b d s hi hj v =
    let x = entry (rows w s.buffers) i j in
    rw (read_entry w i j (d + 4) s hi hj v, for_range-tick 13 x 0 (record s { cost = d + 4 }))
      (ap₂ (λ (m c : ℕ). ok m (record s { cost = c })) (ground arith) (omega arith))

-- For bounds of at most 12 and valid buffers, counting a buffer returns the number of nonzero
-- entries, costs 4 for each entry and 13 for each of its bits, and changes nothing.
count_changes_lem :
    (w : Which) (loads contexts : ℕ) (s : Machine)
    → loads ≤ 12
    → contexts ≤ 12
    → AreBuffers s.buffers
    → count_changes w loads contexts s
      ≡ ok
          (set_entries (rows w s.buffers) loads contexts)
          (record s { cost = s.cost + walk_cost (rows w s.buffers) loads contexts })
unfolding count_changes
count_changes_lem w loads contexts s hl hc v =
    let l = rows w s.buffers in
    for_fold-sum _ (λ i. sum_range (λ j. is_set (entry l i j)) contexts 0)
      (λ i. sum_range (λ j. 4 + entry l i j * 13) contexts 0) loads 0 loads s (omega arith)
      (λ i a c li.
        for_fold-sum _ (λ j. is_set (entry l i j)) (λ j. 4 + entry l i j * 13) contexts 0 contexts
          (record s { cost = c }) (omega arith)
          (λ j b d lj. count_entry_lem w i j b d s (omega arith) (omega arith) v) a)
      0
    ∙ ap (λ (m : ℕ). ok m (record s { cost = s.cost + walk_cost l loads contexts })) (omega arith)

-- There are at most as many as entries in use.
set_entries-le :
    (l : List (List ℕ)) (loads contexts : ℕ) → set_entries l loads contexts ≤ loads * (contexts * 1)
set_entries-le l loads contexts =
    sum_range-le _ (contexts * 1) loads 0 loads (omega arith)
      λ i _. sum_range-le _ 1 contexts 0 contexts (omega arith) λ j _. ground arith

-- What `update_shadow_*` return: the count if it is from 1 to the limit, and else the limit.
pub clip_bounds :
    (limit change : ℕ) → 1 ≤ limit → (1 ≤ clip limit change) × (clip limit change ≤ limit)
unfolding clip
clip_bounds limit change h = ground arith

-- The number that the code stores: the count of nonzero entries, brought into 1 to 12.
abbrev pub next_count : List (List ℕ) → ℕ → ℕ → ℕ
next_count l loads contexts = clip 12 (set_entries l loads contexts)

module _ (loads contexts : ℕ) (s : Machine) (hl : loads ≤ 12) (hc : contexts ≤ 12)
    (v : AreBuffers s.buffers) where
  pub update_shadow_loop_invariants_lem :
      update_shadow_loop_invariants loads contexts s
      ≡ ok
          (next_count s.buffers.invariants loads contexts)
          (record s { cost = s.cost + walk_cost s.buffers.invariants loads contexts })
  unfolding update_shadow_loop_invariants
  update_shadow_loop_invariants_lem =
      rw (count_changes_lem loop_invariants loads contexts s hl hc v)

  pub update_shadow_linear_predicted_values_lem :
      update_shadow_linear_predicted_values loads contexts s
      ≡ ok
          (next_count s.buffers.predictors loads contexts)
          (record s { cost = s.cost + walk_cost s.buffers.predictors loads contexts })
  unfolding update_shadow_linear_predicted_values
  update_shadow_linear_predicted_values_lem =
      rw (count_changes_lem linear_predictions loads contexts s hl hc v)
