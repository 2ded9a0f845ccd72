-- ===== src/Cost/Invariant.antt =====
-- simplified_translation/invariant.c: the buffers of loop-invariant and linearly predicted values.
pub mod Range
pub mod Count
use cos516_project.Prelude.{ℕ, ◌+◌, ◌%◌, List, set, ltb, ◌==◌, ◌||◌, if◌then◌else◌}
use cos516_project.Cost.Constants.{max_loads, max_contexts}
use cos516_project.Cost.Machine.{
  Buffers, Machine, ok, M, pure, ◌>>=◌, ◌>>◌, tick, in_bounds, cell, set_cell, for_fold, for_range,
}

-- One of the two arrays, and the buffers with it replaced.
pub data Which : Type 0 where
  loop_invariants linear_predictions : Which

abbrev pub rows : Which → Buffers → List (List ℕ)
rows loop_invariants b = b.invariants
rows linear_predictions b = b.predictors

abbrev pub with_rows : Which → List (List ℕ) → Buffers → Buffers
with_rows loop_invariants l b = record b { invariants = l }
with_rows linear_predictions l b = record b { predictors = l }

pub read_buffer : Which → ℕ → ℕ → M ℕ
read_buffer w i j s = in_bounds (cell (rows w s.buffers) i j) s

pub write_buffer : Which → ℕ → ℕ → ℕ → M (Unit {0})
unfolding read_buffer
write_buffer w i j v = do
  old ← read_buffer w i j
  λ s. ok tt (record s { buffers = with_rows w (set_cell (rows w s.buffers) i j v) s.buffers })

pub init_buffers : ℕ → ℕ → M (Unit {0})
init_buffers loads contexts = for_range loads 0 λ i.
    for_range contexts 0
      λ j. do tick 400; write_buffer loop_invariants i j 0; write_buffer linear_predictions i j 0

pub uninit_buffers : ℕ → ℕ → M (Unit {0})
uninit_buffers loads contexts = for_range loads 0 (λ i. for_range contexts 0 (λ j. tick 1000))

-- `update_loop_invariants` adds the row's number, `update_linear_predicted_values` the column's.
pub update_values : Which → (ℕ → ℕ → ℕ) → ℕ → ℕ → M (Unit {0})
update_values w step loads contexts = for_range loads 0 λ i.
    for_range contexts 0
      λ j. do tick 4; old ← read_buffer w i j; write_buffer w i j ((old + step i j) % 8)

pub update_loop_invariants : ℕ → ℕ → M (Unit {0})
unfolding update_values
update_loop_invariants = update_values loop_invariants (λ i j. i)

pub update_linear_predicted_values : ℕ → ℕ → M (Unit {0})
unfolding update_values
update_linear_predicted_values = update_values linear_predictions (λ i j. j)

-- The body of the inner loop: the entry is walked through bit by bit.
pub count_entry : Which → ℕ → ℕ → ℕ → M ℕ
count_entry w i j change = do
  tick 4
  size ← read_buffer w i j
  for_range size 0 (λ _. tick 13)
  pure (if size == 0 then change else change + 1)

pub count_changes : Which → ℕ → ℕ → M ℕ
count_changes w loads contexts =
    for_fold loads 0 (λ i. for_fold contexts 0 (λ j. count_entry w i j)) 0

-- `if (change > MAX || change <= 0) change = MAX;`
pub clip : ℕ → ℕ → ℕ
clip limit change = if ltb limit change || change == 0 then limit else change

pub update_shadow_loop_invariants : ℕ → ℕ → M ℕ
unfolding count_changes clip
update_shadow_loop_invariants loads contexts = do
  change ← count_changes loop_invariants loads contexts
  pure (clip max_loads change)

pub update_shadow_linear_predicted_values : ℕ → ℕ → M ℕ
unfolding count_changes clip
update_shadow_linear_predicted_values loads contexts = do
  change ← count_changes linear_predictions loads contexts
  pure (clip max_contexts change)
