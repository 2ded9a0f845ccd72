-- ===== src/Cost/Invariant/Range.antt =====
-- The ranges of the entries of the buffers under the updates.
use cos516_project.Prelude.{List, ℕ, ◌≤◌, ◌<◌, ◌*◌, arith, ◌+◌, ◌%◌}
use cos516_project.Cost.Machine.{Buffers, Machine, set_cell}
use cos516_project.Cost.Invariant.{
  Which, update_values, init_buffers, with_rows, rows, write_buffer, read_buffer, loop_invariants,
  linear_predictions, update_loop_invariants, update_linear_predicted_values,
}
use cos516_project.Cost.Valid.{AreBuffers, IsGrid, cell_of_grid, IsValid, set_cell-IsGrid}
use cos516_project.Cost.Bounds.{
  Spends, for_range-Spends, Costs, then-Spends, tick-Spends, Costs-trans,
}
use cos516_project.Cost.Machine.Rules.{Returns, returns, bind-Returns, weaken-Returns}

-- The rows of either buffer, in a state that satisfies the invariant.
pub rows-IsGrid : {b : Buffers} (w : Which) → AreBuffers b → IsGrid (λ v. v < 8) 12 12 (rows w b)
rows-IsGrid loop_invariants v = v.invariants
rows-IsGrid linear_predictions v = v.predictors

with_rows-AreBuffers :
    {b : Buffers} (w : Which) {l : List (List ℕ)}
    → AreBuffers b
    → IsGrid (λ v. v < 8) 12 12 l
    → AreBuffers (with_rows w l b)
with_rows-AreBuffers loop_invariants v g = record {
  invariants = g;
  predictors = v.predictors;
  some_loads = v.some_loads;
  max_loads = v.max_loads;
  some_contexts = v.some_contexts;
  max_contexts = v.max_contexts;
}
with_rows-AreBuffers linear_predictions v g = record {
  invariants = v.invariants;
  predictors = g;
  some_loads = v.some_loads;
  max_loads = v.max_loads;
  some_contexts = v.some_contexts;
  max_contexts = v.max_contexts;
}

module _ (w : Which) (i j : ℕ) (hi : i < 12) (hj : j < 12) where
  read_buffer-Returns :
      (s : Machine) → IsValid s → Returns (λ x t. (x < 8) × Costs 0 0 s t) (read_buffer w i j s)
  unfolding read_buffer
  read_buffer-Returns s v =
      let (x, e, b) = cell_of_grid (λ v. v < 8) (rows-IsGrid w v.buffers) i j hi hj in
      rw e (returns x s (b, record { valid = v; least = omega arith; most = omega arith }))

  write_buffer-Spends : (x : ℕ) → x < 8 → Spends 0 0 (write_buffer w i j x)
  unfolding write_buffer
  write_buffer-Spends x b s v =
      let (old, e, _) = cell_of_grid (λ v. v < 8) (rows-IsGrid w v.buffers) i j hi hj in
      let g = set_cell-IsGrid (λ v. v < 8) (rows-IsGrid w v.buffers) i j x hi b in
      rw e (
        returns tt
          (record s { buffers = with_rows w (set_cell (rows w s.buffers) i j x) s.buffers })
          (record {
            valid = record {
              tallies = v.tallies;
              buffers = with_rows-AreBuffers w v.buffers g;
              memory = v.memory;
            };
            least = omega arith;
            most = omega arith;
          }))

-- For bounds of at most 12 in a valid state, updating a buffer keeps every entry below 8,
-- whatever it adds, and costs 4 for each entry.
update_values-Spends :
    (w : Which) (step : ℕ → ℕ → ℕ) (loads contexts : ℕ)
    → loads ≤ 12
    → contexts ≤ 12
    → (s : Machine) → IsValid s
    → Returns
        (λ _ t. Costs (loads * (contexts * 4)) (loads * (contexts * 4)) s t)
        (update_values w step loads contexts s)
unfolding update_values
update_values-Spends w step loads contexts hl hc = for_range-Spends _ loads 0 λ i _ li.
    for_range-Spends _ contexts 0 λ j _ lj s v.
      let hi : i < 12 = omega arith in
      let hj : j < 12 = omega arith in
      bind-Returns _ (tick-Spends 4 s v) λ _ t p.
        bind-Returns _ (read_buffer-Returns w i j hi hj t p.valid) λ old u q.
          weaken-Returns
            (write_buffer-Spends w i j hi hj ((old + step i j) % 8) (omega arith) u q.1.valid)
            (λ _ x r. Costs-trans p (Costs-trans q.1 r))

pub init_buffers-Spends :
    (loads contexts : ℕ)
    → loads ≤ 12
    → contexts ≤ 12
    → Spends (loads * (contexts * 400)) (loads * (contexts * 400)) (init_buffers loads contexts)
unfolding init_buffers
init_buffers-Spends loads contexts hl hc = for_range-Spends _ loads 0 λ i _ li.
    for_range-Spends _ contexts 0 λ j _ lj.
      let hi : i < 12 = omega arith in
      let hj : j < 12 = omega arith in
      then-Spends _ _ (tick-Spends 400) (
        then-Spends _ _ (write_buffer-Spends loop_invariants i j hi hj 0 (omega arith))
          (write_buffer-Spends linear_predictions i j hi hj 0 (omega arith)))

module _ (loads contexts : ℕ) (hl : loads ≤ 12) (hc : contexts ≤ 12) where
  pub update_loop_invariants-Spends :
      Spends
        (loads * (contexts * 4))
        (loads * (contexts * 4))
        (update_loop_invariants loads contexts)
  unfolding update_loop_invariants
  update_loop_invariants-Spends =
      update_values-Spends loop_invariants (λ i j. i) loads contexts hl hc

  pub update_linear_predicted_values-Spends :
      Spends
        (loads * (contexts * 4))
        (loads * (contexts * 4))
        (update_linear_predicted_values loads contexts)
  unfolding update_linear_predicted_values
  update_linear_predicted_values-Spends =
      update_values-Spends linear_predictions (λ i j. j) loads contexts hl hc
