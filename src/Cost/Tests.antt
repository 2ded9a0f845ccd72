-- ===== src/Cost/Tests.antt =====
-- The cost model's theorems at concrete states.
use cos516_project.Prelude.{ℕ, ◌≡◌, true, ◌+◌, ◌^◌, ◌*◌, ◌<◌, pos, arith, some, refl, false, ◌≤◌}
use cos516_project.Cost.Machine.{
  start, Machine, set_tally, set_cell, ucvf_at, reverse_at, fault, ok, tally,
}
use cos516_project.Cost.Loop.{
  main, run_worker, begin_iter, busy_wait, end_iter, begin_invocation, update_counts,
}
use cos516_project.Cost.Loop.Main.{
  start-IsValid, main-fault, begin_invocation-Spends, run_worker-fault_odd, run_worker-Returns,
}
use cos516_project.Cost.Machine.Rules.{Returns}
use cos516_project.Cost.Valid.{AreBuffers, IsValid, set_tally-AreValid, set_cell-IsGrid}
use cos516_project.Cost.Loop.Drain.{Drains, drain_lem}
use cos516_project.Cost.Bounds.{Costs, Keeps}
use cos516_project.Cost.Loop.Own.{end_iter-fault}
use cos516_project.Cost.Invariant.Count.{walk_cost, next_count}
use cos516_project.Cost.Loop.Begin.{begin_iter-Safe, busy_wait-Returns}
use cos516_project.Cost.Loop.Counts.{update_counts_lem}
use cos516_project.Cost.Loop.Forward.{end_iter-Spends}

-- Every row of `queues` at address 4096.
abbrev rows_at : ℕ → ℕ
rows_at i = 4096

-- Nine packets wait in `ucvf_queues[0][0]`, and three from the commit process at worker 2.
abbrev loaded : Machine
loaded = record start {
  tallies = set_tally (reverse_at 2) (pos 3) (set_tally (ucvf_at 0 0) (pos 9) start.tallies);
}

loaded-IsValid : IsValid loaded
loaded-IsValid = record {
  tallies =
      set_tally-AreValid (reverse_at 2) (pos 3)
        (set_tally-AreValid (ucvf_at 0 0) (pos 9) start-IsValid.tallies (omega arith, omega arith)
          (omega arith))
        (omega arith) (omega arith);
  buffers = start-IsValid.buffers;
  memory = start-IsValid.memory;
}

main-fault_example : main rows_at 17 start ≡ fault
main-fault_example = main-fault rows_at 17 (omega arith)

run_worker-Returns_example :
    Returns (λ _ t. IsValid t × (loaded.cost + 2 ^ 31 ≤ t.cost)) (run_worker rows_at 17 2 loaded)
run_worker-Returns_example =
    run_worker-Returns rows_at 17 (omega arith) 2 loaded (omega arith) refl loaded-IsValid

run_worker-fault_odd_example : run_worker rows_at 17 3 loaded ≡ fault
run_worker-fault_odd_example =
    run_worker-fault_odd rows_at 17 (omega arith) 3 loaded (omega arith) refl loaded-IsValid

begin_invocation-Spends_example :
    Returns (λ _ t. Costs 16483184 16483184 loaded t) (begin_invocation loaded)
begin_invocation-Spends_example = begin_invocation-Spends loaded loaded-IsValid

drain_lem_example : Drains 0 (ucvf_at 0 0) (record { kind = 0; is_ver = 0 }) 10 9 loaded
drain_lem_example =
    drain_lem 0 (ucvf_at 0 0) (record { kind = 0; is_ver = 0 }) 10 9 loaded
      (omega arith, omega arith) (refl, omega arith, loaded-IsValid.tallies, refl) (omega arith)

begin_iter-Safe_example : Returns (λ _ t. Keeps loaded t) (begin_iter 17 2 1 1 true loaded)
begin_iter-Safe_example =
    begin_iter-Safe 17 2 1 1 true (omega arith) (omega arith) (λ i h. omega arith) loaded
      loaded-IsValid

busy_wait-Returns_example :
    Returns
      (λ _ t.
        Keeps loaded t
        × (tally (reverse_at 2) t.tallies ≡ some (pos 0))
        × (t.cost ≤ loaded.cost + 3 * 406))
      (busy_wait 4 2 loaded)
busy_wait-Returns_example =
    busy_wait-Returns 2 4 3 loaded (omega arith) loaded-IsValid refl (omega arith)

end_iter-Spends_example :
    Returns
      (λ _ t. Costs (61560 * (20 * 1206)) (61560 * (20 * 1212)) loaded t)
      (end_iter rows_at 2 0 false loaded)
end_iter-Spends_example = end_iter-Spends rows_at 2 (omega arith) 0 loaded loaded-IsValid

end_iter-fault_example : end_iter rows_at 2 1 true loaded ≡ fault
end_iter-fault_example = end_iter-fault rows_at 2 1 (omega arith) loaded loaded-IsValid

-- One invariant of four, and a prediction of one.
abbrev predicted : Machine
predicted = record loaded {
  buffers = record start.buffers {
    invariants = set_cell start.buffers.invariants 3 5 4;
    predictors = set_cell start.buffers.predictors 0 1 1;
  };
}

predicted-AreBuffers : AreBuffers predicted.buffers
predicted-AreBuffers = record {
  invariants =
      set_cell-IsGrid (λ v. v < 8) start-IsValid.buffers.invariants 3 5 4 (omega arith)
        (omega arith);
  predictors =
      set_cell-IsGrid (λ v. v < 8) start-IsValid.buffers.predictors 0 1 1 (omega arith)
        (omega arith);
  some_loads = omega arith;
  max_loads = omega arith;
  some_contexts = omega arith;
  max_contexts = omega arith;
}

predicted-IsValid : IsValid predicted
predicted-IsValid = record {
  tallies = loaded-IsValid.tallies;
  buffers = predicted-AreBuffers;
  memory = loaded-IsValid.memory;
}

abbrev counted : Machine
counted =
    let b = predicted.buffers in
    let loads = next_count b.invariants b.loads b.contexts in
    record predicted {
      cost =
          predicted.cost
          + walk_cost b.invariants b.loads b.contexts
          + walk_cost b.predictors loads b.contexts;
      buffers = record b { loads = loads; contexts = next_count b.predictors loads b.contexts };
    }

update_counts_lem_example : (update_counts predicted ≡ ok tt counted) × IsValid counted
update_counts_lem_example = update_counts_lem predicted predicted-IsValid
