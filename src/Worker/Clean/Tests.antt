-- ===== src/Worker/Clean/Tests.antt =====
-- The theorems on the copy and on invocations at a worker of a stage of two.
use cos516_project.Prelude.{◌∷◌, ◌++◌, ◌^◌, some, ◌≡◌, if◌then◌else◌, false, [], refl, ◌==◌, arith}
use mathlib.Core.Option
use cos516_project.Worker.Tests.{
  platform, stages, stages-IsStage, runtime, worker, third_read, third_read-busy, pcb,
}
use cos516_project.Worker.Iteration
use cos516_project.Worker.Iteration.Turns.{turn}
use cos516_project.Worker.Start
use cos516_project.Worker.Start.{Pcb, returned, predictions, reset_protection}
use cos516_project.Worker.Start.Calls.{received}
use cos516_project.Worker.Invocation.{ControlBlock, Process, Host, begin_invocation, get_pcb, seen}
use cos516_project.Worker.Invocation.Fresh.{begin_invocation-begin_iter}
use cos516_project.Worker.Clean.Iter
use cos516_project.Worker.Clean.SameIter.{end_iter-same, begin_iter-same}

end_iter-same_example :
    Iter.end_iter stages platform runtime 7 worker
    ≡ Iteration.end_iter stages platform runtime 7 worker
end_iter-same_example = end_iter-same stages platform runtime 7 worker

not_yet : Start.check_misspec pcb 5 ≡ false
unfolding Start.check_misspec
not_yet = refl

begin_iter-same_example :
    Start.begin_iter stages pcb 3 third_read 7 5
    ≡ Option.map returned (Iter.begin_iter stages 3 third_read 7 5)
begin_iter-same_example = begin_iter-same stages pcb 3 7 5 third_read not_yet

-- A PCB in which the last invocation has left a misspeculation.
abbrev used_pcb : ControlBlock
used_pcb = record {
  exit_taken = 3;
  misspeculation_happened = 1;
  misspeculated_worker = 2;
  misspeculated_iteration = 0;
  last_committed_iteration = 7;
}

abbrev host : Host
host = record {
  ebp = 2 ^ 40;
  core = 0;
  num_available_workers = 10;
  first_iter = 0;
  fresh_pcb = used_pcb;
}

abbrev process : Process
process = record {
  pcb = some used_pcb;
  affinity = 0 ∷ 1 ∷ [];
  old_affinity = [];
  stack_bound = 0;
  current_iter = 9;
}

begin_invocation-begin_iter_example :
    Start.begin_iter stages (seen (get_pcb host (begin_invocation host process).1)) 3 third_read 7 5
    ≡ some (
        returned (
          received 2 5
          ++ (predictions 3 5 ++ (if 7 == turn stages 3 5 then reset_protection ∷ [] else []))))
begin_invocation-begin_iter_example =
    begin_invocation-begin_iter host process stages 2 3 7 5 third_read third_read-busy refl
      (omega arith) 3 stages-IsStage (omega arith, omega arith)
