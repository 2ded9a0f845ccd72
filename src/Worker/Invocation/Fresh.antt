-- ===== src/Worker/Invocation/Fresh.antt =====
-- What an invocation leaves, and the first iterations in it.
use cos516_project.Prelude.{
  ℕ, ◌∷◌, ◌++◌, some, Bool, ◌≡◌, none, refl, ◌<◌, false, true, if◌then◌else◌, ◌==◌, [],
}
use cos516_project.Worker.Iteration.{Stages}
use cos516_project.Worker.Start.{returned, begin_iter, predictions, reset_protection, check_misspec}
use cos516_project.Worker.Start.Calls.{received}
use cos516_project.Worker.Invocation.{
  ControlBlock, Process, Host, begin_invocation, end_invocation, get_pcb, seen,
}
use cos516_project.Worker.Iteration.Turns.{turn, IsStage, IsOf}
use cos516_project.Worker.Start.Calls.{begin_iter-after}

-- What happens to the PCB in between is up to other processes: it is replaced by any other one.
-- end_invocation returns what the PCB holds.
pub begin_invocation-end_invocation :
    (host : Host) (p : Process) (pcb : ControlBlock)
    → end_invocation host (record (begin_invocation host p).1 { pcb = some pcb }) ≡ (
      pcb.exit_taken,
      record p {
        pcb = none;
        old_affinity = p.affinity;
        stack_bound = host.ebp;
        current_iter = host.first_iter;
      },
    )
unfolding begin_invocation end_invocation
begin_invocation-end_invocation host p pcb = refl

-- After begin_invocation, whatever the last invocation left in the PCB, begin_iter in a well-
-- formed stage, where the flag is set at a read that the fuel reaches, does not exit: it returns
-- after the calls of its iteration.
pub begin_invocation-begin_iter :
    (host : Host) (p : Process) (st : Stages) (rounds fuel wid iter : ℕ) (good_to_go : ℕ → Bool)
    → ((j : ℕ) → j < rounds → good_to_go j ≡ false)
    → good_to_go rounds ≡ true
    → rounds < fuel
    → (stage : ℕ) → IsStage st stage
    → IsOf st stage wid
    → begin_iter st (seen (get_pcb host (begin_invocation host p).1)) fuel good_to_go wid iter
      ≡ some (
          returned (
            received rounds iter
            ++ (predictions stage iter
                ++ (if wid == turn st stage iter then reset_protection ∷ [] else []))))
unfolding begin_invocation check_misspec
begin_invocation-begin_iter host p st rounds fuel wid iter good_to_go busy good lt stage hs hof =
    begin_iter-after st (seen (get_pcb host (begin_invocation host p).1)) rounds fuel wid iter
      good_to_go busy good lt stage hs hof
