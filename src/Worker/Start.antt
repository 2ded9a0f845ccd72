-- ===== src/Worker/Start.antt =====
-- loopevent_orig.cpp: the start of an iteration, begin_iter, as the functions of other files that it
-- calls, in order. PROFILE is off.
use cos516_project.Prelude.{
  zero, ℕ, ◌∷◌, ◌++◌, List, Bool, [], if◌then◌else◌, Option, not, none, leb, false, suc, ◌==◌, ◌&&◌,
  some,
}
use mathlib.Core.Option
use cos516_project.Worker.Iteration.{Stages, run_iteration}
pub mod Calls

-- The part of the PCB that check_misspec reads.
pub record Pcb : Type 0 where
  pub misspeculation_happened : Bool
  pub misspeculated_iteration : ℕ

-- check_misspec: whether the process exits.
unfoldable pub check_misspec : Pcb → ℕ → Bool
check_misspec pcb iter =
    if pcb.misspeculation_happened then leb pcb.misspeculated_iteration iter else false

-- The calls, all for the worker's own number.
pub data Event : Type 0 where
  process_reverse_commit_queue : Event
  process_incoming_packets : Event
  update_loop_invariants : Event
  update_linear_predicted_values : Event
  to_try_commit_boi : Event
  reset_protection : Event

-- How begin_iter ends, and its calls until then.
pub data Outcome : Type 0 where
  returned : List Event → Outcome
  exited : List Event → Outcome

-- while (!(*good_to_go)): the commit process sets the flag, so that its reads are a sequence;
-- `none` means that the fuel ran out.
unfoldable pub wait : ℕ → (ℕ → Bool) → ℕ → Option (List Event)
wait zero good_to_go k = none
wait (suc fuel) good_to_go k =
    let rest = Option.map (◌∷◌ process_reverse_commit_queue) (wait fuel good_to_go (suc k)) in
    if not (good_to_go k) then rest else some []

-- From the second iteration on, in the first stage.
abbrev pub predictions : ℕ → ℕ → List Event
predictions stage iter =
    if not (iter == 0) && stage == 0
    then update_loop_invariants ∷ update_linear_predicted_values ∷ to_try_commit_boi ∷ []
    else []

-- What follows the waiting.
unfoldable pub after_wait : Stages → Pcb → ℕ → ℕ → List Event → Outcome
after_wait st pcb wid iter waited =
    let received = waited ++ process_incoming_packets ∷ [] in
    if check_misspec pcb iter
    then exited received
    else returned (
        received
        ++ (predictions (st.my_stage wid) iter
            ++ (if run_iteration st wid iter then reset_protection ∷ [] else [])))

unfoldable pub begin_iter : Stages → Pcb → ℕ → (ℕ → Bool) → ℕ → ℕ → Option Outcome
begin_iter st pcb fuel good_to_go wid iter =
    Option.map (after_wait st pcb wid iter)
      (if not (iter == 0) then wait fuel good_to_go 0 else some [])
