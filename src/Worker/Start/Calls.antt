-- ===== src/Worker/Start/Calls.antt =====
-- What begin_iter calls, and how it ends.
use cos516_project.Prelude.{
  zero, ℕ, ◌∷◌, ◌++◌, List, Bool, if◌then◌else◌, ◌<◌, ◌+◌, ◌==◌, [], ◌≡◌, replicate, false, true,
  some, arith, suc, subst, Bool-cases, refl, inl, inr, ◌↔◌, ◌≤◌, sym, ◌∙◌,
}
use cos516_project.Worker.Start.{
  update_loop_invariants, begin_iter, wait, check_misspec, Event, exited, returned,
  process_reverse_commit_queue, process_incoming_packets, reset_protection, after_wait, Pcb,
  predictions, to_try_commit_boi, update_linear_predicted_values,
}
use cos516_project.Worker.Iteration.{Stages, run_iteration}
use cos516_project.Worker.Iteration.Turns.{IsStage, IsOf, turn, run_iteration_iff}

wait_lem :
    (rounds fuel k : ℕ) (good_to_go : ℕ → Bool)
    → ((j : ℕ) → j < rounds → good_to_go (k + j) ≡ false)
    → good_to_go (k + rounds) ≡ true
    → rounds < fuel
    → wait fuel good_to_go k ≡ some (replicate rounds process_reverse_commit_queue)
unfolding wait
wait_lem rounds zero k good_to_go busy good lt = absurd (omega arith)
wait_lem zero (suc fuel) k good_to_go busy good lt =
    let now : good_to_go k ≡ true =
      subst (λ i. good_to_go i ≡ true) {x = k + 0} (omega arith) good in
    rw now refl
wait_lem (suc rounds) (suc fuel) k good_to_go busy good lt =
    let now : good_to_go k ≡ false =
      subst (λ i. good_to_go i ≡ false) {x = k + 0} (omega arith) (busy 0 (omega arith)) in
    rw
      (
        now,
        wait_lem rounds fuel (suc k) good_to_go
            (λ j h.
              subst (λ i. good_to_go i ≡ false) {x = k + suc j} (omega arith)
                (busy (suc j) (omega arith)))
            (subst (λ i. good_to_go i ≡ true) {x = k + suc rounds} (omega arith) good)
            (omega arith),
      )
      refl

-- The calls before the test for misspeculation: one for each read of the flag that fails, none of
-- them in the first iteration, and the packets of the earlier stages.
abbrev pub received : ℕ → ℕ → List Event
received rounds iter =
    (if iter == 0 then [] else replicate rounds process_reverse_commit_queue)
    ++ process_incoming_packets ∷ []

after_wait_lem :
    (st : Stages) (pcb : Pcb) (stage wid iter : ℕ) (waited : List Event)
    → IsStage st stage
    → IsOf st stage wid
    → after_wait st pcb wid iter waited ≡ (
        if check_misspec pcb iter
        then exited (waited ++ process_incoming_packets ∷ [])
        else returned (
            (waited ++ process_incoming_packets ∷ [])
            ++ (predictions stage iter
                ++ (if wid == turn st stage iter then reset_protection ∷ [] else []))))
unfolding after_wait
after_wait_lem st pcb stage wid iter waited hs hof =
    let same : run_iteration st wid iter ≡ (wid == turn st stage iter) = ground (
      arith,
      (run_iteration_iff st stage wid iter hs hof).0,
      (run_iteration_iff st stage wid iter hs hof).1,
    ) in
    rw (hs.consecutive wid hof.0 hof.1, same) refl

-- How begin_iter ends, by the test for misspeculation.
pub begin_iter-after :
    (st : Stages) (pcb : Pcb) (rounds fuel wid iter : ℕ) (good_to_go : ℕ → Bool)
    → ((j : ℕ) → j < rounds → good_to_go j ≡ false)
    → good_to_go rounds ≡ true
    → rounds < fuel
    → (stage : ℕ) → IsStage st stage
    → IsOf st stage wid
    → begin_iter st pcb fuel good_to_go wid iter
      ≡ some (
          if check_misspec pcb iter
          then exited (received rounds iter)
          else returned (
              received rounds iter
              ++ (predictions stage iter
                  ++ (if wid == turn st stage iter then reset_protection ∷ [] else []))))
unfolding begin_iter
begin_iter-after st pcb rounds fuel wid iter good_to_go busy good lt stage hs hof =
    let waits =
      wait_lem rounds fuel 0 good_to_go
        (λ j h. subst (λ i. good_to_go i ≡ false) {x = j} (omega arith) (busy j h))
        (subst (λ i. good_to_go i ≡ true) {x = rounds} (omega arith) good) lt in
    elim (Bool-cases (iter == 0)) [
      | inl first ↦ rw (first, after_wait_lem st pcb stage wid iter [] hs hof, first) refl
      | inr later ↦
          rw
            (
              later,
              waits,
              after_wait_lem st pcb stage wid iter (replicate rounds process_reverse_commit_queue)
                  hs hof,
              later,
            )
            refl
    ]

-- The misspeculations that end the process.
check_misspec_iff :
    (pcb : Pcb) (iter : ℕ)
    → (check_misspec pcb iter ≡ true)
      ↔ ((pcb.misspeculation_happened ≡ true) × (pcb.misspeculated_iteration ≤ iter))
unfolding check_misspec
check_misspec_iff pcb iter = ground arith

-- What a worker of the first stage tells the try-commit unit from the second iteration on.
abbrev pub first_stage : ℕ → ℕ → List Event
first_stage zero stage = []
first_stage (suc iter) zero =
    update_loop_invariants ∷ update_linear_predicted_values ∷ to_try_commit_boi ∷ []
first_stage (suc iter) (suc stage) = []

predictions_lem : (stage iter : ℕ) → predictions stage iter ≡ first_stage iter stage
predictions_lem stage zero = refl
predictions_lem zero (suc iter) =
    let later : (suc iter == 0) ≡ false = ground arith in rw later refl
predictions_lem (suc stage) (suc iter) =
    let other : (suc stage == 0) ≡ false = ground arith in
    let later : (suc iter == 0) ≡ false = ground arith in rw (later, other) refl

-- The last call, that of the worker whose turn it is.
abbrev pub own_turn : ℕ → ℕ → List Event
own_turn wid turn_ = if wid == turn_ then reset_protection ∷ [] else []

true-ne-false : true ≡ false → ⊥
true-ne-false e = cc

other_end : {xs ys : List Event} → some (exited xs) ≡ some (returned ys) → ⊥
other_end e = cc

-- Where the flag is first set at a read that the fuel reaches, in a well-formed stage, begin_iter
-- makes one call for each failed read (none in the first iteration) and one for incoming packets;
-- it exits then exactly where a misspeculation happened in an iteration not later than this one,
-- and else, and only else, returns after, in a later iteration of the first stage, the two
-- updates of predicted values and the start for the try-commit unit, and, for the worker whose
-- turn it is alone, the reset of the protection.
pub begin_iter_lem :
    (st : Stages) (pcb : Pcb) (rounds fuel wid iter : ℕ) (good_to_go : ℕ → Bool)
    → ((j : ℕ) → j < rounds → good_to_go j ≡ false)
    → good_to_go rounds ≡ true
    → rounds < fuel
    → (stage : ℕ) → IsStage st stage
    → IsOf st stage wid
    → ((begin_iter st pcb fuel good_to_go wid iter ≡ some (exited (received rounds iter)))
        ↔ ((pcb.misspeculation_happened ≡ true) × (pcb.misspeculated_iteration ≤ iter)))
      × ((begin_iter st pcb fuel good_to_go wid iter
            ≡ some (
                returned (
                  received rounds iter
                  ++ (first_stage iter stage ++ own_turn wid (turn st stage iter)))))
          ↔ (¬ ((pcb.misspeculation_happened ≡ true) × (pcb.misspeculated_iteration ≤ iter))))
begin_iter_lem st pcb rounds fuel wid iter good_to_go busy good lt stage hs hof =
    let ends = begin_iter-after st pcb rounds fuel wid iter good_to_go busy good lt stage hs hof in
    let told = predictions_lem stage iter in
    let (to, from) = check_misspec_iff pcb iter in
    elim (Bool-cases (check_misspec pcb iter)) [
      | inl exits ↦
          let ends' = (rw exits at ends) in
          (
            (λ _. to exits, λ _. ends'),
            (λ e. absurd (other_end (sym ends' ∙ e)), λ other. absurd (other (to exits))),
          )
      | inr goes_on ↦
          let ends' = (rw (goes_on, told) at ends) in
          let never =
            λ (h : (pcb.misspeculation_happened ≡ true) × (pcb.misspeculated_iteration ≤ iter)).
              true-ne-false (sym (from h) ∙ goes_on) in
          (
            (λ e. absurd (other_end (sym e ∙ ends')), λ h. absurd (never h)),
            (λ _ h. never h, λ _. ends'),
          )
    ]
