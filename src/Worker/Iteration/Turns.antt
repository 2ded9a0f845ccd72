-- ===== src/Worker/Iteration/Turns.antt =====
-- The worker of a stage whose turn an iteration is.
use cos516_project.Prelude.{ℕ, ◌+◌, ◌≤◌, ◌≡◌, ◌<◌, ◌^◌, ◌%◌, arith, true, ◌↔◌, refl, false, ap, ◌∙◌}
use native.Mathlib.Nat.{mod-lt, mod-eq_of_lt}
use cos516_project.Worker.Iteration.{run_iteration, sends_eoi, Stages, to_wid, pipeline_fill_iter}

-- The workers of a stage have consecutive numbers, which fit 32 bits, and
-- GET_WID_OFFSET_IN_STAGE takes the remainder.
pub record IsStage (st : Stages) (stage : ℕ) : Type 0 where
  pub replicated : 0 < st.replication_factor stage
  pub fits : st.first_wid stage + st.replication_factor stage ≤ 2 ^ 32
  pub consecutive :
      (wid : ℕ)
      → st.first_wid stage ≤ wid
      → wid < st.first_wid stage + st.replication_factor stage
      → st.my_stage wid ≡ stage
  pub offset : (iter : ℕ) → st.wid_offset iter stage ≡ iter % st.replication_factor stage

-- The worker is one of the stage.
abbrev pub IsOf : Stages → ℕ → ℕ → Type 0
IsOf st stage wid =
    (st.first_wid stage ≤ wid) × (wid < st.first_wid stage + st.replication_factor stage)

-- The worker whose turn an iteration is, in a stage.
abbrev pub turn : Stages → ℕ → ℕ → ℕ
turn st stage iter = st.first_wid stage + to_wid iter % st.replication_factor stage

turn_lt :
    (st : Stages) (stage iter : ℕ)
    → IsStage st stage
    → to_wid iter % st.replication_factor stage < st.replication_factor stage
turn_lt st stage iter hs = mod-lt (to_wid iter) hs.replicated

-- A worker of a stage runs an iteration exactly when it is the one whose turn it is.
pub run_iteration_iff :
    (st : Stages) (stage wid iter : ℕ)
    → IsStage st stage
    → IsOf st stage wid
    → (run_iteration st wid iter ≡ true) ↔ (wid ≡ turn st stage iter)
unfolding run_iteration
run_iteration_iff st stage wid iter hs (lo, hi) =
    rw (hs.consecutive wid lo hi) (ground (arith, turn_lt st stage iter hs, hs.fits))

-- A worker of a well-formed stage sends the EOI of exactly the iterations that it runs.
pub sends_eoi_lem :
    (st : Stages) (stage wid iter : ℕ)
    → IsStage st stage
    → IsOf st stage wid
    → sends_eoi st wid iter ≡ run_iteration st wid iter
unfolding sends_eoi run_iteration
sends_eoi_lem st stage wid iter hs (lo, hi) =
    rw (hs.consecutive wid lo hi, hs.offset (to_wid iter))
      (ground (arith, turn_lt st stage iter hs, hs.fits))

-- In a well-formed stage each iteration has exactly one worker that runs it.
pub one_worker :
    (st : Stages) (stage iter : ℕ)
    → IsStage st stage
    → IsOf st stage (turn st stage iter)
      × (run_iteration st (turn st stage iter) iter ≡ true)
      × ((wid : ℕ)
          → IsOf st stage wid
          → run_iteration st wid iter ≡ true
          → wid ≡ turn st stage iter)
one_worker st stage iter hs =
    let mine : IsOf st stage (turn st stage iter) =
      (omega arith, omega (arith, turn_lt st stage iter hs)) in
    (
      mine,
      (run_iteration_iff st stage _ iter hs mine).1 refl,
      λ wid h. (run_iteration_iff st stage wid iter hs h).0,
    )

-- Where the sum of the stage's first worker and the iteration fits 32 bits, a worker of a well-
-- formed stage that fills the pipeline in an iteration runs neither that one nor any earlier one.
pipeline_fill_iter_lem :
    (st : Stages) (stage wid iter earlier : ℕ)
    → IsStage st stage
    → IsOf st stage wid
    → st.first_wid stage + iter < 2 ^ 32
    → pipeline_fill_iter st wid iter ≡ true
    → earlier ≤ iter
    → run_iteration st wid earlier ≡ false
unfolding pipeline_fill_iter
pipeline_fill_iter_lem st stage wid iter earlier hs (lo, hi) fits fills le =
    let ahead : st.first_wid stage + iter < wid = ground (arith, fills, hs.consecutive wid lo hi) in
    let here : to_wid earlier % st.replication_factor stage ≡ earlier =
      ap (λ (t : ℕ). t % st.replication_factor stage) (mod-eq_of_lt (omega arith))
      ∙ mod-eq_of_lt (omega arith) in
    ground (arith, here, (run_iteration_iff st stage wid earlier hs (lo, hi)).0)
