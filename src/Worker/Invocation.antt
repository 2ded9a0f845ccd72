-- ===== src/Worker/Invocation.antt =====
-- loopevent_orig.cpp: the start and the end of an invocation, begin_invocation and end_invocation.
use cos516_project.Prelude.{
  zero, suc, ℕ, ◌+◌, ◌∷◌, ◌++◌, none, some, Option, ◌^◌, ◌%◌, not, ◌==◌, [], ◌-◌, List,
}
use cos516_project.Worker.Start.{Pcb}
pub mod Fresh

-- The PCB, less the reason of a misspeculation, which is set to NULL. An Iteration has 32 bits.
pub record ControlBlock : Type 0 where
  pub exit_taken : ℕ
  pub misspeculation_happened : ℕ
  pub misspeculated_worker : ℕ
  pub misspeculated_iteration : ℕ
  pub last_committed_iteration : ℕ

-- What check_misspec reads of it.
abbrev pub seen : ControlBlock → Pcb
seen pcb = record {
  misspeculation_happened = not (pcb.misspeculation_happened == 0);
  misspeculated_iteration = pcb.misspeculated_iteration;
}

-- The main process: its PCB once it is mapped, the processors it may run on and those it might run
-- on before, and what the other two globals hold.
pub record Process : Type 0 where
  pub pcb : Option ControlBlock
  pub affinity : List ℕ
  pub old_affinity : List ℕ
  pub stack_bound : ℕ
  pub current_iter : ℕ

-- Code that stands elsewhere: the frame pointer, CORE(0), num_available_workers,
-- reset_current_iter, and the PCB that get_pcb maps.
pub record Host : Type 0 where
  pub ebp : ℕ
  pub core : ℕ
  pub num_available_workers : ℕ
  pub first_iter : ℕ
  pub fresh_pcb : ControlBlock

abbrev pub get_pcb : Host → Process → ControlBlock
get_pcb host p = elim p.pcb [ none ↦ host.fresh_pcb | some pcb ↦ pcb ]

-- `-1` as an Iteration.
abbrev pub no_iteration : ℕ
no_iteration = 2 ^ 32 - 1

unfoldable pub begin_invocation : Host → Process → ℕ × Process
begin_invocation host p =
    let pcb = get_pcb host p in
    (
      host.num_available_workers % 2 ^ 32,
      record p {
        stack_bound = host.ebp;
        current_iter = host.first_iter;
        old_affinity = p.affinity;
        affinity = host.core ∷ [];
        pcb = some (record pcb {
          exit_taken = 0;
          misspeculation_happened = 0;
          misspeculated_worker = 0;
          misspeculated_iteration = no_iteration;
          last_committed_iteration = no_iteration;
        });
      },
    )

-- destroy_pcb unmaps the PCB.
unfoldable pub end_invocation : Host → Process → ℕ × Process
end_invocation host p =
    ((get_pcb host p).exit_taken, record p { pcb = none; affinity = p.old_affinity })
