-- ===== src/Smtx/Loop/Invocation.antt =====
-- translation/loopevent_trans.c and translation/heap.c: the start and the end of an invocation, and
-- main. The macros of translation/constants.h are expanded as the preprocessor does, so that
-- NUM_WORKERS, which has no parentheses, keeps its meaning in each place.
pub mod Fresh
pub mod Keeps
pub mod Main
use cos516_project.Prelude.{
  zero, suc, ℕ, ◌+◌, ◌∷◌, ◌++◌, List, [], replicate, ◌^◌, Bool, ◌-◌, some, ◌/◌, ◌%◌, Option, none,
  not, ◌*◌, ◌==◌, false, if◌then◌else◌, ◌&&◌, ltb, true,
}
use cos516_project.Smtx.Queue.{Queue, reset}
use cos516_project.Smtx.Packet.{Pool, Pools}
use cos516_project.Smtx.Mapping.{packet_pool_size}
use cos516_project.Smtx.Loop.{
  Memory, Packet, Pcb, M, Outcome, ok, fault, ◌>>=◌, ◌>>◌, pure, nothing, found, queue_size,
  for_range,
}
use cos516_project.Smtx.Loop.Receive.{begin_iter, busy_wait, num_aux_workers}
use cos516_project.Smtx.Loop.Forward.{end_iter, num_heaps, num_globals, num_stacks, num_stages}

abbrev pub num_workers : ℕ
num_workers = 12 - num_aux_workers

-- NUM_WORKERS+num_aux_workers
abbrev pub num_all_workers : ℕ
num_all_workers = 12 - num_aux_workers + num_aux_workers

abbrev pub num_workers_per_heap : ℕ
num_workers_per_heap = 2

-- NUM_WORKERS/NUM_WORKERS_PER_HEAP
abbrev worker_groups : ℕ
worker_groups = 12 - num_aux_workers / num_workers_per_heap

abbrev pub num_iters : ℕ
num_iters = num_heaps / worker_groups * num_workers_per_heap

-- `int jump`
abbrev pub jump : ℕ
jump = num_stages / worker_groups

-- MAX_GLOBAL_SIZE, MAX_HEAP_SIZE and MAX_STACK_SIZE
abbrev pub max_size : ℕ
max_size = 4096

-- The entries of an array that a loop fills.
unfoldable pub tabulate {ℓ} : {A : Type ℓ} → ℕ → ℕ → (ℕ → A) → List A
tabulate zero first f = []
tabulate (suc n) first f = f first ∷ tabulate n (suc first) f

-- A fresh mapping is zero.
pub create : Queue
create =
    reset queue_size
      (record { head = 0; prealloc = 0; tail = 0; prealloc_tail = 0; finished = 0; slots = [] })

abbrev pub uncommitted_row : ℕ → ℕ → List (Option Queue)
uncommitted_row n_workers i = tabulate n_workers 0 (λ j. if ltb i j then some create else none)

unfoldable pub init_queues : ℕ → ℕ → Memory → Memory
init_queues n_workers n_aux_workers s = record s {
  ucvf_queues = tabulate n_workers 0 (uncommitted_row n_workers);
  queues = tabulate n_workers 0 (λ i. tabulate n_aux_workers 0 (λ j. create));
  commit_queues = tabulate n_aux_workers 0 (λ i. create);
  reverse_commit_queues = tabulate n_workers 0 (λ i. create);
}

pub fresh_pool : Pool
fresh_pool = record { next = 0; ptrs = replicate packet_pool_size 0 }

unfoldable pub init_packets : ℕ → Memory → Memory
init_packets n_all_workers s = record s {
  pools = record {
    workers = tabulate n_all_workers 0 (λ i. fresh_pool);
    commit_process = fresh_pool;
  };
}

-- A loop that writes an array of `n` entries.
abbrev fill : ℕ → ℕ → List ℕ
fill n size = tabulate n 0 (λ i. size)

unfoldable pub init_heaps : ℕ → ℕ → ℕ → Memory → Memory
init_heaps global_size heap_size stack_size s = record s {
  shadow_heaps = fill num_heaps heap_size;
  shadow_globals = fill num_globals global_size;
  shadow_stacks = fill num_stacks stack_size;
}

-- `-1` as a uint32_t.
abbrev pub no_iteration : ℕ
no_iteration = 2 ^ 32 - 1

abbrev pub fresh_pcb : Pcb
fresh_pcb = record {
  exit_taken = 0;
  misspeculation_happened = 0;
  misspeculated_worker = 0;
  misspeculated_iteration = no_iteration;
  last_committed_iteration = no_iteration;
}

unfoldable pub begin_invocation : ℕ → ℕ → ℕ → M ℕ
begin_invocation global_size heap_size stack_size s =
    let packets = init_packets num_all_workers s in
    let queues = init_queues num_workers num_aux_workers packets in
    let heaps = init_heaps global_size heap_size stack_size queues in
    ok num_workers (record heaps { pcb = some fresh_pcb })

-- `fini_packets` and `fini_queues` unmap what they find, all but the pool of the commit process.
abbrev pub unmap : Memory → Memory
unmap s = record s {
  ucvf_queues = [];
  queues = [];
  reverse_commit_queues = [];
  pools = record { workers = []; commit_process = s.pools.commit_process };
  commit_queues = [];
  pcb = none;
}

unfoldable pub end_invocation : M ℕ
end_invocation = do pcb ← λ s. found s.pcb s; λ s. ok pcb.exit_taken (unmap s)

module _ (malloc : Memory → ℕ × Packet) (assigned_heap : ℕ → ℕ → ℕ) (first_wid : ℕ → ℕ)
    (indeterminate : Memory → ℕ) (update_shadow : M (Unit {0})) (fuel : ℕ) where
  -- One iteration of a worker, from its stage and its flag `is_my_iter` to those of the next.
  unfoldable pub worker_iter : ℕ → ℕ → ℕ → Bool → M (ℕ × Bool)
  worker_iter w iter stage mine =
      let moves = not (iter == 0) && (iter % num_workers_per_heap == 0) in
      let my_stage = if moves then stage + jump else stage in
      let is_my_iter =
        if w % num_workers_per_heap == iter % num_workers_per_heap then true else mine in
      (do
        begin_iter malloc assigned_heap fuel w iter my_stage is_my_iter
        if iter == 0 then busy_wait indeterminate fuel w my_stage else nothing
        end_iter malloc assigned_heap first_wid fuel update_shadow w iter my_stage
        pure (my_stage, is_my_iter))

  unfoldable pub worker_iters : ℕ → ℕ → ℕ → ℕ → Bool → M (Unit {0})
  worker_iters zero iter w stage mine = nothing
  worker_iters (suc n) iter w stage mine = do
    (stage', mine') ← worker_iter w iter stage mine
    worker_iters n (suc iter) w stage' mine'

  unfoldable pub main : M ℕ
  main = do
    begin_invocation max_size max_size max_size
    for_range num_workers 0 (λ w. worker_iters num_iters 0 w (w % num_workers_per_heap) false)
    end_invocation
