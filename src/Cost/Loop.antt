-- ===== src/Cost/Loop.antt =====
-- simplified_translation/loopevent_trans.c: what a worker does around each iteration, and `main`,
-- which runs the workers one after the other. `fuel` bounds the two `while` loops on a queue.
pub mod Rounds
pub mod Drain
pub mod Forward
pub mod Own
pub mod Main
pub mod Begin
pub mod Counts
use cos516_project.Prelude.{
  ℕ, zero, suc, ◌+◌, ◌-◌, ◌/◌, ◌%◌, is_pos, Bool, true, false, not, ltb, leb, ◌==◌, ◌&&◌,
  if◌then◌else◌, get_elem?, List,
}
use cos516_project.Cost.Constants.{
  max_loads, max_contexts, num_aux_workers, num_heaps, num_globals, num_stacks, max_size,
  num_workers_per_heap, num_stages, num_workers, workers_quotient, mod_workers, num_iters,
  page_size, queue_size, instances_per_page,
}
use cos516_project.Cost.Machine.{
  ok, spin, M, pure, ◌>>=◌, ◌>>◌, tick, in_bounds, index, QueueRef, ucvf_at, queue_at, commit_at,
  reverse_at, load, for_fold, for_range, Heaps, Shadow,
}
use cos516_project.Cost.Queue.{
  PacketType, normal, super, done, alloc, init_queues, uninit_queues, queue_consume, queue_produce,
}
use cos516_project.Cost.Heap.{
  init_heaps, update_ver_malloc, update_ver_separation_malloc, update_page, set_shadow_heaps,
}
use cos516_project.Cost.Packet.{
  init_packets, uninit_packets, get_available_commit_process_packet, get_available_ucvf_packet,
  get_available_packet,
}
use cos516_project.Cost.Invariant.{
  init_buffers, uninit_buffers, update_loop_invariants, update_linear_predicted_values,
  update_shadow_loop_invariants, update_shadow_linear_predicted_values,
}

pub begin_invocation : M (Unit {0})
begin_invocation = do
  init_queues num_workers num_aux_workers queue_size
  init_buffers max_loads max_contexts
  init_packets (num_aux_workers + num_workers)
  init_heaps max_size max_size max_size
  tick 200

-- `num_ro_pages--`
abbrev use_ro_page : M (Unit {0})
use_ro_page s = ok tt (record s { ro_pages = s.ro_pages - 1 })

-- The body of `case ALLOC`: one chunk for each instance that a page holds.
pub alloc_chunk : ℕ → M (Unit {0})
alloc_chunk wid = do
  heap ← λ s. in_bounds (get_elem? s.memory.heaps wid) s
  if heap.is_ver == 0 then update_ver_separation_malloc else update_ver_malloc

-- The `switch` on the type of a packet from `ref`; the result is `done`.
pub handle : ℕ → QueueRef → PacketType → M Bool
handle wid ref normal = do shadow ← queue_consume ref; tick 1; tick 1; pure false
handle wid ref super = do
  left ← λ s. ok s.ro_pages s
  if leb 1 left
      then (do use_ro_page; tick 1)
      else (do shadow ← queue_consume ref; update_page page_size)
  pure false
handle wid ref done = pure true
handle wid ref alloc = do for_range instances_per_page 0 (λ _. alloc_chunk wid); pure false

-- while (!done) { ... }
unfoldable pub drain : ℕ → ℕ → QueueRef → M (Unit {0})
drain zero wid ref = λ s. spin
drain (suc fuel) wid ref = do
  type ← queue_consume ref
  stop ← handle wid ref type
  elim stop [ true ↦ pure tt | false ↦ drain fuel wid ref ]

-- From the second iteration on, a worker of stage 0 brings its predictions up to date and tells the
-- auxiliary workers.
pub send_predictions : ℕ → M (Unit {0})
send_predictions wid = do
  loads ← λ s. ok s.buffers.loads s
  contexts ← λ s. ok s.buffers.contexts s
  update_loop_invariants loads contexts
  update_linear_predicted_values loads contexts
  for_range num_aux_workers 0 (λ i. queue_produce (queue_at wid i))

-- One round of the loop over the earlier stages.
pub receive : ℕ → ℕ → ℕ → M (Unit {0})
receive fuel wid i = do source ← index (mod_workers (wid + i)); drain fuel wid (ucvf_at source wid)

pub begin_iter : ℕ → ℕ → ℕ → ℕ → Bool → M (Unit {0})
begin_iter fuel wid iter my_stage is_my_iter = do
  for_range my_stage 0 (receive fuel wid)
  if not (iter == 0) && my_stage == 0 then send_predictions wid else pure tt
  if is_my_iter then set_shadow_heaps num_heaps else pure tt

-- Both branches of `busy_wait`: `type % 2 == 0` holds of NORMAL and DONE.
pub reverse_alloc : PacketType → M (Unit {0})
reverse_alloc normal = update_ver_malloc
reverse_alloc done = update_ver_malloc
reverse_alloc super = update_ver_separation_malloc
reverse_alloc alloc = update_ver_separation_malloc

-- while (reverse_commit_queues[wid] > 0) { ... }
pub busy_wait : ℕ → ℕ → M (Unit {0})
busy_wait zero wid = λ s. spin
busy_wait (suc fuel) wid = do
  q ← load (reverse_at wid)
  if is_pos q
      then (do type ← queue_consume (reverse_at wid); reverse_alloc type; busy_wait fuel wid)
      else pure tt

pub end_invocation : M (Unit {0})
end_invocation = do
  uninit_queues num_workers num_aux_workers
  uninit_buffers max_loads max_contexts
  uninit_packets (num_aux_workers + num_workers)
  tick 500

-- The locals of `main`'s inner loop.
pub record Locals : Type 0 where
  pub my_stage : ℕ
  pub is_my_iter : Bool

-- One packet of the loop over the later stages.
pub forward_to_stage : ℕ → Bool → ℕ → M (Unit {0})
forward_to_stage wid is_my_iter i =
    if not is_my_iter
    then (do
      idx ← get_available_commit_process_packet num_aux_workers
      queue_produce (commit_at idx))
    else (do
      let source = mod_workers (wid + i)
      idx ← get_available_ucvf_packet source num_workers
      row ← index source
      queue_produce (ucvf_at row idx)
      tick 300)

-- `num_loop_invariant_loads` and `num_contexts` are set from the buffers, one after the other.
pub update_counts : M (Unit {0})
update_counts = do
  loads ← λ s. ok s.buffers.loads s
  contexts ← λ s. ok s.buffers.contexts s
  loads' ← update_shadow_loop_invariants loads contexts
  λ s. ok tt (record s { buffers = record (s.buffers) { loads = loads' } })
  contexts' ← update_shadow_linear_predicted_values loads' contexts
  λ s. ok tt (record s { buffers = record (s.buffers) { contexts = contexts' } })

module _ (row_address : ℕ → ℕ) where
  -- The argument `shadow_size` is passed down and never read.
  pub forward_packet : ℕ → ℕ → ℕ → Bool → M (Unit {0})
  forward_packet wid shadow_size my_stage is_my_iter = do
    for_range (num_stages - (my_stage + 1)) (my_stage + 1) (forward_to_stage wid is_my_iter)
    idx ← get_available_packet row_address wid num_aux_workers
    queue_produce (queue_at wid idx)

  pub forward_pair : ℕ → ℕ → ℕ → Bool → M (Unit {0})
  forward_pair wid shadow_size my_stage is_my_iter = do
    forward_packet wid shadow_size my_stage is_my_iter
    forward_packet wid shadow_size my_stage is_my_iter
    for_range (page_size / 8) 0
        λ i. do forward_packet wid 8 my_stage is_my_iter; forward_packet wid 8 my_stage is_my_iter

  -- The loop over one of the three arrays of shadows.
  pub forward_area : (Heaps → List Shadow) → ℕ → ℕ → ℕ → Bool → M (Unit {0})
  forward_area area count wid my_stage is_my_iter = for_range count 0 λ i. do
    shadow ← λ s. in_bounds (get_elem? (area s.memory) i) s
    forward_pair wid shadow.size my_stage is_my_iter

  pub end_iter : ℕ → ℕ → Bool → M (Unit {0})
  end_iter wid my_stage is_my_iter = do
    if is_my_iter then update_counts else pure tt
    forward_area (λ m. m.shadow_globals) num_globals wid my_stage is_my_iter
    forward_area (λ m. m.shadow_heaps) num_heaps wid my_stage is_my_iter
    forward_area (λ m. m.shadow_stacks) num_stacks wid my_stage is_my_iter

  -- One round of the inner loop. `main` calls `__specpriv_end_iter(w, iter, my_stage)`, whose
  -- parameters are `wid, my_stage, is_my_iter`.
  pub one_iteration : ℕ → ℕ → ℕ → Locals → M Locals
  one_iteration fuel w iter l = do
    let jump = num_stages / workers_quotient
    let my_stage =
        if not (iter == 0) && iter % num_workers_per_heap == 0
        then l.my_stage + jump
        else l.my_stage
    let is_my_iter =
        if w % num_workers_per_heap == iter % num_workers_per_heap then true else l.is_my_iter
    begin_iter fuel w iter my_stage is_my_iter
    if iter == 0 then busy_wait fuel w else pure tt
    end_iter w iter (ltb 0 my_stage)
    pure (record { my_stage = my_stage; is_my_iter = is_my_iter })

  pub run_worker : ℕ → ℕ → M (Unit {0})
  run_worker fuel w = do
    last ←
        for_fold num_iters 0 (one_iteration fuel w)
          (record { my_stage = w % num_workers_per_heap; is_my_iter = false })
    pure tt

  pub main : ℕ → M (Unit {0})
  main fuel = do begin_invocation; for_range num_workers 0 (run_worker fuel); end_invocation
