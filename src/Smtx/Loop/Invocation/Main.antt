-- ===== src/Smtx/Loop/Invocation/Main.antt =====
-- Whether main returns.
use cos516_project.Prelude.{
  suc, ℕ, ◌+◌, ◌∷◌, ◌++◌, ◌≡◌, false, List, arith, ◌<◌, subst, [], get_elem?, sym, ◌%◌,
}
use cos516_project.Smtx.Loop.{set_shadow_heaps, Memory, Packet, M, bind, for_range, found}
use cos516_project.Smtx.Loop.After.{After, Fails, After-bind, Fails-bind, found-After}
use cos516_project.Smtx.Loop.Receive.{begin_iter, busy_wait}
use cos516_project.Smtx.Loop.Forward.{
  forward_packet, forward_pair, forward_heaps, end_iter, num_globals, num_stages,
}
use cos516_project.Smtx.Loop.Forward.Narrow.{Narrow}
use cos516_project.Smtx.Loop.Forward.Returns.{forward_packet-Fails}
use cos516_project.Smtx.Loop.Invocation.{
  worker_iter, worker_iters, main, begin_invocation, max_size, num_iters, num_workers_per_heap,
  num_workers,
}
use cos516_project.Smtx.Loop.Invocation.Keeps.{Keeps, busy_wait-Keeps}
use cos516_project.Smtx.Loop.Invocation.Fresh.{started, started-Narrow}

module _ (malloc : Memory → ℕ × Packet) (assigned_heap : ℕ → ℕ → ℕ) (first_wid : ℕ → ℕ)
    (indeterminate : Memory → ℕ) (update_shadow : M (Unit {0})) (fuel : ℕ) where
  forward_pair-Fails :
      (n wid shadow_size my_stage : ℕ) (s : Memory)
      → Narrow n s wid
      → n < num_stages
      → my_stage + 1 < num_stages
      → Fails (forward_pair malloc assigned_heap first_wid fuel wid shadow_size my_stage s)
  unfolding forward_pair
  forward_pair-Fails n wid shadow_size my_stage s narrow h early =
      Fails-bind (forward_packet malloc assigned_heap first_wid fuel wid shadow_size my_stage s) _ (
        forward_packet-Fails malloc assigned_heap first_wid fuel n wid shadow_size my_stage s narrow
          h early)

  forward_heaps-Fails :
      (n wid my_stage : ℕ) (sizes : Memory → List ℕ) (s : Memory)
      → Narrow n s wid
      → n < num_stages
      → my_stage + 1 < num_stages
      → Fails (forward_heaps malloc assigned_heap first_wid fuel 20 wid my_stage sizes s)
  unfolding forward_heaps for_range
  forward_heaps-Fails n wid my_stage sizes s narrow h early =
      Fails-bind
        (bind (found (get_elem? (sizes s) 0) s)
          (λ size. forward_pair malloc assigned_heap first_wid fuel wid size my_stage))
        _
        (After-bind (λ _ s'. s' ≡ s) (λ _ _. ⊥) (found (get_elem? (sizes s) 0) s) _
          (found-After (get_elem? (sizes s) 0) s)
          (λ size s' same.
            forward_pair-Fails n wid size my_stage s'
              (subst (λ m. Narrow n m wid) (sym same) narrow) h early))

  -- The first call of `__specpriv_end_iter`.
  end_iter-Fails :
      (iter : ℕ) (s : Memory)
      → ((s : Memory) → After (Keeps s) (update_shadow s))
      → Narrow 10 s 0
      → Fails (end_iter malloc assigned_heap first_wid fuel update_shadow 0 iter 0 s)
  unfolding end_iter Narrow
  end_iter-Fails iter s keeps narrow =
      After-bind (Keeps s) (λ _ _. ⊥) (update_shadow s) _ (keeps s)
        (λ _ s1 e1.
          Fails-bind
            (forward_heaps malloc assigned_heap first_wid fuel num_globals 0 0
              (λ s. s.shadow_globals) s1)
            _
            (forward_heaps-Fails 10 0 0 (λ s. s.shadow_globals) s1
              (λ row e. narrow row (rw e1 at e)) (omega arith) (omega arith)))

  -- The first iteration of the first worker.
  worker_iter-Fails :
      (s : Memory)
      → ((s : Memory) → After (Keeps s) (update_shadow s))
      → Narrow 10 s 0
      → Fails (
          worker_iter malloc assigned_heap first_wid indeterminate update_shadow fuel 0 0 0 false s)
  unfolding worker_iter begin_iter for_range Narrow
  worker_iter-Fails s keeps narrow =
      let s0 = record s { work = s.work ++ set_shadow_heaps ∷ [] } in
      After-bind (Keeps s0) (λ _ _. ⊥) (busy_wait indeterminate fuel 0 0 s0) _
        (busy_wait-Keeps indeterminate fuel 0 0 s0)
        (λ _ s1 e1.
          Fails-bind (end_iter malloc assigned_heap first_wid fuel update_shadow 0 0 0 s1) _
            (end_iter-Fails 0 s1 keeps (λ row e. narrow row (rw e1 at e))))

  for_range-Fails :
      (n first : ℕ) (body : ℕ → M (Unit {0})) (s : Memory)
      → Fails (body first s)
      → Fails (for_range (suc n) first body s)
  unfolding for_range
  for_range-Fails n first body s h = Fails-bind (body first s) _ h

  worker_iters-Fails :
      (n : ℕ) (s : Memory)
      → ((s : Memory) → After (Keeps s) (update_shadow s))
      → Narrow 10 s 0
      → Fails (
          worker_iters malloc assigned_heap first_wid indeterminate update_shadow fuel
            (suc n)
            0
            0
            0
            false
            s)
  unfolding worker_iters
  worker_iters-Fails n s keeps narrow =
      Fails-bind
        (worker_iter malloc assigned_heap first_wid indeterminate update_shadow fuel 0 0 0 false s)
        _ (worker_iter-Fails s keeps narrow)

  -- Where updating the shadows leaves the queues in their places, main of translation/ returns
  -- for no amount of fuel and no behaviour of malloc, of the macros on heaps and workers, and of
  -- the uninitialised variable.
  pub main-Fails :
      (s : Memory)
      → ((s : Memory) → After (Keeps s) (update_shadow s))
      → Fails (main malloc assigned_heap first_wid indeterminate update_shadow fuel s)
  unfolding main begin_invocation
  main-Fails s keeps =
      let s0 = started max_size max_size max_size s in
      let workers : ℕ → M (Unit {0}) = λ w.
        worker_iters malloc assigned_heap first_wid indeterminate update_shadow fuel num_iters 0 w
          (w % num_workers_per_heap) false in
      Fails-bind (for_range num_workers 0 workers s0) _ (
        for_range-Fails 9 0 workers s0
          (worker_iters-Fails 1 s0 keeps (started-Narrow max_size max_size max_size s)))
