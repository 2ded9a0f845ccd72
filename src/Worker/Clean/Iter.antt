-- ===== src/Worker/Clean/Iter.antt =====
-- loopevent.cpp: the start and the end of an iteration and of an invocation.
use cos516_project.Prelude.{
  zero, suc, ℕ, ◌+◌, ◌∷◌, ◌++◌, none, some, List, ◌%◌, Bool, if◌then◌else◌, Option, ◌^◌, [], ◌*◌,
  replicate, ◌==◌, not, ◌-◌, ◌&&◌, length,
}
use mathlib.Core.Option
use cos516_project.Worker.Forward.{
  Sender, Platform, Page, check_required, send, broadcast_malloc_chunk, broadcast_eoi, is_touched,
  clear_touched,
}
use cos516_project.Worker.Iteration.{Stages, Worker, Runtime, to_wid}
use cos516_project.Worker.Start.{
  Event, process_reverse_commit_queue, process_incoming_packets, update_loop_invariants,
  update_linear_predicted_values, to_try_commit_boi, reset_protection,
}
use cos516_project.Worker.Invocation.{ControlBlock, Process, Host, get_pcb, no_iteration}
use cos516_project.Worker.Clean.{clear_read, forward_pair, forward_ro_page}

unfoldable pub run_iteration : Stages → ℕ → ℕ → Bool
run_iteration st wid iter =
    let stage = st.my_stage wid in
    (st.first_wid stage + to_wid iter % st.replication_factor stage) % 2 ^ 32 == wid

-- check_misspec reads the PCB, the worker's number and the iteration, and uses none of them.
unfoldable pub check_misspec : ControlBlock → ℕ → ℕ → Unit {0}
check_misspec pcb wid iter = tt

-- The calls of begin_iter; `none` means that the fuel of the waiting loop ran out.
unfoldable pub wait : ℕ → (ℕ → Bool) → ℕ → List Event → Option (List Event)
wait zero good_to_go k events = none
wait (suc fuel) good_to_go k events =
    let more = wait fuel good_to_go (suc k) (events ++ process_reverse_commit_queue ∷ []) in
    if good_to_go k then some events else more

abbrev pub after_wait : Stages → ℕ → ℕ → List Event → List Event
after_wait st wid iter waited =
    let received = waited ++ process_incoming_packets ∷ [] in
    let predicted =
      if not (iter == 0) && (st.my_stage wid == 0)
      then received
        ++ update_loop_invariants ∷ update_linear_predicted_values ∷ to_try_commit_boi ∷ []
      else received in
    if run_iteration st wid iter then predicted ++ reset_protection ∷ [] else predicted

unfoldable pub begin_iter : Stages → ℕ → (ℕ → Bool) → ℕ → ℕ → Option (List Event)
begin_iter st fuel good_to_go wid iter =
    Option.map (after_wait st wid iter) (if iter == 0 then some [] else wait fuel good_to_go 0 [])

-- The body of the three loops of end_iter.
unfoldable pub end_page : Platform → Page → Sender → Sender × Page
end_page u p s =
    if is_touched p.shadow
    then (let cleared = clear_touched p.shadow in
        if u.is_zero_page cleared
        then (s, record p { shadow = cleared })
        else (let r = clear_read cleared in
            forward_pair u r.0 (record p { shadow = r.1 }) check_required s))
    else (s, p)

-- A loop, with the pages of the earlier rounds.
unfoldable pub end_pages : Platform → List Page → Sender → List Page → Sender × List Page
end_pages u [] s before = (s, before)
end_pages u (p ∷ ps) s before = let r = end_page u p s in end_pages u ps r.0 (before ++ r.1 ∷ [])

-- What a worker does on its turn.
unfoldable pub send_iteration : Platform → Runtime → Worker → Worker
send_iteration u h w =
    let update = λ (ps : List Page). h.update_linear_predicted (h.update_loop_invariants ps) in
    let told =
      send (broadcast_malloc_chunk w.malloc_elem (w.malloc_index * h.malloc_instance_size))
        w.sender in
    let globals = end_pages u (update w.shadow_globals) told [] in
    let stacks = end_pages u (update w.shadow_stacks) globals.0 [] in
    let heaps = end_pages u (update w.shadow_heaps) stacks.0 [] in
    record w {
      malloc_elem = replicate (length w.malloc_elem) 0;
      malloc_index = 0;
      shadow_globals = globals.1;
      shadow_stacks = stacks.1;
      shadow_heaps = heaps.1;
      sender = forward_ro_page u.buffer_address heaps.0;
    }

unfoldable pub end_iter : Stages → Platform → Runtime → ℕ → Worker → Worker
end_iter st u h wid w =
    let stage = st.my_stage wid in
    let sent = if run_iteration st wid w.iter then send_iteration u h w else w in
    let mine =
      (wid + 2 ^ 32 - st.first_wid stage) % 2 ^ 32 == st.wid_offset (to_wid w.iter) stage in
    record sent {
      sender = if mine then send broadcast_eoi sent.sender else sent.sender;
      iter = h.advance_iter sent.iter;
    }

-- The number of workers is __specpriv_num_workers here, and so another parameter.
unfoldable pub begin_invocation : Host → ℕ → Process → ℕ × Process
begin_invocation host num_workers p =
    let pcb = get_pcb host p in
    (
      num_workers % 2 ^ 32,
      record {
        pcb = some (record {
          exit_taken = 0;
          misspeculation_happened = 0;
          misspeculated_worker = 0;
          misspeculated_iteration = no_iteration;
          last_committed_iteration = no_iteration;
        });
        affinity = host.core ∷ [];
        old_affinity = p.affinity;
        stack_bound = host.ebp;
        current_iter = host.first_iter;
      },
    )

unfoldable pub end_invocation : Host → Process → ℕ × Process
end_invocation host p =
    let pcb = get_pcb host p in (pcb.exit_taken, record p { pcb = none; affinity = p.old_affinity })
