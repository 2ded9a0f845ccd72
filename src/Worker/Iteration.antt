-- ===== src/Worker/Iteration.antt =====
-- loopevent_orig.cpp: which worker runs an iteration, and what each does at the end of one.
-- PROFILE is off; the blocks under `#if 0` are left out.
use cos516_project.Prelude.{
  zero, ℕ, List, Bool, ◌%◌, ◌^◌, if◌then◌else◌, replicate, ltb, ◌+◌, length, ◌==◌, ◌-◌, ◌*◌,
}
use cos516_project.Worker.Forward.{
  end_pages, Call, broadcast_malloc_chunk, broadcast_eoi, send, Platform, Page, forward_ro_page,
  Sender,
}
pub mod Turns
pub mod Delivery

-- The macros that tell how the workers are spread over the stages: code that stands elsewhere.
pub record Stages : Type 0 where
  pub my_stage : ℕ → ℕ
  pub first_wid : ℕ → ℕ
  pub replication_factor : ℕ → ℕ
  pub wid_offset : ℕ → ℕ → ℕ

-- `(Wid)iter` keeps the low 32 bits.
abbrev pub to_wid : ℕ → ℕ
to_wid iter = iter % 2 ^ 32

unfoldable pub run_iteration : Stages → ℕ → ℕ → Bool
run_iteration st wid iter =
    let stage = st.my_stage wid in
    let wid_offset = to_wid iter % st.replication_factor stage in
    let target_wid = (st.first_wid stage + wid_offset) % 2 ^ 32 in target_wid == wid

unfoldable pub pipeline_fill_iter : Stages → ℕ → ℕ → Bool
pipeline_fill_iter st wid iter = ltb ((st.first_wid (st.my_stage wid) + iter) % 2 ^ 32) wid

-- The test before the EOI packet; unsigned subtraction.
unfoldable pub sends_eoi : Stages → ℕ → ℕ → Bool
sends_eoi st wid iter =
    let stage = st.my_stage wid in
    (wid + 2 ^ 32 - st.first_wid stage) % 2 ^ 32 == st.wid_offset (to_wid iter) stage

-- What `end_iter` touches: the pages in the order of its three loops, the buffer of versioned
-- allocations, and the count of iterations.
pub record Worker : Type 0 where
  pub shadow_globals : List Page
  pub shadow_stacks : List Page
  pub shadow_heaps : List Page
  pub malloc_elem : List ℕ
  pub malloc_index : ℕ
  pub sender : Sender
  pub iter : ℕ

-- Code that stands elsewhere: update_shadow_for_loop_invariants and
-- update_shadow_for_linear_predicted_values on the pages of a loop, advance_iter on the count, and
-- the size of a VerMallocInstance.
pub record Runtime : Type 0 where
  pub update_loop_invariants : List Page → List Page
  pub update_linear_predicted : List Page → List Page
  pub advance_iter : ℕ → ℕ
  pub malloc_instance_size : ℕ

abbrev pub update_shadows : Runtime → List Page → List Page
update_shadows h ps = h.update_linear_predicted (h.update_loop_invariants ps)

unfoldable pub send_mallocs : Runtime → Worker → Worker
send_mallocs h w = record w {
  sender =
      send (broadcast_malloc_chunk w.malloc_elem (w.malloc_index * h.malloc_instance_size))
        w.sender;
  malloc_elem = replicate (length w.malloc_elem) 0;
  malloc_index = 0;
}

-- The three loops, and the buffer of read-only pages after them.
unfoldable pub send_pages : Platform → Worker → Worker
send_pages u w =
    let globals = end_pages u w.shadow_globals w.sender in
    let stacks = end_pages u w.shadow_stacks globals.0 in
    let heaps = end_pages u w.shadow_heaps stacks.0 in
    record w {
      shadow_globals = globals.1;
      shadow_stacks = stacks.1;
      shadow_heaps = heaps.1;
      sender = forward_ro_page u.buffer_address heaps.0;
    }

unfoldable pub send_iteration : Platform → Runtime → Worker → Worker
send_iteration u h w = send_pages u (
    send_mallocs h (record w {
      shadow_globals = update_shadows h w.shadow_globals;
      shadow_stacks = update_shadows h w.shadow_stacks;
      shadow_heaps = update_shadows h w.shadow_heaps;
    }))

unfoldable pub end_iter : Stages → Platform → Runtime → ℕ → Worker → Worker
end_iter st u h wid w =
    let sent = if run_iteration st wid w.iter then send_iteration u h w else w in
    let told =
      if sends_eoi st wid w.iter
      then record sent { sender = send broadcast_eoi sent.sender }
      else sent in
    record told { iter = h.advance_iter told.iter }
