-- ===== src/Worker/Iteration/Delivery.antt =====
-- What the end of an iteration sends, and what it leaves.
use cos516_project.Prelude.{
  ℕ, ◌∷◌, List, All, ◌++◌, ◌≡◌, ap, [], ◌∙◌, sym, append_assoc, refl, append-nil, ◌≢◌, true, false,
  arith, ◌*◌,
}
use cos516_project.Worker.Forward.Buffer.{
  IsBuffer, named_pages, ro_pages, entries, forward_ro_page-ro_pages, forward_ro_page-none_left,
}
use cos516_project.Worker.Forward.{
  broadcast_malloc_chunk, broadcast_eoi, Page, Platform, end_pages, Sender, send,
}
use cos516_project.Worker.Iteration.{
  run_iteration, sends_eoi, send_pages, Worker, end_iter, Runtime, send_iteration, Stages,
  update_shadows, send_mallocs,
}
use cos516_project.Worker.Forward.Pages.{IsPlatform, end_pages-IsUntouched, IsUntouched}
use cos516_project.Worker.Iteration.Turns.{IsStage, IsOf, turn, run_iteration_iff, sends_eoi_lem}
use cos516_project.Worker.Forward.ReadOnly.{
  readonly_pages, Adds, IsPage, readonly_page, end_pages-Adds, calls-Adds, Adds-trans,
}

-- The pages of a worker, in the order of the loops.
abbrev all_pages : Worker → List Page
all_pages w = w.shadow_globals ++ (w.shadow_stacks ++ w.shadow_heaps)

readonly_pages-append :
    (ps qs : List Page) → readonly_pages (ps ++ qs) ≡ readonly_pages ps ++ readonly_pages qs
readonly_pages-append [] qs = refl
readonly_pages-append (p ∷ ps) qs =
    ap (◌++◌ (readonly_page p)) (readonly_pages-append ps qs)
    ∙ sym (append_assoc (readonly_page p) (readonly_pages ps) (readonly_pages qs))

-- The pages of a worker, those of each loop, and its buffer are well formed.
pub record IsWorker (w : Worker) : Type 0 where
  pub globals : All IsPage w.shadow_globals
  pub stacks : All IsPage w.shadow_stacks
  pub heaps : All IsPage w.shadow_heaps
  pub buffer : IsBuffer w.sender

-- The sender after the three loops.
abbrev after_loops : Platform → Worker → Sender
after_loops u w =
    let globals = end_pages u w.shadow_globals w.sender in
    let stacks = end_pages u w.shadow_stacks globals.0 in (end_pages u w.shadow_heaps stacks.0).0

after_loops-Adds :
    (u : Platform) (w : Worker)
    → IsPlatform u
    → IsWorker w
    → Adds w.sender (readonly_pages (all_pages w)) (after_loops u w)
after_loops-Adds u w hu hw =
    let (g, st, hp) : List Page × List Page × List Page =
      (w.shadow_globals, w.shadow_stacks, w.shadow_heaps) in
    let s1 = (end_pages u g w.sender).0 in
    let s2 = (end_pages u st s1).0 in
    let a = end_pages-Adds u g w.sender hu hw.globals hw.buffer in
    let b = end_pages-Adds u st s1 hu hw.stacks a.0 in
    let c = end_pages-Adds u hp s2 hu hw.heaps b.0 in
    let bc = Adds-trans s1 s2 (after_loops u w) (readonly_pages st) (readonly_pages hp) b c in
    let (ok, total) = Adds-trans w.sender s1 (after_loops u w) (readonly_pages g) _ a bc in
    (
      ok,
      total
          ∙ ap (◌++◌ (ro_pages w.sender)) (
              sym (
                readonly_pages-append g (st ++ hp)
                ∙ ap (◌++◌ (readonly_pages g)) (readonly_pages-append st hp))),
    )

-- From `w` to `t`: the calls name, after those that they named before and those that waited, every
-- touched page that was read and not written, in order; none waits, and no page is marked.
pub record Delivered (w t : Worker) : Type 0 where
  pub named : named_pages t.sender.calls ≡ ro_pages w.sender ++ readonly_pages (all_pages w)
  none_waits : entries t.sender.data_ ≡ []
  globals_clear : All IsUntouched t.shadow_globals
  stacks_clear : All IsUntouched t.shadow_stacks
  heaps_clear : All IsUntouched t.shadow_heaps
  pub buffer : IsBuffer t.sender

send_pages-Delivered :
    (u : Platform) (w : Worker) → IsPlatform u → IsWorker w → Delivered w (send_pages u w)
unfolding send_pages
send_pages-Delivered u w hu hw =
    let g = end_pages u w.shadow_globals w.sender in
    let st = end_pages u w.shadow_stacks g.0 in
    let (full, total) = after_loops-Adds u w hu hw in
    let (ok, same) = forward_ro_page-ro_pages u.buffer_address (after_loops u w) full in
    let left = forward_ro_page-none_left u.buffer_address (after_loops u w) full in
    record {
      named = sym (append-nil _) ∙ ap (◌++◌ _) (sym left) ∙ same ∙ total;
      none_waits = left;
      globals_clear = end_pages-IsUntouched u w.shadow_globals w.sender hu;
      stacks_clear = end_pages-IsUntouched u w.shadow_stacks g.0 hu;
      heaps_clear = end_pages-IsUntouched u w.shadow_heaps st.0 hu;
      buffer = ok;
    }

mallocs-Adds :
    (r : Runtime) (w : Worker) → IsBuffer w.sender → Adds w.sender [] (send_mallocs r w).sender
unfolding send_mallocs
mallocs-Adds r w h =
    calls-Adds (broadcast_malloc_chunk w.malloc_elem (w.malloc_index * r.malloc_instance_size) ∷ [])
      w.sender refl h

send_mallocs-Delivered :
    (u : Platform) (r : Runtime) (w : Worker)
    → IsPlatform u
    → IsWorker w
    → Delivered w (send_pages u (send_mallocs r w))
unfolding send_mallocs
send_mallocs-Delivered u r w hu hw =
    let (ok, same) = mallocs-Adds r w hw.buffer in
    let d =
      send_pages-Delivered u (send_mallocs r w) hu
        (record { globals = hw.globals; stacks = hw.stacks; heaps = hw.heaps; buffer = ok }) in
    record {
      named =
          d.named
          ∙ ap (λ (ps : List ℕ). ps ++ readonly_pages (all_pages w))
              (same ∙ append-nil (ro_pages w.sender));
      none_waits = d.none_waits;
      globals_clear = d.globals_clear;
      stacks_clear = d.stacks_clear;
      heaps_clear = d.heaps_clear;
      buffer = d.buffer;
    }

-- The worker as the loops find it, after the predicted values are marked.
abbrev pub updated : Runtime → Worker → Worker
updated h w = record w {
  shadow_globals = update_shadows h w.shadow_globals;
  shadow_stacks = update_shadows h w.shadow_stacks;
  shadow_heaps = update_shadows h w.shadow_heaps;
}

-- Where the pages, the buffer, the stage and the functions of utils.h are well formed, the worker
-- whose turn it is names every touched page that was read and not written in its calls, leaves
-- none waiting and no page marked, empties the allocation buffer, sends the EOI last, and
-- advances the iteration.
pub end_iter-Delivered :
    (st : Stages) (u : Platform) (h : Runtime) (stage wid : ℕ) (w : Worker)
    → IsStage st stage
    → IsPlatform u
    → IsOf st stage wid
    → wid ≡ turn st stage w.iter
    → IsWorker (updated h w)
    → (t : Worker) × Delivered (updated h w) t
      × (t.malloc_index ≡ 0)
      × (t.iter ≡ w.iter)
      × (end_iter st u h wid w
          ≡ record t { sender = send broadcast_eoi t.sender; iter = h.advance_iter w.iter })
unfolding end_iter send_iteration send_pages send_mallocs
end_iter-Delivered st u h stage wid w hst hu hof mine hw =
    let runs : run_iteration st wid w.iter ≡ true =
      (run_iteration_iff st stage wid w.iter hst hof).1 mine in
    let tells : sends_eoi st wid w.iter ≡ true = sends_eoi_lem st stage wid w.iter hst hof ∙ runs in
    (
      send_iteration u h w,
      send_mallocs-Delivered u h (updated h w) hu hw,
      refl,
      refl,
      rw (runs, tells) refl,
    )

-- A worker of a well-formed stage whose turn it is not only advances the iteration.
end_iter_idle :
    (st : Stages) (u : Platform) (h : Runtime) (stage wid : ℕ) (w : Worker)
    → IsStage st stage
    → IsOf st stage wid
    → wid ≢ turn st stage w.iter
    → end_iter st u h wid w ≡ record w { iter = h.advance_iter w.iter }
unfolding end_iter
end_iter_idle st u h stage wid w hst hof other =
    let rests : run_iteration st wid w.iter ≡ false =
      ground (arith, other, (run_iteration_iff st stage wid w.iter hst hof).0) in
    let quiet : sends_eoi st wid w.iter ≡ false =
      sends_eoi_lem st stage wid w.iter hst hof ∙ rests in
    rw (rests, quiet) refl
