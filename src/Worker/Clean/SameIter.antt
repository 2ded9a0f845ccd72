-- ===== src/Worker/Clean/SameIter.antt =====
-- The iterations and invocations of the copy against those of the runtime.
use cos516_project.Prelude.{
  true, false, zero, suc, ℕ, ◌∷◌, ◌++◌, none, some, List, ◌≡◌, Bool, refl, Bool-cases, false,
  append-nil, inl, ◌∙◌, append_assoc, inr, ap, [], sym, ◌==◌, not, Option, ◌&&◌, if◌then◌else◌,
}
use mathlib.Core.Option
use cos516_project.Worker.Forward
use cos516_project.Worker.Forward.{Sender, Platform, Page, is_touched, clear_touched}
use cos516_project.Worker.Iteration
use cos516_project.Worker.Iteration.{Stages, Worker, Runtime, sends_eoi}
use cos516_project.Worker.Start
use cos516_project.Worker.Start.{
  process_incoming_packets, update_loop_invariants, update_linear_predicted_values,
  to_try_commit_boi, reset_protection, Pcb, Event, Outcome, returned, process_reverse_commit_queue,
}
use cos516_project.Worker.Invocation
use cos516_project.Worker.Invocation.{Host, Process}
use cos516_project.Worker.Clean.Iter
use cos516_project.Worker.Clean.Same.{clear_read-same, forward_pair-same, forward_ro_page-same}

end_page-same :
    (u : Platform) (p : Page) (s : Sender) → Iter.end_page u p s ≡ Forward.end_page u p s
unfolding Iter.end_page Forward.end_page
end_page-same u p s = elim (Bool-cases (is_touched p.shadow)) [
  | inl touched ↦ rw (touched, clear_read-same (clear_touched p.shadow), forward_pair-same) refl
  | inr untouched ↦ rw untouched refl
]

end_pages-same :
    (u : Platform) (ps : List Page) (s : Sender) (before : List Page)
    → let r = Forward.end_pages u ps s in Iter.end_pages u ps s before ≡ (r.0, before ++ r.1)
unfolding Iter.end_pages Forward.end_pages
end_pages-same u [] s before = rw (append-nil before) refl
end_pages-same u (p ∷ ps) s before = rw (end_page-same u p s) (
    end_pages-same u ps (Forward.end_page u p s).0 _
    ∙ rw (append_assoc before ((Forward.end_page u p s).1 ∷ []) _) refl)

run_iteration-same :
    (st : Stages) (wid iter : ℕ)
    → Iter.run_iteration st wid iter ≡ Iteration.run_iteration st wid iter
unfolding Iter.run_iteration Iteration.run_iteration
run_iteration-same st wid iter = refl

send_iteration-same :
    (u : Platform) (h : Runtime) (w : Worker)
    → Iter.send_iteration u h w ≡ Iteration.send_iteration u h w
unfolding Iter.send_iteration Iteration.send_iteration Iteration.send_mallocs Iteration.send_pages
send_iteration-same u h w =
    rw (end_pages-same, end_pages-same, end_pages-same, forward_ro_page-same) refl

-- end_iter of loopevent.cpp leaves the same pages, buffers and calls, and the same iteration, as
-- that of loopevent_orig.cpp.
pub end_iter-same :
    (st : Stages) (u : Platform) (h : Runtime) (wid : ℕ) (w : Worker)
    → Iter.end_iter st u h wid w ≡ Iteration.end_iter st u h wid w
unfolding Iter.end_iter Iteration.end_iter sends_eoi
end_iter-same st u h wid w =
    rw (run_iteration-same st wid w.iter, send_iteration-same u h w)
      (elim (Bool-cases (sends_eoi st wid w.iter)) [
        | inl mine ↦ rw mine refl
        | inr other ↦ rw other refl
      ])

map-append :
    (events more : List Event) (o : Option (List Event))
    → Option.map (λ l. (events ++ more) ++ l) o
      ≡ Option.map (λ l. events ++ l) (Option.map (λ l. more ++ l) o)
map-append events more none = refl
map-append events more (some l) = ap some (append_assoc events more l)

-- The reads of the flag, after the events so far.
wait-same :
    (fuel k : ℕ) (good_to_go : ℕ → Bool) (events : List Event)
    → Iter.wait fuel good_to_go k events
      ≡ Option.map (λ more. events ++ more) (Start.wait fuel good_to_go k)
unfolding Iter.wait Start.wait
wait-same zero k good_to_go events = refl
wait-same (suc fuel) k good_to_go events = elim (Bool-cases (good_to_go k)) [
  | inl good ↦ rw good (ap some (sym (append-nil events)))
  | inr busy ↦ rw busy (
      wait-same fuel (suc k) good_to_go (events ++ process_reverse_commit_queue ∷ [])
      ∙ map-append events (process_reverse_commit_queue ∷ []) (Start.wait fuel good_to_go (suc k)))
]

-- Two optional parts, appended in one go or one after the other.
two_parts :
    (first second : Bool) (xs ys zs : List Event)
    → xs ++ ((if first then ys else []) ++ (if second then zs else []))
      ≡ (let so_far = if first then xs ++ ys else xs in if second then so_far ++ zs else so_far)
two_parts true true xs ys zs = sym (append_assoc xs ys zs)
two_parts true false xs ys zs = rw (append-nil ys) refl
two_parts false true xs ys zs = refl
two_parts false false xs ys zs = append-nil xs

after_wait-same :
    (st : Stages) (pcb : Pcb) (wid iter : ℕ) (waited : List Event)
    → Start.check_misspec pcb iter ≡ false
    → Start.after_wait st pcb wid iter waited ≡ returned (Iter.after_wait st wid iter waited)
unfolding Start.after_wait
after_wait-same st pcb wid iter waited none_seen =
    rw (none_seen, run_iteration-same st wid iter)
      (ap returned (
        two_parts (not (iter == 0) && (st.my_stage wid == 0)) (Iteration.run_iteration st wid iter)
          (waited ++ process_incoming_packets ∷ [])
          (update_loop_invariants ∷ update_linear_predicted_values ∷ to_try_commit_boi ∷ [])
          (reset_protection ∷ [])))

map-after_wait :
    (st : Stages) (pcb : Pcb) (wid iter : ℕ) (o : Option (List Event))
    → Start.check_misspec pcb iter ≡ false
    → Option.map (Start.after_wait st pcb wid iter) o
      ≡ Option.map returned (Option.map (Iter.after_wait st wid iter) (Option.map (λ l. [] ++ l) o))
map-after_wait st pcb wid iter none none_seen = refl
map-after_wait st pcb wid iter (some l) none_seen =
    ap some (after_wait-same st pcb wid iter l none_seen)

-- Where check_misspec does not end the process, begin_iter of loopevent_orig.cpp returns after
-- the calls that begin_iter of loopevent.cpp makes, and runs out of fuel where that does.
pub begin_iter-same :
    (st : Stages) (pcb : Pcb) (fuel wid iter : ℕ) (good_to_go : ℕ → Bool)
    → Start.check_misspec pcb iter ≡ false
    → Start.begin_iter st pcb fuel good_to_go wid iter
      ≡ Option.map returned (Iter.begin_iter st fuel good_to_go wid iter)
unfolding Iter.begin_iter Start.begin_iter Start.after_wait
begin_iter-same st pcb fuel wid iter good_to_go none_seen = elim (Bool-cases (iter == 0)) [
  | inl first ↦ rw first (map-after_wait st pcb wid iter (some []) none_seen)
  | inr later ↦
      rw (later, wait-same fuel 0 good_to_go [])
        (map-after_wait st pcb wid iter (Start.wait fuel good_to_go 0) none_seen)
]

-- Where NUM_AVAIL_WORKERS is the number that the host gives, the two files begin and end an
-- invocation alike.
invocation-same :
    (host : Host) (p : Process)
    → (Iter.begin_invocation host host.num_available_workers p ≡ Invocation.begin_invocation host p)
      × (Iter.end_invocation host p ≡ Invocation.end_invocation host p)
unfolding Iter.begin_invocation Invocation.begin_invocation Iter.end_invocation
    Invocation.end_invocation
invocation-same host p = (refl, refl)
