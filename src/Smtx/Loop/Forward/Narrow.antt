-- ===== src/Smtx/Loop/Forward/Narrow.antt =====
-- What forward_packet does to the row of queues of a worker, stage by stage.
use cos516_project.Prelude.{
  zero, suc, ℕ, ◌∷◌, ◌≡◌, Option, List, refl, length, get_elem?, ◌≤◌, none, some, arith, [],
  Bool-cases, ◌==◌, inl, inr, sym, set, ◌∙◌, length-set,
}
use cos516_project.Smtx.Loop.{
  Memory, ok, uncommitted, get_queue, queue_produce, Packet, update_entry, found, put_queue,
  queue_size,
}
use cos516_project.Smtx.Queue.{Queue, produce}
use cos516_project.Smtx.Packet.{Pools, get_available_commit_process_packet, get_available_packet}
use cos516_project.Smtx.Loop.Forward.{get_available, forward_to, take_packet}
use cos516_project.Smtx.Loop.Receive.{create_packet}
use cos516_project.Smtx.Loop.After.{found-After, After, Fails, After-bind}
use cos516_project.Smtx.Loop.Access.{get_elem?-set_found}

-- A worker's row of `ucvf_queues` has at most `n` entries.
unfoldable pub Narrow : ℕ → Memory → ℕ → Type 0
Narrow n s wid =
    (row : List (Option Queue)) → get_elem? s.ucvf_queues wid ≡ some row → length row ≤ n

pub get_elem?-none {ℓ} : {A : Type ℓ} (xs : List A) (i : ℕ) → length xs ≤ i → get_elem? xs i ≡ none
get_elem?-none [] i h = refl
get_elem?-none (x ∷ xs) zero h = absurd (omega arith)
get_elem?-none (x ∷ xs) (suc i) h = get_elem?-none xs i (omega arith)

-- Beyond the row there is no queue.
beyond :
    (n wid i : ℕ) (s : Memory) (row : Option (List (Option Queue)))
    → get_elem? s.ucvf_queues wid ≡ row
    → Narrow n s wid
    → n ≤ i
    → get_queue (uncommitted wid i) s ≡ none
unfolding get_queue Narrow
beyond n wid i s none there narrow h = rw there refl
beyond n wid i s (some row) there narrow h =
    let short = narrow row there in rw (there, get_elem?-none row i (omega arith)) refl

-- A step leaves the tables of queues alone.
abbrev SameQueues {ℓ} : {A : Type ℓ} → Memory → A → Memory → Type 0
SameQueues s a s' = (s'.ucvf_queues ≡ s.ucvf_queues) × (s'.queues ≡ s.queues)

take_packet-SameQueues :
    (o : Option (ℕ × Pools)) (s : Memory) → After (SameQueues s) (take_packet o s)
unfolding After
take_packet-SameQueues none s = tt
take_packet-SameQueues (some (p, pools)) s = (refl, refl)

Narrow-update :
    (n wid i : ℕ) (q : Option Queue) (s : Memory) (row : Option (List (Option Queue)))
    → get_elem? s.ucvf_queues wid ≡ row
    → Narrow n s wid
    → Narrow n (record s { ucvf_queues = update_entry s.ucvf_queues wid i q }) wid
unfolding Narrow
Narrow-update n wid i q s none there narrow = λ row' e. let e1 = rw (update_entry, there) at e in cc
Narrow-update n wid i q s (some row) there narrow = λ row' e.
    let e1 = rw (update_entry, there) at e in
    let e2 = rw (get_elem?-set_found s.ucvf_queues wid row (set row i q) there) at e1 in
    let same : set row i q ≡ row' = cc in rw (sym same) (rw (length-set row i q) (narrow row there))

-- The row of `wid` keeps its length when one of its queues changes.
Narrow-produce :
    (n wid i x : ℕ) (s : Memory)
    → Narrow n s wid
    → After
        (λ _ s'. Narrow n s' wid × (s'.queues ≡ s.queues))
        (queue_produce (uncommitted wid i) x s)
unfolding After queue_produce put_queue
Narrow-produce n wid i x s narrow =
    After-bind (λ _ s'. s' ≡ s) (λ _ s'. Narrow n s' wid × (s'.queues ≡ s.queues))
      (found (get_queue (uncommitted wid i) s) s)
      (λ q s'. ok tt (put_queue (uncommitted wid i) (produce queue_size q x) s'))
      (found-After (get_queue (uncommitted wid i) s) s)
      (λ q s' same. rw same (
        Narrow-update n wid i (some (produce queue_size q x)) s (get_elem? s.ucvf_queues wid) refl
            narrow,
        refl,
      ))

module _ (malloc : Memory → ℕ × Packet) (assigned_heap : ℕ → ℕ → ℕ) (first_wid : ℕ → ℕ)
    (fuel : ℕ) where
  get_available-SameQueues :
      (wid my_stage : ℕ) (s : Memory)
      → After (SameQueues s) (get_available malloc assigned_heap first_wid fuel wid my_stage s)
  unfolding get_available After
  get_available-SameQueues wid my_stage s = elim (Bool-cases (wid == first_wid my_stage)) [
    | inl own ↦ rw own (take_packet-SameQueues (get_available_commit_process_packet fuel s.pools) s)
    | inr other ↦ rw other (
        After-bind (λ _ s'. s' ≡ s) (SameQueues s) (found (get_elem? s.pools.workers wid) s)
          (λ _ s'. take_packet (get_available_packet fuel wid s'.pools) s')
          (found-After (get_elem? s.pools.workers wid) s)
          (λ _ s' same. rw same (take_packet-SameQueues (get_available_packet fuel wid s.pools) s)))
  ]

  create_packet-SameQueues :
      (s : Memory) → After (SameQueues s) (create_packet malloc assigned_heap s)
  unfolding create_packet After
  create_packet-SameQueues s = (refl, refl)

  -- What stands before the call of `__sw_queue_produce` for a stage.
  forward_to-After :
      (wid my_stage i : ℕ) (Q : Unit {0} → Memory → Type 0) (s : Memory)
      → ((p : ℕ) (s' : Memory)
          → (s'.ucvf_queues ≡ s.ucvf_queues) × (s'.queues ≡ s.queues)
          → After Q (queue_produce (uncommitted wid i) p s'))
      → After Q (forward_to malloc assigned_heap first_wid fuel wid my_stage i s)
  unfolding forward_to
  forward_to-After wid my_stage i Q s k =
      After-bind (SameQueues s) Q (get_available malloc assigned_heap first_wid fuel wid my_stage s)
        _ (get_available-SameQueues wid my_stage s)
        (λ _ s1 same.
          After-bind (SameQueues s1) Q (create_packet malloc assigned_heap s1) _
            (create_packet-SameQueues s1)
            (λ p s2 same2. k p s2 (same2.0 ∙ same.0, same2.1 ∙ same.1)))

  pub forward_to-beyond :
      (n wid my_stage i : ℕ) (s : Memory)
      → Narrow n s wid
      → n ≤ i
      → Fails (forward_to malloc assigned_heap first_wid fuel wid my_stage i s)
  unfolding Narrow queue_produce After
  forward_to-beyond n wid my_stage i s narrow h =
      forward_to-After wid my_stage i (λ _ _. ⊥) s
        (λ p s' same.
          let gone =
            beyond n wid i s' (get_elem? s'.ucvf_queues wid) refl
              (λ row e. narrow row (rw (same.0) at e)) h in
          rw gone tt)

  pub forward_to-Narrow :
      (n wid my_stage i : ℕ) (s : Memory)
      → Narrow n s wid
      → After
          (λ _ s'. Narrow n s' wid × (s'.queues ≡ s.queues))
          (forward_to malloc assigned_heap first_wid fuel wid my_stage i s)
  unfolding Narrow
  forward_to-Narrow n wid my_stage i s narrow =
      forward_to-After wid my_stage i (λ _ s'. Narrow n s' wid × (s'.queues ≡ s.queues)) s
        (λ p s' same.
          rw (sym same.1) (Narrow-produce n wid i p s' (λ row e. narrow row (rw (same.0) at e))))
