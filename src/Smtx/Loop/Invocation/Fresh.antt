-- ===== src/Smtx/Loop/Invocation/Fresh.antt =====
-- What the start of an invocation sets up, and what its end leaves.
use cos516_project.Prelude.{
  zero, suc, ℕ, ◌+◌, ◌≡◌, [], ◌<◌, length, get_elem?, ◌≤◌, arith, refl, none, some, ap, ◌∙◌, Option,
  ltb, true, if◌then◌else◌, false, sym,
}
use cos516_project.Smtx.Queue.{Queue}
use cos516_project.Smtx.Queue.Refine.{Represents, reset-Represents}
use cos516_project.Smtx.Loop.{
  Memory, ok, bind, uncommitted, aux, reverse, get_queue, entry, QueueRef, join,
}
use cos516_project.Smtx.Loop.Access.{Queued}
use cos516_project.Smtx.Loop.Invocation.{
  tabulate, create, init_queues, init_packets, init_heaps, begin_invocation, end_invocation,
  num_workers, num_aux_workers, fresh_pcb, num_all_workers, unmap, uncommitted_row,
}
use cos516_project.Smtx.Loop.Forward.Narrow.{Narrow}

get_elem?-tabulate {ℓ} :
    {A : Type ℓ} (n first k : ℕ) (f : ℕ → A)
    → k < n
    → get_elem? (tabulate n first f) k ≡ some (f (first + k))
unfolding tabulate
get_elem?-tabulate zero first k f h = absurd (omega arith)
get_elem?-tabulate (suc n) first zero f h = ap (λ i. some (f i)) (omega arith)
get_elem?-tabulate (suc n) first (suc k) f h =
    get_elem?-tabulate n (suc first) k f (omega arith) ∙ ap (λ i. some (f i)) (omega arith)

length-tabulate {ℓ} : {A : Type ℓ} (n first : ℕ) (f : ℕ → A) → length (tabulate n first f) ≡ n
unfolding tabulate
length-tabulate zero first f = refl
length-tabulate (suc n) first f = rw (length-tabulate n (suc first) f) refl

get_elem?-array {ℓ} :
    {A : Type ℓ} (n k : ℕ) (f : ℕ → A) → k < n → get_elem? (tabulate n 0 f) k ≡ some (f k)
get_elem?-array n k f h = get_elem?-tabulate n 0 k f h ∙ ap (λ i. some (f i)) (omega arith)

-- A table of `n` rows of `m` entries.
entry-table {ℓ} :
    {A : Type ℓ} (n m i j : ℕ) (f : ℕ → ℕ → A)
    → i < n
    → j < m
    → entry (get_elem? (tabulate n 0 (λ i. tabulate m 0 (f i))) i) j ≡ some (f i j)
entry-table n m i j f hi hj =
    ap (λ row. entry row j) (get_elem?-array n i (λ i. tabulate m 0 (f i)) hi)
    ∙ get_elem?-array m j (f i) hj

pub create-Represents : Represents 8192 create []
unfolding create
create-Represents = reset-Represents 8192 _ (omega arith)

abbrev pub started : ℕ → ℕ → ℕ → Memory → Memory
started global_size heap_size stack_size s =
    record (init_heaps global_size heap_size stack_size
      (init_queues num_workers num_aux_workers (init_packets num_all_workers s))) {
        pcb = some fresh_pcb;
      }

is_created : ℕ → ℕ → Option Queue
is_created i j = if ltb i j then some create else none

-- begin_invocation returns the number of workers and sets up an empty queue from each worker to
-- each later one, none to an earlier one or itself, one from each worker to each auxiliary
-- worker, one from each auxiliary worker, and one from the commit process to each worker.
pub begin_invocation-Queued :
    (global_size heap_size stack_size : ℕ) (s : Memory)
    → (s' : Memory) × (begin_invocation global_size heap_size stack_size s ≡ ok num_workers s')
      × ((i j : ℕ) → i < j → j < num_workers → Queued (uncommitted i j) s' [])
      × ((i j : ℕ)
          → i < num_workers
          → j < num_workers
          → j ≤ i
          → get_queue (uncommitted i j) s' ≡ none)
      × ((i j : ℕ) → i < num_workers → j < num_aux_workers → Queued (aux i j) s' [])
      × ((i : ℕ) → i < num_workers → Queued (reverse i) s' [])
      × ((i : ℕ)
          → i < num_aux_workers
          → (q : Queue) × (get_elem? s'.commit_queues i ≡ some q) × Represents 8192 q [])
unfolding begin_invocation init_queues init_packets init_heaps get_queue Queued is_created
begin_invocation-Queued global_size heap_size stack_size s = (
  started global_size heap_size stack_size s,
  refl,
  λ i j below h.
      let there = entry-table num_workers num_workers i j is_created (omega arith) h in
      let yes : ltb i j ≡ true = ground (arith, below) in
      (create, ap join there ∙ rw yes refl, create-Represents),
  λ i j hi hj above.
      let there = entry-table num_workers num_workers i j is_created hi hj in
      let no : ltb i j ≡ false = ground (arith, above) in ap join there ∙ rw no refl,
  λ i j hi hj. (
    create,
    entry-table num_workers num_aux_workers i j (λ _ _. create) hi hj,
    create-Represents,
  ),
  λ i h. (create, get_elem?-array num_workers i (λ _. create) h, create-Represents),
  λ i h. (create, get_elem?-array num_aux_workers i (λ _. create) h, create-Represents),
)

-- No row of `ucvf_queues` is longer than the number of workers.
pub started-Narrow :
    (global_size heap_size stack_size : ℕ) (s : Memory)
    → Narrow num_workers (started global_size heap_size stack_size s) 0
unfolding Narrow init_queues init_packets init_heaps is_created
started-Narrow global_size heap_size stack_size s row e =
    let first = get_elem?-array num_workers 0 (uncommitted_row num_workers) (omega arith) in
    let same : uncommitted_row num_workers 0 ≡ row = cc in
    let width : length (uncommitted_row num_workers 0) ≡ num_workers =
      length-tabulate num_workers 0 (is_created 0) in
    rw (sym same) (rw width (omega arith))

unmap-get_queue : (ref : QueueRef) (s : Memory) → get_queue ref (unmap s) ≡ none
unfolding get_queue
unmap-get_queue (uncommitted i j) s = refl
unmap-get_queue (aux i j) s = refl
unmap-get_queue (reverse i) s = refl

-- Ending an invocation that has just begun leaves no queue and no PCB, and the packets as they
-- were.
pub begin_invocation-end_invocation :
    (global_size heap_size stack_size : ℕ) (s : Memory)
    → (s' : Memory) × (bind
          (begin_invocation global_size heap_size stack_size s)
          (λ _. end_invocation)
        ≡ ok 0 s')
      × (s'.pcb ≡ none)
      × (s'.packets ≡ s.packets)
      × ((ref : QueueRef) → get_queue ref s' ≡ none)
unfolding begin_invocation end_invocation init_queues init_packets init_heaps get_queue
begin_invocation-end_invocation global_size heap_size stack_size s = (
  unmap (started global_size heap_size stack_size s),
  refl,
  refl,
  refl,
  λ ref. unmap-get_queue ref (started global_size heap_size stack_size s),
)
