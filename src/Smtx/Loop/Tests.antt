-- ===== src/Smtx/Loop/Tests.antt =====
-- The theorems on the loop events at concrete memories.
use cos516_project.Prelude.{
  ℕ, ◌∷◌, ◌++◌, All, Option, List, [], none, arith, refl, ◌≡◌, some, if◌then◌else◌, ◌==◌, length,
  false, true, ◌<◌, ◌↔◌, ◌≤◌, ◌+◌, sym, get_elem?,
}
use cos516_project.Smtx.Queue.{Queue, produce}
use cos516_project.Smtx.Queue.Refine.{Represents, produce-Represents}
use cos516_project.Smtx.Loop.{
  Memory, Packet, ok, bind, uncommitted, aux, reverse, get_queue, nothing,
}
use cos516_project.Smtx.Loop.Access.{Queued}
use cos516_project.Smtx.Loop.After.{After, Fails}
use cos516_project.Smtx.Loop.Receive.{receive, begin_iter, busy_wait, num_aux_workers}
use cos516_project.Smtx.Loop.Messages.{
  Message, words, page, instances, stream, work_on, headers, Released, IsDone, Is, Stands, header,
  shadows,
}
use cos516_project.Smtx.Loop.Handle.{malloc_work}
use cos516_project.Smtx.Loop.Stream.{Batch, InMemory, batches, batches_work, begin_iter-batches}
use cos516_project.Smtx.Loop.RoundTrip.{send, send-receive}
use cos516_project.Smtx.Loop.Drain.{Loaded, reverse_commit_work, busy_wait-drains}
use cos516_project.Smtx.Loop.Forward.{forward_packet, num_stages}
use cos516_project.Smtx.Loop.Forward.Narrow.{Narrow}
use cos516_project.Smtx.Loop.Forward.Returns.{forward_packet-returns}
use cos516_project.Smtx.Loop.Invocation.{create, begin_invocation, main, num_workers}
use cos516_project.Smtx.Loop.Invocation.Fresh.{create-Represents, begin_invocation-Queued}
use cos516_project.Smtx.Loop.Invocation.Keeps.{Keeps}
use cos516_project.Smtx.Loop.Invocation.Main.{main-Fails}

abbrev packet : ℕ → ℕ → Packet
packet type is_write = record { ptr = 4096; value = 3; size = 0; is_write = is_write; type = type }

-- Two pairs, the instances of an ALLOC packet, the end; then two packets of the commit process.
abbrev packets : ℕ → Option Packet
packets a =
    if a == 1
    then some (packet 0 0)
    else if a == 3
    then some (packet 1 1)
    else if a == 5
    then some (packet 3 0)
    else if a == 6
    then some (packet 2 0)
    else if a == 7
    then some (packet 3 0)
    else if a == 8
    then some (packet 3 1)
    else none

abbrev memory : Queue → Queue → Memory
memory first back = record {
  ucvf_queues = (none ∷ some first ∷ []) ∷ (none ∷ none ∷ []) ∷ [];
  queues = (create ∷ create ∷ []) ∷ (create ∷ create ∷ []) ∷ [];
  commit_queues = create ∷ [];
  reverse_commit_queues = create ∷ back ∷ [];
  packets = packets;
  pools = record { workers = []; commit_process = record { next = 0; ptrs = 0 ∷ [] } };
  pcb = none;
  is_ver = 0 ∷ 1 ∷ [];
  shadow_heaps = [];
  shadow_globals = [];
  shadow_stacks = [];
  work = [];
}

abbrev malloc : Memory → ℕ × Packet
malloc s = (100, packet 0 0)

abbrev assigned_heap : ℕ → ℕ → ℕ
assigned_heap wid stage = stage

abbrev messages : List Message
messages = words 1 2 ∷ page 3 4 ∷ instances 5 ∷ []

stand : (first back : Queue) → InMemory 9 (memory first back) (messages, 6)
unfolding InMemory Stands Is IsDone header
stand first back = (
  omega arith,
  (
    (packet 0 0, refl, refl),
    ((packet 1 1, refl, (refl, omega arith)), ((packet 3 0, refl, (refl, refl)), tt)),
  ),
  (packet 2 0, refl, refl),
)

queued : (back : Queue) → Queued (uncommitted 0 1) (memory create back) []
unfolding Queued get_queue
queued back = (create, refl, create-Represents)

messages-short : length (stream messages 6 []) ≤ 8192
unfolding stream shadows
messages-short = omega arith

send-receive_example :
    (s : Memory) × (bind
        (send (uncommitted 0 1) (stream messages 6 []) (memory create create))
        (λ _. receive malloc assigned_heap 9 1 1)
      ≡ ok tt s)
    × Queued (uncommitted 0 1) s []
    × (s.work ≡ [] ++ work_on (malloc_work malloc assigned_heap 1 1 1) messages)
    × All (Released s) (headers messages 6)
send-receive_example =
    send-receive malloc assigned_heap 1 1 1 9 messages 6 (memory create create)
      (stand create create) (queued create) messages-short refl

-- A queue that holds the messages of one stage.
abbrev five_values : Queue
five_values =
    produce 16384 (produce 16384 (produce 16384 (produce 16384 (produce 16384 create 1) 2) 3) 4) 5

abbrev filled : Queue
filled = produce 16384 five_values 6

filled-Represents : Represents 8192 filled (1 ∷ 2 ∷ 3 ∷ 4 ∷ 5 ∷ 6 ∷ [])
filled-Represents =
    let put = λ (v : ℕ) (q : Queue) (xs : List ℕ) (r : Represents 8192 q xs) (h : length xs < 8192).
      produce-Represents 8192 v q xs r h in
    put 6 _ _
      (put 5 _ _
        (put 4 _ _
          (put 3 _ _ (put 2 _ _ (put 1 _ _ create-Represents (omega arith)) (omega arith))
            (omega arith))
          (omega arith))
        (omega arith))
      (omega arith)

abbrev one_batch : List Batch
one_batch = (messages, 6) ∷ []

filled-Queued :
    (back : Queue) → Queued (uncommitted 0 1) (memory filled back) (batches one_batch [])
unfolding Queued get_queue batches stream header shadows
filled-Queued back = (filled, refl, filled-Represents)

begin_iter-batches_example :
    (s : Memory) × (begin_iter malloc assigned_heap 9 1 1 1 false (memory filled create) ≡ ok tt s)
    × Queued (uncommitted 0 1) s []
    × (s.work ≡ [] ++ batches_work (malloc_work malloc assigned_heap 1 1 1) one_batch)
begin_iter-batches_example =
    begin_iter-batches malloc assigned_heap 1 1 1 9 1 one_batch [] (memory filled create)
      (omega arith) refl (stand filled create, tt) (filled-Queued create) refl

-- An allocation in each of the two ways.
abbrev two_values : Queue
two_values = produce 16384 (produce 16384 create 7) 8

two_values-Represents : Represents 8192 two_values (7 ∷ 8 ∷ [])
two_values-Represents =
    produce-Represents 8192 8 (produce 16384 create 7) (7 ∷ [])
      (produce-Represents 8192 7 create [] create-Represents (omega arith)) (omega arith)

back-Queued : Queued (reverse 1) (memory create two_values) (7 ∷ 8 ∷ [])
unfolding Queued get_queue
back-Queued = (two_values, refl, two_values-Represents)

abbrev two_packets : List Packet
two_packets = packet 3 0 ∷ packet 3 1 ∷ []

back-Loaded : Loaded (memory create two_values) (7 ∷ 8 ∷ []) two_packets
unfolding Loaded
back-Loaded = (refl, omega arith, (refl, omega arith, tt))

abbrev left_over : Memory → ℕ
left_over s = 0

busy_wait-drains_example :
    (s : Memory) × (busy_wait left_over 3 1 1 (memory create two_values) ≡ ok tt s)
    × Queued (reverse 1) s []
    × (s.work ≡ [] ++ reverse_commit_work left_over 1 1 true (λ s. refl) two_packets)
busy_wait-drains_example =
    busy_wait-drains left_over 1 1 true (λ s. refl) 3 (7 ∷ 8 ∷ []) two_packets
      (memory create two_values) (omega arith) back-Queued back-Loaded

abbrev first_wid : ℕ → ℕ
first_wid stage = stage

rows_short : Narrow 2 (memory create create) 1
unfolding Narrow
rows_short row e =
    let empty_row : List (Option Queue) = none ∷ none ∷ [] in
    let same : empty_row ≡ row = cc in rw (sym same) (omega arith)

forward_packet-returns_example :
    ((s : Memory) × (forward_packet malloc assigned_heap first_wid 5 1 4096 19
          (memory create create)
        ≡ ok tt s))
    ↔ ((num_stages ≤ 19 + 1) × (1 < 2))
forward_packet-returns_example =
    forward_packet-returns malloc assigned_heap first_wid 5 2 1 4096 19 (memory create create)
      (create ∷ create ∷ []) rows_short (omega arith) refl

begin_invocation-Queued_example :
    (s : Memory) × (begin_invocation 4096 4096 4096 (memory create create) ≡ ok num_workers s)
    × ((i j : ℕ) → i < j → j < num_workers → Queued (uncommitted i j) s [])
    × ((i j : ℕ) → i < num_workers → j < num_workers → j ≤ i → get_queue (uncommitted i j) s ≡ none)
    × ((i j : ℕ) → i < num_workers → j < num_aux_workers → Queued (aux i j) s [])
    × ((i : ℕ) → i < num_workers → Queued (reverse i) s [])
    × ((i : ℕ)
        → i < num_aux_workers
        → (q : Queue) × (get_elem? s.commit_queues i ≡ some q) × Represents 8192 q [])
begin_invocation-Queued_example = begin_invocation-Queued 4096 4096 4096 (memory create create)

nothing-Keeps : (s : Memory) → After (Keeps s) (nothing s)
unfolding After
nothing-Keeps s = refl

main-Fails_example :
    Fails (main malloc assigned_heap first_wid left_over nothing 5 (memory create create))
main-Fails_example =
    main-Fails malloc assigned_heap first_wid left_over nothing 5 (memory create create)
      nothing-Keeps
