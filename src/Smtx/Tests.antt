-- ===== src/Smtx/Tests.antt =====
-- The theorems on queues and packet pools at concrete ones.
use cos516_project.Prelude.{
  zero, ℕ, ◌∷◌, ◌*◌, ◌≡◌, List, [], none, true, some, arith, ◌+◌, refl, ◌%◌, ◌<◌, false, suc,
}
use cos516_project.Smtx.Queue.{Queue, reset, produce, consume, empty, clear}
use cos516_project.Smtx.Queue.Traces.{
  run, put, get, Op, Agrees, run_list, run_refines, clear-Represents, consume-empty,
}
use mathlib.Core.List.{Perm}
use cos516_project.Smtx.Mapping.{
  init_queues, fini_queues, init_packets, fini_packets, Pointer, init_tables, init_pool_tables,
}
use cos516_project.Smtx.Packet.{Pool, Pools, get_available_packet, is_packet_available}
use cos516_project.Smtx.Queue.Refine.{
  Represents, produce_full, reset-Represents, produce-Represents,
}
use cos516_project.Smtx.Packet.Scan.{IsFirst}
use cos516_project.Smtx.Mapping.Pools.{released, fini_packets-Perm}
use cos516_project.Smtx.Mapping.Released.{fini_queues-Perm}
use cos516_project.Smtx.Packet.Available.{get_available_packet_lem, get_available_packet_spins}

-- A queue of three pairs, empty, then with two values, then full.
abbrev blank : Queue
blank = record { head = 4; prealloc = 0; tail = 2; prealloc_tail = 0; finished = 1; slots = [] }

abbrev fresh : Queue
fresh = reset (2 * 3) blank

fresh-Represents : Represents 3 fresh []
fresh-Represents = reset-Represents 3 blank (omega arith)

abbrev two_values : Queue
two_values = produce (2 * 3) (produce (2 * 3) fresh 7) 9

two_values-Represents : Represents 3 two_values (7 ∷ 9 ∷ [])
two_values-Represents =
    produce-Represents 3 9 (produce (2 * 3) fresh 7) (7 ∷ [])
      (produce-Represents 3 7 fresh [] fresh-Represents (omega arith)) (omega arith)

abbrev full_queue : Queue
full_queue = produce (2 * 3) two_values 4

full_queue-Represents : Represents 3 full_queue (7 ∷ 9 ∷ 4 ∷ [])
full_queue-Represents =
    produce-Represents 3 4 two_values (7 ∷ 9 ∷ []) two_values-Represents (omega arith)

produce_full_example : (consume (2 * 3) (produce (2 * 3) full_queue 5)).0 ≡ 5
produce_full_example = produce_full 3 5 7 full_queue (9 ∷ 4 ∷ []) full_queue-Represents refl

clear-Represents_example : (q : Queue) × (clear (2 * 3) 4 full_queue ≡ some q) × Represents 3 q []
clear-Represents_example =
    clear-Represents 3 4 full_queue (7 ∷ 9 ∷ 4 ∷ []) full_queue-Represents (omega arith)

abbrev some_calls : List Op
some_calls = get ∷ put 1 ∷ put 2 ∷ get ∷ get ∷ put 3 ∷ []

some_calls-run_list : run_list 3 (7 ∷ 9 ∷ []) some_calls ≡ some (7 ∷ 9 ∷ 1 ∷ [], 2 ∷ 3 ∷ [])
unfolding run_list
some_calls-run_list = refl

run_refines_example : Agrees 3 (run (2 * 3) two_values some_calls) (7 ∷ 9 ∷ 1 ∷ []) (2 ∷ 3 ∷ [])
run_refines_example =
    run_refines 3 some_calls two_values (7 ∷ 9 ∷ []) (7 ∷ 9 ∷ 1 ∷ []) (2 ∷ 3 ∷ [])
      two_values-Represents some_calls-run_list

consume-empty_example : empty (produce (2 * 3) (consume (2 * 3) fresh).1 5) ≡ true
consume-empty_example = consume-empty 3 5 fresh (omega arith) fresh-Represents

-- A pool of four packets of which the second alone is available.
abbrev one_left : Pool
one_left = record { next = 2; ptrs = 4096 ∷ 0 ∷ 8 ∷ 16 ∷ [] }

abbrev none_left : Pool
none_left = record { next = 1; ptrs = 4096 ∷ 8 ∷ [] }

abbrev pools : Pools
pools = record { workers = none_left ∷ one_left ∷ []; commit_process = one_left }

second-available : is_packet_available one_left.ptrs 1 ≡ true
unfolding is_packet_available
second-available = refl

all_busy : (p : ℕ) → p < 2 → is_packet_available none_left.ptrs p ≡ false
unfolding is_packet_available
all_busy zero h = refl
all_busy (suc zero) h = refl
all_busy (suc (suc p)) h = absurd (omega arith)

get_available_packet_lem_example :
    (k : ℕ) × (steps : ℕ) × (get_available_packet 4 1 pools
      ≡ some
          (k, record pools { workers = none_left ∷ record one_left { next = (k + 1) % 4 } ∷ [] }))
    × IsFirst one_left.ptrs 2 steps k
get_available_packet_lem_example =
    get_available_packet_lem 4 1 1 pools one_left refl (omega arith) (omega arith) second-available
      (omega arith)

get_available_packet_spins_example : get_available_packet 100 0 pools ≡ none
get_available_packet_spins_example =
    get_available_packet_spins 100 0 pools none_left refl (omega arith) all_busy

-- Tables of NULL.
abbrev null_table : ℕ → Pointer
null_table k = none

fini_queues-Perm_example : Perm (fini_queues (init_tables null_table 10 2) 10 2) (init_queues 10 2)
fini_queues-Perm_example = fini_queues-Perm null_table (λ k. refl) 10 2

fini_packets-Perm_example :
    Perm (fini_packets (init_pool_tables null_table 12) 12) (released (init_packets 12))
fini_packets-Perm_example = fini_packets-Perm null_table 12
