-- ===== src/Smtx/Mapping.antt =====
-- translation/queue.c and translation/packet.c: what is mapped at the start and unmapped at the end,
-- as the calls of mmap and munmap in their order, each with its pointer and its size. Where a pointer
-- is kept in a table, the end reads it from there.
use cos516_project.Prelude.{
  zero, ℕ, ◌∷◌, ◌++◌, ◌+◌, ◌*◌, List, if◌then◌else◌, ◌-◌, [], suc, Option, none, some, ◌==◌,
}
pub mod Pools
pub mod Released

-- The pointers that mmap returns.
pub data Region : Type 0 where
  ucvf_queues : Region
  ucvf_row : ℕ → Region
  ucvf_queue : ℕ → ℕ → Region
  queues : Region
  queue_row : ℕ → Region
  queue : ℕ → ℕ → Region
  commit_queues : Region
  commit_queue : ℕ → Region
  reverse_commit_queues : Region
  reverse_commit_queue : ℕ → Region
  packet_begins packet_ends packet_nexts : Region
  packet_pool : ℕ → Region
  commit_process_pool : Region
  packet_chunk_begins packet_chunk_ends packet_chunk_nexts : Region
  packet_chunk_pool : ℕ → Region

-- NULL is `none`.
abbrev pub Pointer : Type 0
Pointer = Option Region

-- A call: the pointer, and the size that is passed.
pub record Mapping : Type 0 where
  pub pointer : Pointer
  pub size : ℕ

abbrev pub sizeof_pointer : ℕ
sizeof_pointer = 8

-- Four pointers, an int with its padding, and the array of pointers.
abbrev sizeof_queue : ℕ
sizeof_queue = 4 * 8 + 8 + 8 * (8192 * 2)

-- Two pointers, 4 + 2 + 2 bytes, and 8 more.
abbrev pub sizeof_packet : ℕ
sizeof_packet = 8 + 8 + 4 + 2 + 2 + 8

-- MAX_STAGE_NUM bytes and a page.
abbrev pub sizeof_packet_chunk : ℕ
sizeof_packet_chunk = 64 + 4 * 1024

abbrev pub packet_pool_size : ℕ
packet_pool_size = 8192 * 2 * 4 * 8

-- A call of mmap that returns `r`.
abbrev pub of_size : Region → ℕ → Mapping
of_size r size = record { pointer = some r; size = size }

abbrev pub munmap : Pointer → ℕ → List Mapping
munmap p size = record { pointer = p; size = size } ∷ []

-- The calls of a loop from `i` on, for `n` rounds.
unfoldable pub for_calls : ℕ → ℕ → (ℕ → List Mapping) → List Mapping
for_calls zero i body = []
for_calls (suc n) i body = body i ++ for_calls n (suc i) body

-- `__sw_queue_create` maps a queue, and `__sw_queue_free` unmaps it.
abbrev pub sw_queue_create : Region → List Mapping
sw_queue_create r = of_size r sizeof_queue ∷ []

abbrev pub sw_queue_free : Pointer → List Mapping
sw_queue_free p = munmap p sizeof_queue

-- The four parts of `init_queues`.
abbrev pub map_ucvf : ℕ → List Mapping
map_ucvf n_workers =
    of_size ucvf_queues (sizeof_pointer * n_workers)
    ∷ for_calls n_workers 0 λ i.
      of_size (ucvf_row i) (sizeof_pointer * n_workers)
      ∷ for_calls (n_workers - (i + 1)) (i + 1) (λ j. sw_queue_create (ucvf_queue i j))

abbrev pub map_queues : ℕ → ℕ → List Mapping
map_queues n_workers n_aux_workers =
    of_size queues (sizeof_pointer * n_workers)
    ∷ for_calls n_workers 0 λ i.
      of_size (queue_row i) (sizeof_pointer * n_aux_workers)
      ∷ for_calls n_aux_workers 0 (λ j. sw_queue_create (queue i j))

abbrev map_commit : ℕ → List Mapping
map_commit n_aux_workers =
    of_size commit_queues (sizeof_pointer * n_aux_workers)
    ∷ for_calls n_aux_workers 0 (λ i. sw_queue_create (commit_queue i))

abbrev map_reverse : ℕ → List Mapping
map_reverse n_workers =
    of_size reverse_commit_queues (sizeof_pointer * n_workers)
    ∷ for_calls n_workers 0 (λ i. sw_queue_create (reverse_commit_queue i))

unfoldable pub init_queues : ℕ → ℕ → List Mapping
init_queues n_workers n_aux_workers =
    map_ucvf n_workers
    ++ (map_queues n_workers n_aux_workers ++ (map_commit n_aux_workers ++ map_reverse n_workers))

-- A loop over the indices from `i` on that writes an array, for `n` rounds.
unfoldable pub fill {ℓ} : {A : Type ℓ} → ℕ → ℕ → (ℕ → A) → (ℕ → A) → ℕ → A
fill zero i f row = row
fill (suc n) i f row = fill n (suc i) f (λ j. if j == i then f i else row j)

-- What the tables hold: the pointers to their rows, and the entries of the rows.
pub record Tables : Type 0 where
  pub ucvf_rows : ℕ → Pointer
  pub ucvf_entries : ℕ → ℕ → Pointer
  pub queue_rows : ℕ → Pointer
  pub queue_entries : ℕ → ℕ → Pointer
  pub commit_entries : ℕ → Pointer
  pub reverse_entries : ℕ → Pointer

-- What `init_queues` writes into them, where `fresh` is what a table holds that mmap has returned.
unfoldable pub init_tables : (ℕ → Pointer) → ℕ → ℕ → Tables
init_tables fresh n_workers n_aux_workers = record {
  ucvf_rows = fill n_workers 0 (λ i. some (ucvf_row i)) fresh;
  ucvf_entries =
      fill n_workers 0 (λ i. fill (n_workers - (i + 1)) (i + 1) (λ j. some (ucvf_queue i j)) fresh)
        (λ i. fresh);
  queue_rows = fill n_workers 0 (λ i. some (queue_row i)) fresh;
  queue_entries =
      fill n_workers 0 (λ i. fill n_aux_workers 0 (λ j. some (queue i j)) fresh) (λ i. fresh);
  commit_entries = fill n_aux_workers 0 (λ i. some (commit_queue i)) fresh;
  reverse_entries = fill n_workers 0 (λ i. some (reverse_commit_queue i)) fresh;
}

-- `if (queue) __sw_queue_free(queue)`
abbrev pub free_unless_null : Pointer → List Mapping
free_unless_null none = []
free_unless_null (some r) = sw_queue_free (some r)

-- The four parts of `fini_queues`.
abbrev pub unmap_ucvf : Tables → ℕ → List Mapping
unmap_ucvf t n_workers =
    for_calls n_workers 0 (λ i.
      for_calls n_workers 0 (λ j. free_unless_null (t.ucvf_entries i j))
      ++ munmap (t.ucvf_rows i) (sizeof_pointer * n_workers))
    ++ munmap (some ucvf_queues) (sizeof_pointer * n_workers)

abbrev pub unmap_queues : Tables → ℕ → ℕ → List Mapping
unmap_queues t n_workers n_aux_workers =
    for_calls n_workers 0 (λ i.
      for_calls n_aux_workers 0 (λ j. free_unless_null (t.queue_entries i j))
      ++ munmap (t.queue_rows i) (sizeof_pointer * n_aux_workers))
    ++ munmap (some queues) (sizeof_pointer * n_workers)

abbrev pub unmap_commit : Tables → ℕ → List Mapping
unmap_commit t n_aux_workers =
    for_calls n_aux_workers 0 (λ i. sw_queue_free (t.commit_entries i))
    ++ munmap (some commit_queues) (sizeof_pointer * n_aux_workers)

abbrev pub unmap_reverse : Tables → ℕ → List Mapping
unmap_reverse t n_workers =
    for_calls n_workers 0 (λ i. sw_queue_free (t.reverse_entries i))
    ++ munmap (some reverse_commit_queues) (sizeof_pointer * n_workers)

unfoldable pub fini_queues : Tables → ℕ → ℕ → List Mapping
fini_queues t n_workers n_aux_workers =
    unmap_ucvf t n_workers
    ++ (unmap_queues t n_workers n_aux_workers
        ++ (unmap_commit t n_aux_workers ++ unmap_reverse t n_workers))

-- The tables of pools.
pub record PoolTables : Type 0 where
  pub begins : ℕ → Pointer
  pub chunk_begins : ℕ → Pointer

unfoldable pub init_packets : ℕ → List Mapping
init_packets n_all_workers =
    let table = sizeof_pointer * n_all_workers in
    of_size packet_begins table
    ∷ of_size packet_ends table
    ∷ of_size packet_nexts table
    ∷ (for_calls n_all_workers 0
          (λ i. of_size (packet_pool i) (sizeof_packet * packet_pool_size) ∷ [])
        ++ (of_size commit_process_pool (sizeof_packet * packet_pool_size)
            ∷ of_size packet_chunk_begins table
            ∷ of_size packet_chunk_ends table
            ∷ of_size packet_chunk_nexts table
            ∷ for_calls n_all_workers 0
                (λ i. of_size (packet_chunk_pool i) (sizeof_packet_chunk * packet_pool_size) ∷ [])))

-- The pointers of `packet_begins` and `packet_chunk_begins` that `init_packets` writes.
unfoldable pub init_pool_tables : (ℕ → Pointer) → ℕ → PoolTables
init_pool_tables fresh n_all_workers = record {
  begins = fill n_all_workers 0 (λ i. some (packet_pool i)) fresh;
  chunk_begins = fill n_all_workers 0 (λ i. some (packet_chunk_pool i)) fresh;
}

unfoldable pub fini_packets : PoolTables → ℕ → List Mapping
fini_packets t n_all_workers =
    let table = sizeof_pointer * n_all_workers in
    for_calls n_all_workers 0 (λ i.
      munmap (t.begins i) (sizeof_packet * packet_pool_size)
      ++ munmap (t.chunk_begins i) (sizeof_packet * packet_pool_size))
    ++ (munmap (some packet_begins) table
        ++ (munmap (some packet_ends) table
            ++ (munmap (some packet_nexts) table
                ++ (munmap (some packet_chunk_begins) table
                    ++ (munmap (some packet_chunk_ends) table
                        ++ munmap (some packet_chunk_nexts) table)))))
