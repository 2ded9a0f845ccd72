-- ===== src/Smtx/Mapping/Pools.antt =====
-- The calls of the setup of the packet pools against those of the end.
use cos516_project.Prelude.{
  zero, suc, ℕ, ◌∷◌, ◌++◌, ◌≡◌, List, [], ◌*◌, refl, some, ◌∙◌, sym, append_assoc, ap,
}
use mathlib.Core.List.{Perm, perm_append_comm}
use mathlib.Core.List.Perm
use cos516_project.Smtx.Mapping.{
  Mapping, Pointer, init_packets, fini_packets, init_pool_tables, for_calls, of_size, munmap,
  sizeof_packet, sizeof_packet_chunk, packet_pool_size, packet_pool, packet_chunk_pool,
  commit_process_pool, sizeof_pointer, packet_begins, packet_ends, packet_nexts,
  packet_chunk_begins, packet_chunk_ends, packet_chunk_nexts,
}
use cos516_project.Smtx.Mapping.Released.{fill-inside, for_calls-same, Perm-same}

-- What is released of a mapping: the pool of the commit process is not, and of a pool of chunks as
-- many bytes as a pool of packets has.
abbrev released_of : Pointer → ℕ → List Mapping
released_of (some commit_process_pool) size = []
released_of (some (packet_chunk_pool i)) size =
    munmap (some (packet_chunk_pool i)) (sizeof_packet * packet_pool_size)
released_of p size = munmap p size

abbrev pub released : List Mapping → List Mapping
released [] = []
released (m ∷ ms) = released_of m.pointer m.size ++ released ms

released-append : (ms ns : List Mapping) → released (ms ++ ns) ≡ released ms ++ released ns
released-append [] ns = refl
released-append (m ∷ ms) ns =
    ap (λ l. released_of m.pointer m.size ++ l) (released-append ms ns)
    ∙ sym (append_assoc (released_of m.pointer m.size) (released ms) (released ns))

released-for_calls :
    (n i : ℕ) (body : ℕ → List Mapping)
    → released (for_calls n i body) ≡ for_calls n i (λ k. released (body k))
unfolding for_calls
released-for_calls zero i body = refl
released-for_calls (suc n) i body =
    released-append (body i) (for_calls n (suc i) body)
    ∙ ap (λ l. released (body i) ++ l) (released-for_calls n (suc i) body)

-- The first two of three lists change places.
Perm-swap : (ms ns rest : List Mapping) → Perm (ms ++ (ns ++ rest)) (ns ++ (ms ++ rest))
Perm-swap ms ns rest = Perm.trans (Perm-same _ _ (sym (append_assoc ms ns rest))) (
    Perm.trans (Perm.append (perm_append_comm ms ns) (Perm.refl rest))
      (Perm-same _ _ (append_assoc ns ms rest)))

-- A loop with two calls in a round, as two loops.
Perm-two :
    (n i : ℕ) (f g : ℕ → List Mapping)
    → Perm (for_calls n i (λ k. f k ++ g k)) (for_calls n i f ++ for_calls n i g)
unfolding for_calls
Perm-two zero i f g = Perm.refl []
Perm-two (suc n) i f g =
    let F = for_calls n (suc i) f in
    let G = for_calls n (suc i) g in
    Perm.trans (Perm.append (Perm.refl (f i ++ g i)) (Perm-two n (suc i) f g)) (
      Perm.trans (Perm-same _ _ (append_assoc (f i) (g i) (F ++ G))) (
        Perm.trans (Perm.append (Perm.refl (f i)) (Perm-swap (g i) F G))
          (Perm-same _ _ (sym (append_assoc (f i) F (g i ++ G))))))

-- For any number of workers and whatever mmap returns in fresh tables, fini_packets, run on the
-- tables that init_packets leaves, unmaps each mapping of init_packets once, at its pointer, but
-- that of the commit process, and nothing else; the size is that of the mapping, but of each
-- worker's pool of chunks only as many bytes as a pool of packets has.
pub fini_packets-Perm :
    (fresh : ℕ → Pointer) (n_all_workers : ℕ)
    → Perm
        (fini_packets (init_pool_tables fresh n_all_workers) n_all_workers)
        (released (init_packets n_all_workers))
unfolding fini_packets init_packets init_pool_tables
fini_packets-Perm fresh n =
    let table = sizeof_pointer * n in
    let size = sizeof_packet * packet_pool_size in
    let t = init_pool_tables fresh n in
    let pool = λ (i : ℕ). munmap (some (packet_pool i)) size in
    let chunk = λ (i : ℕ). munmap (some (packet_chunk_pool i)) size in
    let P = for_calls n 0 pool in
    let Q = for_calls n 0 chunk in
    let H : List Mapping =
      of_size packet_begins table ∷ of_size packet_ends table ∷ of_size packet_nexts table ∷ [] in
    let C : List Mapping =
      of_size packet_chunk_begins table
      ∷ of_size packet_chunk_ends table
      ∷ of_size packet_chunk_nexts table
      ∷ [] in
    let read =
      for_calls-same n 0 (λ k. munmap (t.begins k) size ++ munmap (t.chunk_begins k) size)
        (λ k. pool k ++ chunk k)
        (λ k lo hi.
          rw
            (
              fill-inside n 0 k (λ i. some (packet_pool i)) fresh lo hi,
              fill-inside n 0 k (λ i. some (packet_chunk_pool i)) fresh lo hi,
            )
            refl) in
    let mapped : H ++ (P ++ (C ++ Q)) ≡ released (init_packets n) = sym (
      ap (λ l. H ++ l)
        (released-append (for_calls n 0 (λ i. of_size (packet_pool i) size ∷ [])) _
          ∙ ap
              (λ l.
                l
                ++ (C
                    ++ released (
                        for_calls n 0 (λ i.
                          of_size (packet_chunk_pool i) (sizeof_packet_chunk * packet_pool_size)
                          ∷ []))))
              (released-for_calls n 0 _)
          ∙ ap (λ l. P ++ (C ++ l)) (released-for_calls n 0 _))) in
    Perm.trans (Perm-same _ _ (ap (λ l. l ++ (H ++ C)) read)) (
      Perm.trans (Perm.append (Perm-two n 0 pool chunk) (Perm.refl (H ++ C))) (
        Perm.trans (perm_append_comm (P ++ Q) (H ++ C)) (
          Perm.trans (Perm-same _ _ (append_assoc H C (P ++ Q)))
            (Perm.trans (Perm.append (Perm.refl H) (Perm-swap C P Q)) (Perm-same _ _ mapped)))))
