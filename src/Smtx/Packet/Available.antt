-- ===== src/Smtx/Packet/Available.antt =====
-- What a search of a pool returns, and how it leaves the pool.
use cos516_project.Prelude.{
  ℕ, ◌<◌, ◌≡◌, length, arith, some, ◌+◌, ◌%◌, true, false, none, ◌∙◌, ap, refl, sym, subst, ◌-◌,
  ◌≤◌, get_elem?, set,
}
use native.Mathlib.Nat.{add-mod-mod, add-mod_right, mod-eq_of_lt, mod-lt}
use cos516_project.Smtx.Packet.{
  is_packet_available, get_available_packet, get_packet, get_available_commit_process_packet, Pools,
  Pool,
}
use cos516_project.Smtx.Packet.Scan.{IsFirst, scan_lem, scan-none, next_packet-mod}

back : (n next p : ℕ) → next < n → p < n → (next + (p + n - next) % n) % n ≡ p
back n next p h hp =
    add-mod-mod next (p + n - next) n
    ∙ ap (λ (t : ℕ). t % n) (omega arith)
    ∙ add-mod_right p n
    ∙ mod-eq_of_lt hp

get_packet_lem :
    (fuel p : ℕ) (pool : Pool)
    → pool.next < length pool.ptrs
    → p < length pool.ptrs
    → is_packet_available pool.ptrs p ≡ true
    → length pool.ptrs ≤ fuel
    → (k : ℕ) × (steps : ℕ) × (get_packet fuel pool
        ≡ some (k, record pool { next = (k + 1) % length pool.ptrs }))
      × IsFirst pool.ptrs pool.next steps k
unfolding get_packet
get_packet_lem fuel p pool h hp av enough =
    let n = length pool.ptrs in
    let far = (p + n - pool.next) % n in
    let away : far < n = mod-lt (p + n - pool.next) (omega arith) in
    let (k, steps, found, first) =
      scan_lem far fuel pool.ptrs pool.next h
        (subst (λ i. is_packet_available pool.ptrs i ≡ true) (sym (back n pool.next p h hp)) av)
        (omega arith) in
    let inside : k < n =
      subst (λ i. i < n) (sym first.place) (mod-lt (pool.next + steps) (omega arith)) in
    (k, steps, rw (found, next_packet-mod n k inside) refl, first)

-- Where the worker has a pool with an available packet, with fuel for its length the loop returns
-- the first available packet in cyclic order, moves the start of the next search behind it, and
-- keeps the other pools.
pub get_available_packet_lem :
    (fuel wid p : ℕ) (pools : Pools) (pool : Pool)
    → get_elem? pools.workers wid ≡ some pool
    → pool.next < length pool.ptrs
    → p < length pool.ptrs
    → is_packet_available pool.ptrs p ≡ true
    → length pool.ptrs ≤ fuel
    → (k : ℕ) × (steps : ℕ) × (get_available_packet fuel wid pools
        ≡ some (
          k,
          record pools {
            workers = set pools.workers wid (record pool { next = (k + 1) % length pool.ptrs });
          },
        ))
      × IsFirst pool.ptrs pool.next steps k
unfolding get_available_packet
get_available_packet_lem fuel wid p pools pool here h hp av enough =
    let (k, steps, found, first) = get_packet_lem fuel p pool h hp av enough in
    (k, steps, rw (here, found) refl, first)

-- Where the pool of the commit process has an available packet, with fuel for its length the loop
-- returns the first available one in cyclic order, moves the start of the next search behind it,
-- and keeps the workers' pools.
get_available_commit_process_packet_lem :
    (fuel p : ℕ) (pools : Pools)
    → pools.commit_process.next < length pools.commit_process.ptrs
    → p < length pools.commit_process.ptrs
    → is_packet_available pools.commit_process.ptrs p ≡ true
    → length pools.commit_process.ptrs ≤ fuel
    → (k : ℕ) × (steps : ℕ) × (get_available_commit_process_packet fuel pools
        ≡ some (
          k,
          record pools {
            commit_process = record pools.commit_process {
              next = (k + 1) % length pools.commit_process.ptrs;
            };
          },
        ))
      × IsFirst pools.commit_process.ptrs pools.commit_process.next steps k
unfolding get_available_commit_process_packet
get_available_commit_process_packet_lem fuel p pools h hp av enough =
    let (k, steps, found, first) = get_packet_lem fuel p pools.commit_process h hp av enough in
    (k, steps, rw found refl, first)

-- Where no packet of the worker's pool is available, no number of rounds of the loop is enough.
pub get_available_packet_spins :
    (fuel wid : ℕ) (pools : Pools) (pool : Pool)
    → get_elem? pools.workers wid ≡ some pool
    → pool.next < length pool.ptrs
    → ((p : ℕ) → p < length pool.ptrs → is_packet_available pool.ptrs p ≡ false)
    → get_available_packet fuel wid pools ≡ none
unfolding get_available_packet get_packet
get_available_packet_spins fuel wid pools pool here h busy =
    rw (here, scan-none fuel pool.ptrs pool.next busy h) refl
