-- ===== src/Smtx/Packet.antt =====
-- translation/packet.c: the pools of packets, one for each worker and one for the commit process.
-- A pool is the list of its packets' `ptr` fields; pointers into it are indices.
use cos516_project.Prelude.{
  zero, ℕ, if◌then◌else◌, List, Option, leb, Bool, none, suc, get_or, ◌+◌, ◌==◌, length, not, some,
  get_elem?, set,
}
pub mod Scan
pub mod Available

infixl 20 ◌>>=◌
abbrev ◌>>=◌ {ℓ κ} : {A : Type ℓ} {B : Type κ} → Option A → (A → Option B) → Option B
none >>= f = none
some a >>= f = f a

pub record Pool : Type 0 where
  pub next : ℕ
  pub ptrs : List ℕ

-- The pools by worker, and that of the commit process.
pub record Pools : Type 0 where
  pub workers : List Pool
  pub commit_process : Pool

unfoldable pub is_packet_available : List ℕ → ℕ → Bool
is_packet_available ptrs p = get_or ptrs p 1 == 0

-- `next++; if (next >= bound) next = begin;`
abbrev pub next_packet : ℕ → ℕ → ℕ
next_packet bound next = if leb bound (next + 1) then 0 else next + 1

-- The loop, with a bound on its rounds.
pub scan : ℕ → List ℕ → ℕ → Option ℕ
scan zero ptrs next = none
scan (suc fuel) ptrs next =
    let rest = scan fuel ptrs (next_packet (length ptrs) next) in
    if not (is_packet_available ptrs next) then rest else some next

-- The packet taken, and the pool afterwards.
pub get_packet : ℕ → Pool → Option (ℕ × Pool)
get_packet fuel pool = do
  next ← scan fuel pool.ptrs pool.next
  some (next, record pool { next = next_packet (length pool.ptrs) next })

-- On a worker without a pool the code reads out of bounds.
pub get_available_packet : ℕ → ℕ → Pools → Option (ℕ × Pools)
get_available_packet fuel wid pools = do
  pool ← get_elem? pools.workers wid
  (next, after) ← get_packet fuel pool
  some (next, record pools { workers = set pools.workers wid after })

pub get_available_commit_process_packet : ℕ → Pools → Option (ℕ × Pools)
get_available_commit_process_packet fuel pools = do
  (next, after) ← get_packet fuel pools.commit_process
  some (next, record pools { commit_process = after })
