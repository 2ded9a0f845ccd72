-- ===== src/Smtx/Loop.antt =====
-- translation/loopevent_trans.c with translation/heap.c: what the loop events read and write, and
-- how a step of them can end. A packet is reached by its address, 0 being NULL.
pub mod Access
pub mod After
pub mod Drain
pub mod Forward
pub mod Handle
pub mod Invocation
pub mod Messages
pub mod Receive
pub mod RoundTrip
pub mod Stream
mod Tests
use cos516_project.Prelude.{
  zero, suc, ℕ, ◌+◌, List, Option, none, some, get_elem?, set, if◌then◌else◌, ◌==◌, Bool, true,
  false, [], ◌∷◌, ◌++◌, ◌*◌,
}
use cos516_project.Smtx.Queue.{Queue, produce, consume, empty}
use cos516_project.Smtx.Packet.{Pools}

-- `packet`; an int16_t is its bits. The field `sign` is not used.
pub record Packet : Type 0 where
  pub ptr : ℕ
  pub value : ℕ
  pub size : ℕ
  pub is_write : ℕ
  pub type : ℕ

-- `pcb_t`, less the reason of a misspeculation, which is always NULL.
pub record Pcb : Type 0 where
  pub exit_taken : ℕ
  pub misspeculation_happened : ℕ
  pub misspeculated_worker : ℕ
  pub misspeculated_iteration : ℕ
  pub last_committed_iteration : ℕ

-- The calls of the functions that stand for a cost and do nothing.
pub data Work : Type 0 where
  update_page : Work
  update_ver_malloc : Work
  update_ver_separation_malloc : Work
  set_shadow_heaps : Work

-- Where a queue stands: `ucvf_queues[i][j]`, `queues[i][j]`, `reverse_commit_queues[i]`.
pub data QueueRef : Type 0 where
  uncommitted : ℕ → ℕ → QueueRef
  aux : ℕ → ℕ → QueueRef
  reverse : ℕ → QueueRef

-- The entries of `ucvf_queues` that `init_queues` leaves out are NULL. `is_ver` lists that field of
-- `heaps`, and the last three list the sizes in `shadow_heaps` and its kin.
pub record Memory : Type 0 where
  pub ucvf_queues : List (List (Option Queue))
  pub queues : List (List Queue)
  pub commit_queues : List Queue
  pub reverse_commit_queues : List Queue
  pub packets : ℕ → Option Packet
  pub pools : Pools
  pub pcb : Option Pcb
  pub is_ver : List ℕ
  pub shadow_heaps : List ℕ
  pub shadow_globals : List ℕ
  pub shadow_stacks : List ℕ
  pub work : List Work

-- A step ends with a value, with an access that no object contains, with an assertion that does not
-- hold, or, in the model, out of fuel.
pub data Outcome {ℓ} (A : Type ℓ) : Type ℓ where
  ok : A → Memory → Outcome A
  fault : Outcome A
  aborted : Outcome A
  out_of_fuel : Outcome A

abbrev pub M {ℓ} : Type ℓ → Type ℓ
M A = Memory → Outcome A

abbrev pub bind {ℓ κ} : {A : Type ℓ} {B : Type κ} → Outcome A → (A → M B) → Outcome B
bind (ok a s) f = f a s
bind fault f = fault
bind aborted f = aborted
bind out_of_fuel f = out_of_fuel

infixl 20 ◌>>=◌
abbrev pub ◌>>=◌ {ℓ κ} : {A : Type ℓ} {B : Type κ} → M A → (A → M B) → M B
m >>= f = λ s. bind (m s) f

infixl 20 ◌>>◌
abbrev pub ◌>>◌ {ℓ κ} : {A : Type ℓ} {B : Type κ} → M A → M B → M B
m >> k = m >>= λ _. k

abbrev pub pure {ℓ} : {A : Type ℓ} → A → M A
pure a = λ s. ok a s

abbrev pub nothing : M (Unit {0})
nothing = pure tt

-- An access that must find something.
abbrev pub found {ℓ} : {A : Type ℓ} → Option A → M A
found none = λ _. fault
found (some a) = pure a

abbrev pub log : Work → M (Unit {0})
log w = λ s. ok tt (record s { work = s.work ++ w ∷ [] })

-- `for (i = first; ...; i++)` for `n` rounds.
unfoldable pub for_range : ℕ → ℕ → (ℕ → M (Unit {0})) → M (Unit {0})
for_range zero first body = nothing
for_range (suc n) first body = do body first; for_range n (suc first) body

abbrev pub join : Option (Option Queue) → Option Queue
join none = none
join (some o) = o

abbrev pub entry {ℓ} : {A : Type ℓ} → Option (List A) → ℕ → Option A
entry none j = none
entry (some row) j = get_elem? row j

unfoldable pub get_queue : QueueRef → Memory → Option Queue
get_queue (uncommitted i j) s = join (entry (get_elem? s.ucvf_queues i) j)
get_queue (aux i j) s = entry (get_elem? s.queues i) j
get_queue (reverse i) s = get_elem? s.reverse_commit_queues i

abbrev pub update_entry {ℓ} : {A : Type ℓ} → List (List A) → ℕ → ℕ → A → List (List A)
update_entry table i j a = elim (get_elem? table i) [
  | none ↦ table
  | some row ↦ set table i (set row j a)
]

unfoldable pub put_queue : QueueRef → Queue → Memory → Memory
put_queue (uncommitted i j) q s = record s { ucvf_queues = update_entry s.ucvf_queues i j (some q) }
put_queue (aux i j) q s = record s { queues = update_entry s.queues i j q }
put_queue (reverse i) q s = record s { reverse_commit_queues = set s.reverse_commit_queues i q }

abbrev pub queue_size : ℕ
queue_size = 8192 * 2

unfoldable pub queue_produce : QueueRef → ℕ → M (Unit {0})
queue_produce ref value = do
  q ← λ s. found (get_queue ref s) s
  λ s. ok tt (put_queue ref (produce queue_size q value) s)

unfoldable pub queue_consume : QueueRef → M ℕ
queue_consume ref = do
  q ← λ s. found (get_queue ref s) s
  let (value, after) = consume queue_size q in λ s. ok value (put_queue ref after s)

unfoldable pub queue_empty : QueueRef → M Bool
queue_empty ref = do q ← λ s. found (get_queue ref s) s; pure (empty q)

-- The packet at an address.
unfoldable pub load : ℕ → M Packet
load p = λ s. found (s.packets p) s

abbrev pub clear_ptr : Option Packet → Option Packet
clear_ptr none = none
clear_ptr (some packet) = some (record packet { ptr = 0 })

-- `p->ptr = NULL`
unfoldable pub release : ℕ → Memory → Memory
release p s = record s { packets = λ a. if a == p then clear_ptr (s.packets a) else s.packets a }
