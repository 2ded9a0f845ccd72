-- ===== src/Cost/Machine.antt =====
-- The globals of simplified_translation/: the state of the cost model, the outcome of running code
-- on it, access to the tallies through pointers, and the two kinds of loops.
pub mod Rules
use mathlib.Core.Option
use cos516_project.Prelude.{
  ℕ, zero, suc, ◌+◌, ℤ, pos, negsuc, List, [], Option, none, some, get_elem?, get_or, set,
  replicate,
}
use cos516_project.Cost.Constants.{
  max_loads, max_contexts, num_aux_workers, num_heaps, num_globals, num_stacks, num_workers,
}

-- The four families of queues, each queue a tally of its packets.
pub record Queues : Type 0 where
  pub ucvf : List (List ℤ)
  pub queues : List (List ℤ)
  pub commit : List ℤ
  pub reverse : List ℤ

-- `loop_invariant_buffer`, `linear_predictors`, `num_loop_invariant_loads`, `num_contexts`
pub record Buffers : Type 0 where
  pub invariants : List (List ℕ)
  pub predictors : List (List ℕ)
  pub loads : ℕ
  pub contexts : ℕ

-- `heap_t`
pub record Heap : Type 0 where
  pub kind : ℕ
  pub is_ver : ℕ

-- `shadow_t`
pub record Shadow : Type 0 where
  pub permissions : List ℕ
  pub size : ℕ

pub record Heaps : Type 0 where
  pub heaps : List Heap
  pub shadow_heaps : List Shadow
  pub shadow_globals : List Shadow
  pub shadow_stacks : List Shadow

-- `__cost` is the number that the analysis bounds; it is not cut to an `int`.
pub record Machine : Type 0 where
  pub cost : ℕ
  pub ro_pages : ℕ
  pub tallies : Queues
  pub buffers : Buffers
  pub memory : Heaps

-- The globals at the start of `main`: all zero but the three with an initialiser.
abbrev pub blank_shadow : Shadow
blank_shadow = record { permissions = replicate num_workers 0; size = 0 }

abbrev pub start : Machine
start = record {
  cost = 0;
  ro_pages = 5;
  tallies = record {
    ucvf = replicate num_workers (replicate num_workers (pos 0));
    queues = replicate num_workers (replicate num_aux_workers (pos 0));
    commit = replicate num_aux_workers (pos 0);
    reverse = replicate num_workers (pos 0);
  };
  buffers = record {
    invariants = replicate max_loads (replicate max_contexts 0);
    predictors = replicate max_loads (replicate max_contexts 0);
    loads = max_loads;
    contexts = max_contexts;
  };
  memory = record {
    heaps = replicate num_heaps (record { kind = 0; is_ver = 0 });
    shadow_heaps = replicate num_heaps blank_shadow;
    shadow_globals = replicate num_globals blank_shadow;
    shadow_stacks = replicate num_stacks blank_shadow;
  };
}

-- `fault` is an access out of bounds, which C leaves undefined; `spin` means that the fuel of a
-- `while` loop ran out.
pub data Run (A : Type 0) : Type 0 where
  ok : A → Machine → Run A
  fault : Run A
  spin : Run A

abbrev pub M : Type 0 → Type 0
M A = Machine → Run A

abbrev pub pure : {A : Type 0} → A → M A
pure a s = ok a s

abbrev pub bind_run : {A B : Type 0} → Run A → (A → M B) → Run B
bind_run (ok a s) f = f a s
bind_run fault f = fault
bind_run spin f = spin

infixl 5 ◌>>=◌ ◌>>◌
abbrev pub ◌>>=◌ : {A B : Type 0} → M A → (A → M B) → M B
◌>>=◌ m f s = bind_run (m s) f

abbrev pub ◌>>◌ : {B : Type 0} → M (Unit {0}) → M B → M B
m >> k = m >>= λ _. k

-- `__cost += n`
abbrev pub tick : ℕ → M (Unit {0})
tick n s = ok tt (record s { cost = s.cost + n })

-- A value that is there, or an access out of bounds.
abbrev pub in_bounds : {A : Type 0} → Option A → M A
in_bounds none s = fault
in_bounds (some a) s = ok a s

-- An `int` as an array index.
abbrev pub index : ℤ → M ℕ
index (pos n) s = ok n s
index (negsuc n) s = fault

-- An `int*` into one of the families.
pub data QueueRef : Type 0 where
  ucvf_at : ℕ → ℕ → QueueRef
  queue_at : ℕ → ℕ → QueueRef
  commit_at : ℕ → QueueRef
  reverse_at : ℕ → QueueRef

abbrev pub cell {ℓ} : {A : Type ℓ} → List (List A) → ℕ → ℕ → Option A
cell rows i j = get_elem? (get_or rows i []) j

abbrev pub set_cell {ℓ} : {A : Type ℓ} → List (List A) → ℕ → ℕ → A → List (List A)
set_cell rows i j v = set rows i (set (get_or rows i []) j v)

abbrev pub tally : QueueRef → Queues → Option ℤ
tally (ucvf_at i j) q = cell q.ucvf i j
tally (queue_at i j) q = cell q.queues i j
tally (commit_at i) q = get_elem? q.commit i
tally (reverse_at i) q = get_elem? q.reverse i

abbrev pub set_tally : QueueRef → ℤ → Queues → Queues
set_tally (ucvf_at i j) v q = record q { ucvf = set_cell q.ucvf i j v }
set_tally (queue_at i j) v q = record q { queues = set_cell q.queues i j v }
set_tally (commit_at i) v q = record q { commit = set q.commit i v }
set_tally (reverse_at i) v q = record q { reverse = set q.reverse i v }

-- `*packet_queue` and `*packet_queue = v`
abbrev pub load : QueueRef → M ℤ
load ref s = in_bounds (tally ref s.tallies) s

abbrev pub store : QueueRef → ℤ → M (Unit {0})
store ref v s =
    bind_run (load ref s) (λ _ t. ok tt (record t { tallies = set_tally ref v t.tallies }))

-- for (k = i; k < i + n; k++), with a variable that the body updates.
unfoldable pub for_fold : {A : Type 0} → ℕ → ℕ → (ℕ → A → M A) → A → M A
for_fold zero i body a s = ok a s
for_fold (suc n) i body a s = bind_run (body i a s) (for_fold n (suc i) body)

-- for (k = i; k < i + n; k++), for its effects alone.
unfoldable pub for_range : ℕ → ℕ → (ℕ → M (Unit {0})) → M (Unit {0})
for_range zero i body s = ok tt s
for_range (suc n) i body s = bind_run (body i s) (λ _. for_range n (suc i) body)
