-- ===== src/Cost/Valid.antt =====
-- The invariant of the cost model: the arrays keep their sizes, no tally outside `queues` is
-- negative or above the limit at which a queue counts as full, and the buffers hold numbers of bits.
use cos516_project.Prelude.{
  ℕ, ◌≤◌, ◌<◌, ◌≡◌, ◌∙◌, arith, ℤ, AtMost, List, [], some, length, get_or, set, All, All-get,
  All-get_or, All-set, length-set, get_or-set_self, get_elem?-set_self, set-set, ap,
}
use cos516_project.Cost.Machine.{
  Queues, Buffers, Heaps, Machine, QueueRef, ucvf_at, queue_at, commit_at, reverse_at, cell,
  set_cell, tally, set_tally,
}

-- An array of `n` rows of `m` entries, each of which satisfies `P`.
abbrev IsRow {ℓ} : {A : Type ℓ} → (A → Type 0) → ℕ → List A → Type 0
IsRow P m row = (length row ≡ m) × All P row

pub record IsGrid {ℓ} {A : Type ℓ} (P : A → Type 0) (n m : ℕ) (rows : List (List A)) : Type ℓ where
  pub height : length rows ≡ n
  pub width : All (IsRow P m) rows

module _ {ℓ} {A : Type ℓ} (P : A → Type 0) {n m : ℕ} {rows : List (List A)}
    (g : IsGrid P n m rows) where
  pub grid-IsRow : (i : ℕ) → i < n → IsRow P m (get_or rows i [])
  grid-IsRow i h = All-get_or (IsRow P m) rows i [] g.width (rw g.height h)

  pub cell_of_grid : (i j : ℕ) → i < n → j < m → (x : A) × (cell rows i j ≡ some x) × P x
  cell_of_grid i j hi hj =
      let row = grid-IsRow i hi in All-get P (get_or rows i []) j row.1 (omega arith)

  pub set_cell-IsGrid : (i j : ℕ) (v : A) → i < n → P v → IsGrid P n m (set_cell rows i j v)
  set_cell-IsGrid i j v hi p =
      let row = grid-IsRow i hi in
      let width = length-set (get_or rows i []) j v ∙ row.0 in
      record {
        height = length-set rows i (set (get_or rows i []) j v) ∙ g.height;
        width =
            All-set (IsRow P m) rows i (set (get_or rows i []) j v) g.width
              (width, All-set P (get_or rows i []) j v row.1 p);
      }

  cell-set_cell_self : (i j : ℕ) (v : A) → i < n → j < m → cell (set_cell rows i j v) i j ≡ some v
  cell-set_cell_self i j v hi hj =
      rw (get_or-set_self rows i (set (get_or rows i []) j v) [] (rw g.height hi))
        (get_elem?-set_self (get_or rows i []) j v (rw (grid-IsRow i hi).0 hj))

  set_cell-set_cell :
      (i j : ℕ) (v w : A) → i < n → set_cell (set_cell rows i j v) i j w ≡ set_cell rows i j w
  set_cell-set_cell i j v w hi =
      let row = get_or rows i [] in
      rw (get_or-set_self rows i (set row j v) [] (rw g.height hi), set-set row j v w)
        (set-set rows i (set row j v) (set row j w))

abbrev Anything : ℤ → Type 0
Anything q = Unit

-- Packets go to a queue only below the limit 16, so no tally passes it.
pub record AreValid (q : Queues) : Type 0 where
  pub ucvf : IsGrid (AtMost 16) 10 10 q.ucvf
  pub queues : IsGrid Anything 10 2 q.queues
  pub commit : IsRow (AtMost 16) 2 q.commit
  pub reverse : IsRow (AtMost 16) 10 q.reverse

pub record AreBuffers (b : Buffers) : Type 0 where
  pub invariants : IsGrid (λ v. v < 8) 12 12 b.invariants
  pub predictors : IsGrid (λ v. v < 8) 12 12 b.predictors
  pub some_loads : 1 ≤ b.loads
  pub max_loads : b.loads ≤ 12
  pub some_contexts : 1 ≤ b.contexts
  pub max_contexts : b.contexts ≤ 12

pub record AreHeaps (m : Heaps) : Type 0 where
  pub heaps : length m.heaps ≡ 20
  pub shadow_heaps : length m.shadow_heaps ≡ 20
  pub shadow_globals : length m.shadow_globals ≡ 20
  pub shadow_stacks : length m.shadow_stacks ≡ 20

pub record IsValid (s : Machine) : Type 0 where
  pub tallies : AreValid s.tallies
  pub buffers : AreBuffers s.buffers
  pub memory : AreHeaps s.memory

abbrev pub IsInRange : QueueRef → Type 0
IsInRange (ucvf_at i j) = (i < 10) × (j < 10)
IsInRange (queue_at i j) = (i < 10) × (j < 2)
IsInRange (commit_at i) = i < 2
IsInRange (reverse_at i) = i < 10

-- What the invariant says of one tally.
abbrev pub IsTally : QueueRef → ℤ → Type 0
IsTally (queue_at i j) q = Unit
IsTally (ucvf_at i j) q = AtMost 16 q
IsTally (commit_at i) q = AtMost 16 q
IsTally (reverse_at i) q = AtMost 16 q

-- A pointer in range reads a tally of the invariant,
pub tally-IsTally :
    {q : Queues} (ref : QueueRef)
    → AreValid q
    → IsInRange ref
    → (x : ℤ) × (tally ref q ≡ some x) × IsTally ref x
tally-IsTally (ucvf_at i j) v r = cell_of_grid (AtMost 16) v.ucvf i j r.0 r.1
tally-IsTally (queue_at i j) v r = cell_of_grid Anything v.queues i j r.0 r.1
tally-IsTally {q} (commit_at i) v r = All-get (AtMost 16) q.commit i v.commit.1 (omega arith)
tally-IsTally {q} (reverse_at i) v r = All-get (AtMost 16) q.reverse i v.reverse.1 (omega arith)

-- and writing one keeps the invariant.
pub set_tally-AreValid :
    {q : Queues} (ref : QueueRef) (x : ℤ)
    → AreValid q
    → IsInRange ref
    → IsTally ref x
    → AreValid (set_tally ref x q)
set_tally-AreValid (ucvf_at i j) x v r h = record {
  ucvf = set_cell-IsGrid (AtMost 16) v.ucvf i j x r.0 h;
  queues = v.queues;
  commit = v.commit;
  reverse = v.reverse;
}
set_tally-AreValid (queue_at i j) x v r h = record {
  ucvf = v.ucvf;
  queues = set_cell-IsGrid Anything v.queues i j x r.0 tt;
  commit = v.commit;
  reverse = v.reverse;
}
set_tally-AreValid {q} (commit_at i) x v r h = record {
  ucvf = v.ucvf;
  queues = v.queues;
  commit = (length-set q.commit i x ∙ v.commit.0, All-set (AtMost 16) q.commit i x v.commit.1 h);
  reverse = v.reverse;
}
set_tally-AreValid {q} (reverse_at i) x v r h = record {
  ucvf = v.ucvf;
  queues = v.queues;
  commit = v.commit;
  reverse =
      (length-set q.reverse i x ∙ v.reverse.0, All-set (AtMost 16) q.reverse i x v.reverse.1 h);
}

pub tally-set_tally_self :
    {q : Queues} (ref : QueueRef) (x : ℤ)
    → AreValid q
    → IsInRange ref
    → tally ref (set_tally ref x q) ≡ some x
tally-set_tally_self (ucvf_at i j) x v r = cell-set_cell_self (AtMost 16) v.ucvf i j x r.0 r.1
tally-set_tally_self (queue_at i j) x v r = cell-set_cell_self Anything v.queues i j x r.0 r.1
tally-set_tally_self {q} (commit_at i) x v r = get_elem?-set_self q.commit i x (rw v.commit.0 r)
tally-set_tally_self {q} (reverse_at i) x v r = get_elem?-set_self q.reverse i x (rw v.reverse.0 r)

-- Of two writes through one pointer the last one counts.
pub set_tally-set_tally :
    {q : Queues} (ref : QueueRef) (x y : ℤ)
    → AreValid q
    → IsInRange ref
    → set_tally ref y (set_tally ref x q) ≡ set_tally ref y q
set_tally-set_tally {q} (ucvf_at i j) x y v r =
    ap (λ rows. record q { ucvf = rows }) (set_cell-set_cell (AtMost 16) v.ucvf i j x y r.0)
set_tally-set_tally {q} (queue_at i j) x y v r =
    ap (λ rows. record q { queues = rows }) (set_cell-set_cell Anything v.queues i j x y r.0)
set_tally-set_tally {q} (commit_at i) x y v r =
    ap (λ row. record q { commit = row }) (set-set q.commit i x y)
set_tally-set_tally {q} (reverse_at i) x y v r =
    ap (λ row. record q { reverse = row }) (set-set q.reverse i x y)
