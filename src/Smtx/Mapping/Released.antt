-- ===== src/Smtx/Mapping/Released.antt =====
-- The calls of the setup of the queues against those of the end.
use cos516_project.Prelude.{
  zero, ℕ, ◌∷◌, ◌++◌, ◌<◌, ◌≡◌, List, ◌+◌, [], ◌≤◌, ◌*◌, suc, arith, subst, true, false, ◌-◌, refl,
  sym, append-nil, some, ◌==◌, none, ℕ_discrete, ap, ◌∙◌,
}
use mathlib.Core.List.{Perm, perm_middle}
use mathlib.Core.List.Perm
use cos516_project.Smtx.Mapping.{
  queues, init_queues, fini_queues, Mapping, of_size, for_calls, unmap_ucvf, unmap_queues,
  commit_queues, map_ucvf, map_queues, ucvf_queues, sizeof_pointer, sw_queue_create, ucvf_queue,
  queue_row, sw_queue_free, ucvf_row, commit_queue, queue, reverse_commit_queues,
  reverse_commit_queue, fill, init_tables, Tables, Pointer, free_unless_null, Region,
}

-- What the loop leaves at an index outside its range, and inside.
pub fill-outside {ℓ} :
    {A : Type ℓ} (n i k : ℕ) (f row : ℕ → A) → (i ≤ k → k < i + n → ⊥) → fill n i f row k ≡ row k
unfolding fill
fill-outside zero i k f row out = refl
fill-outside (suc n) i k f row out =
    let other : (k == i) ≡ false = ground (arith, out) in
    fill-outside n (suc i) k f _ (λ lo hi. out (omega arith) (omega arith)) ∙ rw other refl

pub fill-inside {ℓ} :
    {A : Type ℓ} (n i k : ℕ) (f row : ℕ → A) → i ≤ k → k < i + n → fill n i f row k ≡ f k
unfolding fill
fill-inside zero i k f row lo hi = absurd (omega arith)
fill-inside (suc n) i k f row lo hi = elim (ℕ_discrete k i) [
  | yes same ↦
      let now : (k == i) ≡ true = ground (arith, same) in
      fill-outside n (suc i) k f _ (λ lo' hi'. omega (arith, same, lo')) ∙ rw now (ap f (sym same))
  | no other ↦ fill-inside n (suc i) k f _ (omega arith) (omega arith)
]

-- Loops whose rounds make the same calls.
pub for_calls-same :
    (n i : ℕ) (body other : ℕ → List Mapping)
    → ((k : ℕ) → i ≤ k → k < i + n → body k ≡ other k)
    → for_calls n i body ≡ for_calls n i other
unfolding for_calls
for_calls-same zero i body other h = refl
for_calls-same (suc n) i body other h =
    rw
      (
        h i (omega arith) (omega arith),
        for_calls-same n (suc i) body other (λ k lo hi. h k (omega arith) (omega arith)),
      )
      refl

-- Rounds without calls in front.
for_calls-skip :
    (d n i : ℕ) (body : ℕ → List Mapping)
    → ((k : ℕ) → i ≤ k → k < i + d → body k ≡ [])
    → for_calls (d + n) i body ≡ for_calls n (i + d) body
unfolding for_calls
for_calls-skip zero n i body none_made =
    let same_count : 0 + n ≡ n = omega arith in
    let same_start : i + 0 ≡ i = omega arith in rw (same_count, same_start) refl
for_calls-skip (suc d) n i body none_made =
    let more : suc d + n ≡ suc (d + n) = omega arith in
    let later : i + suc d ≡ suc i + d = omega arith in
    rw (more, none_made i (omega arith) (omega arith), later)
      (for_calls-skip d n (suc i) body (λ k lo hi. none_made k (omega arith) (omega arith)))

pub Perm-for_calls :
    (n i : ℕ) (body other : ℕ → List Mapping)
    → ((k : ℕ) → i ≤ k → k < i + n → Perm (body k) (other k))
    → Perm (for_calls n i body) (for_calls n i other)
unfolding for_calls
Perm-for_calls zero i body other h = Perm.refl []
Perm-for_calls (suc n) i body other h =
    Perm.append (h i (omega arith) (omega arith))
      (Perm-for_calls n (suc i) body other (λ k lo hi. h k (omega arith) (omega arith)))

pub Perm-same : (ms ns : List Mapping) → ms ≡ ns → Perm ms ns
Perm-same ms ns e = subst (λ l. Perm ms l) e (Perm.refl ms)

-- A mapping that is released after those of its rows instead of before.
Perm-last : (m : Mapping) (ms ns : List Mapping) → Perm ms ns → Perm (ms ++ m ∷ []) (m ∷ ns)
Perm-last m ms ns h =
    Perm.trans (perm_middle ms []) (Perm.cons m (subst (λ l. Perm l ns) (sym (append-nil ms)) h))

-- The words of a table that mmap has just returned are NULL, as those of an anonymous mapping are.
abbrev pub IsZeroed : (ℕ → Pointer) → Type 0
IsZeroed fresh = (k : ℕ) → fresh k ≡ none

module _ (fresh : ℕ → Pointer) (zeroed : IsZeroed fresh) (n m : ℕ) where
  abbrev t : Tables
  t = init_tables fresh n m

  -- The entries of a row of `ucvf_queues` that are freed are those behind the diagonal.
  row-freed :
      (i : ℕ)
      → i < n
      → for_calls n 0 (λ j. free_unless_null (t.ucvf_entries i j))
        ≡ for_calls (n - (i + 1)) (i + 1) (λ j. sw_queue_create (ucvf_queue i j))
  unfolding init_tables
  row-freed i h =
      let row = fill (n - (i + 1)) (i + 1) (λ j. some (ucvf_queue i j)) fresh in
      let whole : n ≡ (i + 1) + (n - (i + 1)) = omega arith in
      let body = λ (j : ℕ). free_unless_null (row j) in
      let start : 0 + (i + 1) ≡ i + 1 = omega arith in
      for_calls-same n 0 _ body (λ j _ _.
        ap (λ (r : ℕ → Pointer). free_unless_null (r j))
          (fill-inside n 0 i _ (λ _. fresh) (omega arith) (omega arith)))
      ∙ ap (λ k. for_calls k 0 body) whole
      ∙ for_calls-skip (i + 1) (n - (i + 1)) 0 body (λ j _ hi.
        let unset : row j ≡ none =
          fill-outside (n - (i + 1)) (i + 1) j _ fresh (λ lo _. omega arith) ∙ zeroed j in
        rw unset refl)
      ∙ ap (λ k. for_calls (n - (i + 1)) k body) start
      ∙ for_calls-same (n - (i + 1)) (i + 1) body _ (λ j lo hi.
        let set_ : row j ≡ some (ucvf_queue i j) =
          fill-inside (n - (i + 1)) (i + 1) j _ fresh lo hi in
        rw set_ refl)

  ucvf-Perm : Perm (unmap_ucvf t n) (map_ucvf n)
  unfolding init_tables
  ucvf-Perm = Perm-last (of_size ucvf_queues (sizeof_pointer * n)) _ _ (
      Perm-for_calls n 0 _ _ (λ i lo hi.
        let there : t.ucvf_rows i ≡ some (ucvf_row i) =
          fill-inside n 0 i (λ i. some (ucvf_row i)) fresh lo hi in
        rw there (
          Perm-last (of_size (ucvf_row i) (sizeof_pointer * n)) _ _
            (Perm-same _ _ (row-freed i (omega arith))))))

  queue-freed :
      (i : ℕ)
      → i < n
      → for_calls m 0 (λ j. free_unless_null (t.queue_entries i j))
        ≡ for_calls m 0 (λ j. sw_queue_create (queue i j))
  unfolding init_tables
  queue-freed i h = for_calls-same m 0 _ _ (λ j lo hi.
      ap (λ (r : ℕ → Pointer). free_unless_null (r j))
        (fill-inside n 0 i _ (λ _. fresh) (omega arith) (omega arith))
      ∙ ap free_unless_null (fill-inside m 0 j (λ j. some (queue i j)) fresh lo hi))

  queues-Perm : Perm (unmap_queues t n m) (map_queues n m)
  unfolding init_tables
  queues-Perm = Perm-last (of_size queues (sizeof_pointer * n)) _ _ (
      Perm-for_calls n 0 _ _ (λ i lo hi.
        let there : t.queue_rows i ≡ some (queue_row i) =
          fill-inside n 0 i (λ i. some (queue_row i)) fresh lo hi in
        rw there (
          Perm-last (of_size (queue_row i) (sizeof_pointer * m)) _ _
            (Perm-same _ _ (queue-freed i (omega arith))))))

  -- The pointers of a table without NULL tests.
  freed :
      (k : ℕ) (r : ℕ → Region)
      → for_calls k 0 (λ i. sw_queue_free (fill k 0 (λ i. some (r i)) fresh i))
        ≡ for_calls k 0 (λ i. sw_queue_create (r i))
  freed k r =
      for_calls-same k 0 _ _
        (λ i lo hi. ap sw_queue_free (fill-inside k 0 i (λ i. some (r i)) fresh lo hi))

  -- For any numbers of workers, where mmap returns tables of NULL, fini_queues, run on the tables
  -- that init_queues leaves, unmaps each mapping of init_queues once, at its pointer and its
  -- size, and nothing else.
  pub fini_queues-Perm : Perm (fini_queues (init_tables fresh n m) n m) (init_queues n m)
  unfolding fini_queues init_queues init_tables
  fini_queues-Perm = Perm.append ucvf-Perm (
      Perm.append queues-Perm (
        Perm.append
          (Perm-last (of_size commit_queues (sizeof_pointer * m)) _ _
            (Perm-same _ _ (freed m commit_queue)))
          (Perm-last (of_size reverse_commit_queues (sizeof_pointer * n)) _ _
            (Perm-same _ _ (freed n reverse_commit_queue)))))
