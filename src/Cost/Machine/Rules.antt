-- ===== src/Cost/Machine/Rules.antt =====
-- Total correctness of code on the cost model: it returns, and what it returns satisfies a
-- predicate. One rule for each way to put code together.
use cos516_project.Prelude.{ℕ, zero, suc, ◌+◌, ◌≤◌, ◌<◌, ◌≡◌, refl, ap, ◌∙◌, ◌*◌, arith, subst, ap₂}
use cos516_project.Cost.Machine.{Machine, Run, ok, M, bind_run, tick, for_fold, for_range}

pub data Returns {A : Type 0} (P : A → Machine → Type 0) : Run A → Type 0 where
  returns : (a : A) (s : Machine) → P a s → Returns P (ok a s)

-- Code that returns, then code that returns from what the first left behind.
pub bind-Returns :
    {A B : Type 0} {P : A → Machine → Type 0} {Q : B → Machine → Type 0} {r : Run A} (f : A → M B)
    → Returns P r
    → ((a : A) (s : Machine) → P a s → Returns Q (f a s))
    → Returns Q (bind_run r f)
bind-Returns f (returns a s p) next = next a s p

pub weaken-Returns :
    {A : Type 0} {P Q : A → Machine → Type 0} {r : Run A}
    → Returns P r
    → ((a : A) (s : Machine) → P a s → Q a s)
    → Returns Q r
weaken-Returns (returns a s p) f = returns a s (f a s p)

-- What a returning run is, as an equation.
pub Returns-eq :
    {A : Type 0} {P : A → Machine → Type 0} {r : Run A}
    → Returns P r
    → (a : A) × (s : Machine) × (r ≡ ok a s) × P a s
Returns-eq (returns a s p) = (a, s, refl, p)

-- The invariant rule of a counted loop; `j` is the end of its range.
pub for_range-Returns :
    (I : ℕ → Machine → Type 0) (body : ℕ → M (Unit {0})) (n i j : ℕ)
    → i + n ≡ j
    → ((k : ℕ) (s : Machine) → i ≤ k → k < j → I k s → Returns (λ _ t. I (suc k) t) (body k s))
    → (s : Machine) → I i s
    → Returns (λ _ t. I j t) (for_range n i body s)
unfolding for_range
for_range-Returns I body zero i j e keep s h =
    returns tt s (subst (λ k. I k s) (let e' : i ≡ j = omega arith in e') h)
for_range-Returns I body (suc n) i j e keep s h =
    bind-Returns (λ _. for_range n (suc i) body) (keep i s (omega arith) (omega arith) h)
      λ _ t h'.
        for_range-Returns I body n (suc i) j (omega arith) (λ k u p q. keep k u (omega arith) q) t
          h'

for_fold-Returns :
    {A : Type 0} (I : ℕ → A → Machine → Type 0) (body : ℕ → A → M A) (n i j : ℕ)
    → i + n ≡ j
    → ((k : ℕ) (a : A) (s : Machine) → i ≤ k → k < j → I k a s → Returns (I (suc k)) (body k a s))
    → (a : A) (s : Machine) → I i a s
    → Returns (I j) (for_fold n i body a s)
unfolding for_fold
for_fold-Returns I body zero i j e keep a s h =
    returns a s (subst (λ k. I k a s) (let e' : i ≡ j = omega arith in e') h)
for_fold-Returns I body (suc n) i j e keep a s h =
    bind-Returns (for_fold n (suc i) body) (keep i a s (omega arith) (omega arith) h) λ b t h'.
      for_fold-Returns I body n (suc i) j (omega arith) (λ k c u p q. keep k c u (omega arith) q) b
        t h'

-- A loop whose rounds only add to the cost.
pub for_range-tick :
    (c n i : ℕ) (s : Machine)
    → for_range n i (λ _. tick c) s ≡ ok tt (record s { cost = s.cost + n * c })
unfolding for_range
for_range-tick c zero i s = ap (λ (k : ℕ). ok tt (record s { cost = k })) (omega arith)
for_range-tick c (suc n) i s =
    for_range-tick c n (suc i) (record s { cost = s.cost + c })
    ∙ ap (λ (k : ℕ). ok tt (record s { cost = k })) (omega arith)

-- f i + ... + f (i + n - 1)
abbrev pub sum_range : (ℕ → ℕ) → ℕ → ℕ → ℕ
sum_range f zero i = 0
sum_range f (suc n) i = f i + sum_range f n (suc i)

-- A loop that adds to a counter and to the cost, and changes nothing else.
pub for_fold-sum :
    (body : ℕ → ℕ → M ℕ) (value price : ℕ → ℕ) (n i j : ℕ) (s : Machine)
    → i + n ≡ j
    → ((k a c : ℕ)
        → k < j
        → body k a (record s { cost = c }) ≡ ok (a + value k) (record s { cost = c + price k }))
    → (a : ℕ)
    → for_fold n i body a s
      ≡ ok (a + sum_range value n i) (record s { cost = s.cost + sum_range price n i })
unfolding for_fold
for_fold-sum body value price zero i j s e h a =
    ap₂ (λ (b c : ℕ). ok b (record s { cost = c })) (omega arith) (omega arith)
for_fold-sum body value price (suc n) i j s e h a = rw (h i a s.cost (omega arith)) (
    for_fold-sum body value price n (suc i) j (record s { cost = s.cost + price i }) (omega arith) h
      (a + value i)
    ∙ ap₂ (λ (b c : ℕ). ok b (record s { cost = c })) (omega arith) (omega arith))

pub sum_range-le :
    (f : ℕ → ℕ) (b n i j : ℕ) → i + n ≡ j → ((k : ℕ) → k < j → f k ≤ b) → sum_range f n i ≤ n * b
sum_range-le f b zero i j e h = omega arith
sum_range-le f b (suc n) i j e h =
    omega (arith, h i (omega arith), sum_range-le f b n (suc i) j (omega arith) h)
