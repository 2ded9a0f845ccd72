-- ===== src/Cost/Bounds.antt =====
-- A small logic of costs: code that keeps the invariant and costs between two numbers.
use cos516_project.Prelude.{
  ℕ, zero, suc, ◌+◌, ◌*◌, ◌≤◌, ◌<◌, arith, Bool, if◌then◌else◌, true, false,
}
use cos516_project.Cost.Machine.{Machine, M, ok, tick, ◌>>=◌, ◌>>◌, for_range}
use cos516_project.Cost.Machine.Rules.{
  Returns, returns, bind-Returns, weaken-Returns, sum_range, for_range-Returns,
}
use cos516_project.Cost.Valid.{IsValid}

pub record Costs (lo hi : ℕ) (s t : Machine) : Type 0 where
  pub valid : IsValid t
  pub least : s.cost + lo ≤ t.cost
  pub most : t.cost ≤ s.cost + hi

-- `m` always returns, keeps the invariant, and costs from `lo` to `hi`.
abbrev pub Spends : {A : Type 0} → ℕ → ℕ → M A → Type 0
Spends {A} lo hi m = (s : Machine) → IsValid s → Returns (λ _ t. Costs lo hi s t) (m s)

pub Costs-trans :
    {a b c d : ℕ} {s t u : Machine} → Costs a b s t → Costs c d t u → Costs (a + c) (b + d) s u
Costs-trans p q = record { valid = q.valid; least = omega arith; most = omega arith }

Costs-widen : {a b c d : ℕ} {s t : Machine} → Costs a b s t → c ≤ a → b ≤ d → Costs c d s t
Costs-widen p h k = record { valid = p.valid; least = omega arith; most = omega arith }

pub pure-Spends : {A : Type 0} (a : A) → Spends 0 0 (λ s. ok a s)
pure-Spends a s v = returns a s (record { valid = v; least = omega arith; most = omega arith })

pub tick-Spends : (n : ℕ) → Spends n n (tick n)
tick-Spends n s v =
    returns tt (record s { cost = s.cost + n })
      (record {
        valid = record { tallies = v.tallies; buffers = v.buffers; memory = v.memory };
        least = omega arith;
        most = omega arith;
      })

bind-Spends :
    {A B : Type 0} {a b c d : ℕ} (m : M A) (f : A → M B)
    → Spends a b m
    → ((x : A) → Spends c d (f x))
    → Spends (a + c) (b + d) (m >>= f)
bind-Spends m f hm hf s v =
    bind-Returns f (hm s v) λ x t p. weaken-Returns (hf x t p.valid) (λ _ u q. Costs-trans p q)

pub then-Spends :
    {B : Type 0} {a b c d : ℕ} (m : M (Unit {0})) (k : M B)
    → Spends a b m
    → Spends c d k
    → Spends (a + c) (b + d) (m >> k)
then-Spends m k hm hk = bind-Spends m (λ _. k) hm (λ _. hk)

pub widen-Spends :
    {A : Type 0} {a b c d : ℕ} (m : M A) → Spends a b m → c ≤ a → b ≤ d → Spends c d m
widen-Spends m h p q s v = weaken-Returns (h s v) (λ _ t e. Costs-widen e p q)

-- A counted loop costs its number of rounds times what a round costs.
pub for_range-Spends :
    {a b : ℕ} (body : ℕ → M (Unit {0})) (n i : ℕ)
    → ((k : ℕ) → i ≤ k → k < i + n → Spends a b (body k))
    → Spends (n * a) (n * b) (for_range n i body)
unfolding for_range
for_range-Spends body zero i h s v =
    returns tt s (record { valid = v; least = omega arith; most = omega arith })
for_range-Spends {a} {b} body (suc n) i h s v =
    bind-Returns (λ _. for_range n (suc i) body) (h i (omega arith) (omega arith) s v)
      λ _ t p.
        weaken-Returns
          (for_range-Spends body n (suc i) (λ k x y. h k (omega arith) (omega arith)) t p.valid)
          (λ _ u q. record { valid = q.valid; least = omega arith; most = omega arith })

-- The same for rounds of different costs.
pub for_range-Spends_sum :
    (f : ℕ → ℕ) (body : ℕ → M (Unit {0})) (n i : ℕ)
    → ((k : ℕ) → i ≤ k → k < i + n → Spends (f k) (f k) (body k))
    → Spends (sum_range f n i) (sum_range f n i) (for_range n i body)
unfolding for_range
for_range-Spends_sum f body zero i h s v =
    returns tt s (record { valid = v; least = omega arith; most = omega arith })
for_range-Spends_sum f body (suc n) i h s v =
    bind-Returns (λ _. for_range n (suc i) body) (h i (omega arith) (omega arith) s v)
      λ _ t p.
        weaken-Returns
          (for_range-Spends_sum f body n (suc i) (λ k x y. h k (omega arith) (omega arith)) t
            p.valid)
          (λ _ u q. Costs-trans p q)

-- The cost of a loop of ticks.
pub ticks-Spends : (c n i : ℕ) → Spends (n * c) (n * c) (for_range n i (λ _. tick c))
ticks-Spends c n i = for_range-Spends (λ _. tick c) n i (λ k _ _. tick-Spends c)

-- The invariant holds, and the cost has not gone down.
pub record Keeps (s t : Machine) : Type 0 where
  pub valid : IsValid t
  pub grows : s.cost ≤ t.cost

pub Keeps-trans : {s t u : Machine} → Keeps s t → Keeps t u → Keeps s u
Keeps-trans p q = record { valid = q.valid; grows = omega arith }

pub Keeps-refl : {s : Machine} → IsValid s → Keeps s s
Keeps-refl v = record { valid = v; grows = omega arith }

pub Costs-Keeps : {lo hi : ℕ} {s t : Machine} → Costs lo hi s t → Keeps s t
Costs-Keeps c = record { valid = c.valid; grows = omega arith }

-- `m` always returns, and keeps the invariant.
abbrev pub Safe : {A : Type 0} → M A → Type 0
Safe m = (s : Machine) → IsValid s → Returns (λ _ t. Keeps s t) (m s)

pub Spends-Safe : {A : Type 0} {lo hi : ℕ} (m : M A) → Spends lo hi m → Safe m
Spends-Safe m h s v = weaken-Returns (h s v) (λ _ t c. Costs-Keeps c)

pub then-Safe : {B : Type 0} (m : M (Unit {0})) (k : M B) → Safe m → Safe k → Safe (m >> k)
then-Safe m k hm hk s v =
    bind-Returns (λ _. k) (hm s v) λ _ t p. weaken-Returns (hk t p.valid) (λ _ u q. Keeps-trans p q)

pub if-Safe : (b : Bool) (m k : M (Unit {0})) → Safe m → Safe k → Safe (if b then m else k)
if-Safe true m k p q = p
if-Safe false m k p q = q

pub for_range-Safe :
    (body : ℕ → M (Unit {0})) (n : ℕ)
    → ((k : ℕ) → k < n → Safe (body k))
    → Safe (for_range n 0 body)
for_range-Safe body n h s v =
    for_range-Returns (λ _ t. Keeps s t) body n 0 n (omega arith)
      (λ k t _ below p. weaken-Returns (h k below t p.valid) (λ _ u q. Keeps-trans p q)) s
      (Keeps-refl v)
