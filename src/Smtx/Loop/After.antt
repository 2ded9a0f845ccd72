-- ===== src/Smtx/Loop/After.antt =====
-- Steps of the loop events that return only with a property, or not at all.
use cos516_project.Smtx.Loop.{Memory, M, Outcome, ok, fault, aborted, out_of_fuel, bind, found}
use cos516_project.Prelude.{Option, ◌≡◌, some, none, refl}

-- If a step returns, what it returns and leaves has the property.
unfoldable pub After {ℓ} : {A : Type ℓ} → (A → Memory → Type 0) → Outcome A → Type 0
After P (ok a s) = P a s
After P fault = Unit
After P aborted = Unit
After P out_of_fuel = Unit

-- A step that does not return, whether it faults, aborts or runs on.
abbrev pub Fails {ℓ} : {A : Type ℓ} → Outcome A → Type 0
Fails o = After (λ _ _. ⊥) o

pub After-bind {ℓ κ} :
    {A : Type ℓ} {B : Type κ} (P : A → Memory → Type 0) (Q : B → Memory → Type 0) (m : Outcome A)
    (f : A → M B)
    → After P m
    → ((a : A) (s : Memory) → P a s → After Q (f a s))
    → After Q (bind m f)
unfolding After
After-bind P Q (ok a s) f h k = k a s h
After-bind P Q fault f h k = tt
After-bind P Q aborted f h k = tt
After-bind P Q out_of_fuel f h k = tt

pub Fails-bind {ℓ κ} :
    {A : Type ℓ} {B : Type κ} (m : Outcome A) (f : A → M B) → Fails m → Fails (bind m f)
Fails-bind m f h = After-bind (λ _ _. ⊥) (λ _ _. ⊥) m f h (λ a s none. elim none [ ])

-- An access leaves the memory alone.
pub found-After {ℓ} : {A : Type ℓ} (o : Option A) (s : Memory) → After (λ _ s'. s' ≡ s) (found o s)
unfolding After
found-After none s = tt
found-After (some a) s = refl
