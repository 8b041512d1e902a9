-- ===== src/Base/Outcome.antt =====
-- The outcome of running C code: a value, an access that C leaves undefined, or a loop that has
-- used up the rounds that the model allows it.
use mathlib.Core.Option.{Option, none, some}
use mathlib.Core.Path.{◌≡◌, refl, ap, subst}

pub data Run {ℓ} (A : Type ℓ) : Type ℓ where
  done : A → Run A
  fault : Run A
  out_of_fuel : Run A

infixl 5 ◌>>=◌
abbrev pub ◌>>=◌ {ℓ κ} : {A : Type ℓ} {B : Type κ} → Run A → (A → Run B) → Run B
done a >>= f = f a
fault >>= f = fault
out_of_fuel >>= f = out_of_fuel

-- The run ends within its fuel, and a value that it returns has the property.
abbrev pub Ends {ℓ} : {A : Type ℓ} → (A → Type 0) → Run A → Type 0
Ends P (done a) = P a
Ends P fault = Unit
Ends P out_of_fuel = ⊥

pub Ends-bind {ℓ κ} :
    {A : Type ℓ} {B : Type κ} (P : A → Type 0) (Q : B → Type 0) (x : Run A) (f : A → Run B)
    → Ends P x
    → ((a : A) → P a → Ends Q (f a))
    → Ends Q (x >>= f)
Ends-bind P Q (done a) f h k = k a h
Ends-bind P Q fault f h k = tt
Ends-bind P Q out_of_fuel f h k = absurd h

pub Ends-weaken {ℓ} :
    {A : Type ℓ} (P Q : A → Type 0) (x : Run A) → ((a : A) → P a → Q a) → Ends P x → Ends Q x
Ends-weaken P Q (done a) k h = k a h
Ends-weaken P Q fault k h = tt
Ends-weaken P Q out_of_fuel k h = absurd h

-- A step that may end the function early with NULL.
abbrev pub and_then {ℓ κ} :
    {A : Type ℓ} {B : Type κ} → Run (Option A) → (A → Run (Option B)) → Run (Option B)
and_then (done none) f = done none
and_then (done (some a)) f = f a
and_then fault f = fault
and_then out_of_fuel f = out_of_fuel

module _ {ℓ κ} {A : Type ℓ} {B : Type κ} where
  pub bind_congr : (x : Run A) (f g : A → Run B) → ((a : A) → f a ≡ g a) → (x >>= f) ≡ (x >>= g)
  bind_congr (done a) f g h = h a
  bind_congr fault f g h = refl
  bind_congr out_of_fuel f g h = refl

  pub bind_assoc {μ} :
      {C : Type μ} (x : Run A) (f : A → Run B) (g : B → Run C)
      → ((x >>= f) >>= g) ≡ (x >>= λ a. f a >>= g)
  bind_assoc (done a) f g = refl
  bind_assoc fault f g = refl
  bind_assoc out_of_fuel f g = refl

pub bind_done {ℓ κ} :
    {A : Type ℓ} {B : Type κ} (x : Run A) (a : A) (f : A → Run B) → x ≡ done a → (x >>= f) ≡ f a
bind_done x a f e = ap (λ y. y >>= f) e

pub and_then-some {ℓ κ} :
    {A : Type ℓ} {B : Type κ} (x : Run (Option A)) (a : A) (f : A → Run (Option B))
    → x ≡ done (some a)
    → and_then x f ≡ f a
and_then-some x a f e = ap (λ y. and_then y f) e

-- Whatever the run returns has the property.
abbrev pub Yields {ℓ κ} : {A : Type ℓ} → (A → Type κ) → Run A → Type κ
Yields P (done a) = P a
Yields P fault = Unit
Yields P out_of_fuel = Unit

pub Yields-done {ℓ κ} :
    {A : Type ℓ} (P : A → Type κ) (x : Run A) (a : A) → x ≡ done a → Yields P x → P a
Yields-done P x a e p = subst (Yields P) e p

module _ {ℓ κ} {A : Type ℓ} {B : Type κ} where
  pub Yields-bind {μ ν} :
      (P : A → Type ν) (Q : B → Type μ) (x : Run A) (f : A → Run B)
      → Yields P x
      → ((a : A) → P a → Yields Q (f a))
      → Yields Q (x >>= f)
  Yields-bind P Q (done a) f p h = h a p
  Yields-bind P Q fault f p h = tt
  Yields-bind P Q out_of_fuel f p h = tt

  pub Yields-any {μ} :
      (Q : B → Type μ) (x : Run A) (f : A → Run B) → ((a : A) → Yields Q (f a)) → Yields Q (x >>= f)
  Yields-any Q (done a) f h = h a
  Yields-any Q fault f h = tt
  Yields-any Q out_of_fuel f h = tt
