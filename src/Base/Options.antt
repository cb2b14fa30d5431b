-- ===== src/Base/Options.antt =====
-- Chains of fallible steps, and what holds of their results.
use mathlib.Core.Path.{◌≡◌, refl}
use mathlib.Core.Option.{Option, none, some}
use mathlib.Core.Bool.{Bool, true, false}
use odns_measurement_tools.Base.Tests.{if◌then◌else◌}

infixl 5 ◌>>=◌
abbrev pub ◌>>=◌ {ℓ κ} : {A : Type ℓ} {B : Type κ} → Option A → (A → Option B) → Option B
none >>= f = none
some a >>= f = f a

module _ {A : Type 0} where
  -- What holds of a result, if there is one.
  abbrev pub Ensures : (A → Type 0) → Option A → Type 0
  Ensures P none = Unit
  Ensures P (some a) = P a

  pub if-Ensures :
      (P : A → Type 0) (b : Bool) (x y : Option A)
      → Ensures P x
      → Ensures P y
      → Ensures P (if b then x else y)
  if-Ensures P true x y h k = h
  if-Ensures P false x y h k = k

  pub some_injective : {a b : A} → some a ≡ some b → a ≡ b
  some_injective e = cc

module _ {A B : Type 0} (P : B → Type 0) where
  -- With what holds of the first result.
  pub bind-Ensures :
      (Q : A → Type 0) (o : Option A) (f : A → Option B)
      → Ensures Q o
      → ((a : A) → Q a → Ensures P (f a))
      → Ensures P (o >>= f)
  bind-Ensures Q none f g h = tt
  bind-Ensures Q (some a) f g h = h a g

  pub any-Ensures :
      (o : Option A) (f : A → Option B) → ((a : A) → Ensures P (f a)) → Ensures P (o >>= f)
  any-Ensures none f h = tt
  any-Ensures (some a) f h = h a

module _ {ℓ κ μ} {A : Type ℓ} {B : Type κ} {C : Type μ} where
  pub bind_assoc :
      (o : Option A) (f : A → Option B) (g : B → Option C)
      → ((o >>= f) >>= g) ≡ (o >>= λ a. f a >>= g)
  bind_assoc none f g = refl
  bind_assoc (some a) f g = refl

module _ {ℓ κ} {A : Type ℓ} {B : Type κ} where
  pub bind_ext : (o : Option A) (f g : A → Option B) → ((a : A) → f a ≡ g a) → (o >>= f) ≡ (o >>= g)
  bind_ext none f g h = refl
  bind_ext (some a) f g h = h a

  -- The parts of a chain that gives a result.
  pub bind_some :
      (o : Option A) (f : A → Option B) {b : B}
      → (o >>= f) ≡ some b
      → (a : A) × (o ≡ some a) × (f a ≡ some b)
  bind_some none f h = cc
  bind_some (some a) f h = (a, refl, h)
