-- ===== src/Routing/Outcome.antt =====
-- The results of app/routing and app/model_options.py: a value, or an exception.
use model_relay.Prelude.{String, ◌≡◌, refl, Bool, true, false, ◌⊎◌, inl, inr, Option, if◌then◌else◌}
use model_relay.Cache.Contracts.{Result}

-- A `RouteResolutionError` with its code, the connection and the reason that it keeps inside; a
-- `ModelOptionError` of app/model_options.py with its code and option; or another exception, which
-- the resolver passes on.
pub data RouteError : Type 0 where
  resolution : String → Option String → Option String → RouteError
  model_option : String → Option String → RouteError
  crash : RouteError

pub data Outcome {ℓ} (A : Type ℓ) : Type ℓ where
  found : A → Outcome A
  failed : RouteError → Outcome A

infixl 5 ◌>>=◌
abbrev pub ◌>>=◌ {ℓ κ} : {A : Type ℓ} {B : Type κ} → Outcome A → (A → Outcome B) → Outcome B
found a >>= f = f a
failed e >>= f = failed e

-- An exception of the interpreter is passed on.
abbrev pub passed_on {ℓ} : {A : Type ℓ} → Result A → Outcome A
passed_on (Result.ok a) = found a
passed_on (Result.raised e) = failed crash

pub found_injective {ℓ} : {A : Type ℓ} {a b : A} → found a ≡ found b → a ≡ b
found_injective h = cc

-- A sequence that succeeds passes through a value.
pub bind_found {ℓ κ} :
    {A : Type ℓ} {B : Type κ} (r : Outcome A) (f : A → Outcome B) {b : B}
    → (r >>= f) ≡ found b
    → (a : A) × (r ≡ found a) × (f a ≡ found b)
bind_found (found a) f h = (a, refl, h)
bind_found (failed e) f h = cc

-- A branch that succeeds is one of the two, with the outcome of its test.
pub branch_found {ℓ} :
    {A : Type ℓ} (b : Bool) (x y : Outcome A) {a : A}
    → (if b then x else y) ≡ found a
    → ((b ≡ true) × (x ≡ found a)) ⊎ ((b ≡ false) × (y ≡ found a))
branch_found true x y h = inl (refl, h)
branch_found false x y h = inr (refl, h)
