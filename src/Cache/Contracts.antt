-- ===== src/Cache/Contracts.antt =====
-- app/cache/contracts.py: the vocabulary of the cache decision, its error, and the trial grant.
-- The mapping of a `CacheDecisionError` keeps its code and reason; its message is fixed prose.
use model_relay.Prelude.{
  ◌≡◌, refl, ◌⊎◌, inl, inr, arith, if◌then◌else◌, String, Bool, true, false, ◌&&◌, Option, none,
  List, [], ◌∷◌, ◌||◌,
}
use model_relay.Python.Value.{Fields, get, is_text, is_true}

-- `Literal["stateful_resource", "breakpoint", "implicit_prefix"]`
pub data Mechanism : Type 0 where
  stateful_resource breakpoint implicit_prefix : Mechanism

-- `Literal["off", "auto", "on"]`
pub data Mode : Type 0 where
  off auto on : Mode

-- The texts that `requested_mechanism` may hold.
pub data Preference : Type 0 where
  auto implicit_prefix stateful_resource : Preference

pub data ResolutionStatus : Type 0 where
  pending finalized : ResolutionStatus

pub data Compatibility : Type 0 where
  mutually_exclusive composite_layered exclusive_by_policy implicit_only : Compatibility

-- The exceptions that the cache code raises; `value_error` stands for the interpreter's own.
pub data Error : Type 0 where
  cache_decision : String → Option String → Error
  value_error : Error

pub data Result {ℓ} (A : Type ℓ) : Type ℓ where
  ok : A → Result A
  raised : Error → Result A

infixl 5 ◌>>=◌ ◌>>◌
abbrev pub ◌>>=◌ {ℓ κ} : {A : Type ℓ} {B : Type κ} → Result A → (A → Result B) → Result B
ok a >>= f = f a
raised e >>= f = raised e

abbrev pub ◌>>◌ {ℓ} : {B : Type ℓ} → Result (Unit {0}) → Result B → Result B
m >> k = m >>= λ _. k

-- `if b: raise CacheDecisionError(code, …)`
abbrev pub refuse_if : Bool → String → Result (Unit {0})
refuse_if true code = raised (cache_decision code none)
refuse_if false code = ok tt

pub ok_injective {ℓ} : {A : Type ℓ} {a b : A} → ok a ≡ ok b → a ≡ b
ok_injective h = cc

pub guarded_ok {ℓ} :
    {A : Type ℓ} (b : Bool) (e : Error) (v : A) {d : A}
    → (if b then raised e else ok v) ≡ ok d
    → (v ≡ d) × (b ≡ false)
guarded_ok true e v h = cc
guarded_ok false e v h = (ground arith, refl)

-- A sequence that succeeds passes through a value.
pub bind_ok {ℓ κ} :
    {A : Type ℓ} {B : Type κ} (r : Result A) (f : A → Result B) {b : B}
    → (r >>= f) ≡ ok b
    → (a : A) × (r ≡ ok a) × (f a ≡ ok b)
bind_ok (ok a) f h = (a, refl, h)
bind_ok (raised e) f h = cc

-- A branch that succeeds is one of the two.
pub branch_ok {ℓ} :
    {A : Type ℓ} (b : Bool) (x y : Result A) {a : A}
    → (if b then x else y) ≡ ok a
    → (x ≡ ok a) ⊎ (y ≡ ok a)
branch_ok true x y h = inl h
branch_ok false x y h = inr h

-- Three tests and then a value: what each outcome says of the tests.
module _ {ℓ} {A : Type ℓ} (a b c : Bool) (x y z : String) (v : A) where
  pub three_tests_ok :
      {d : A} → (refuse_if a x >> (refuse_if b y >> (refuse_if c z >> ok v))) ≡ ok d → v ≡ d
  three_tests_ok h = ground arith

  pub three_tests_raised :
      {e : Error}
      → (refuse_if a x >> (refuse_if b y >> (refuse_if c z >> ok v))) ≡ raised e
      → ((e ≡ cache_decision x none) × (a ≡ true))
        ⊎ ((e ≡ cache_decision y none) × (b ≡ true))
        ⊎ ((e ≡ cache_decision z none) × (c ≡ true))
  three_tests_raised h = ground arith

abbrev pub mechanism_name : Mechanism → String
mechanism_name stateful_resource = "stateful_resource"
mechanism_name breakpoint = "breakpoint"
mechanism_name implicit_prefix = "implicit_prefix"

abbrev pub same : Mechanism → Mechanism → Bool
same stateful_resource stateful_resource = true
same breakpoint breakpoint = true
same implicit_prefix implicit_prefix = true
same _ _ = false

pub same→eq : (a b : Mechanism) → same a b ≡ true → a ≡ b
same→eq stateful_resource stateful_resource h = refl
same→eq stateful_resource breakpoint h = cc
same→eq stateful_resource implicit_prefix h = cc
same→eq breakpoint stateful_resource h = cc
same→eq breakpoint breakpoint h = refl
same→eq breakpoint implicit_prefix h = cc
same→eq implicit_prefix stateful_resource h = cc
same→eq implicit_prefix breakpoint h = cc
same→eq implicit_prefix implicit_prefix h = refl

-- `name in {"stateful_resource", "breakpoint"}`
abbrev pub is_controlled : Mechanism → Bool
is_controlled implicit_prefix = false
is_controlled _ = true

-- `name == preference`
abbrev pub is_preferred : Preference → Mechanism → Bool
is_preferred Preference.implicit_prefix implicit_prefix = true
is_preferred Preference.stateful_resource stateful_resource = true
is_preferred _ _ = false

abbrev pub is_auto : Preference → Bool
is_auto Preference.auto = true
is_auto _ = false

abbrev pub mode_is_on : Mode → Bool
mode_is_on Mode.on = true
mode_is_on _ = false

abbrev pub mode_is_auto : Mode → Bool
mode_is_auto Mode.auto = true
mode_is_auto _ = false

-- `name in names`
abbrev pub has : List Mechanism → Mechanism → Bool
has [] m = false
has (x ∷ xs) m = same x m || has xs m

-- A grant by the control plane; nothing else admits an unverified mechanism on trial.
unfoldable pub provider_managed_trial_enabled : {F : Type 0} → Fields F → Bool
provider_managed_trial_enabled config =
    is_text "trial" (get "verification_status" config)
    && (is_true (get "auto_trial_enabled" config)
        && is_text "provider_managed_trial" (get "threshold_mode" config))
