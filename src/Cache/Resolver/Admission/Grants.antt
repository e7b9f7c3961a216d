-- ===== src/Cache/Resolver/Admission/Grants.antt =====
-- On what grant app/cache/intent_resolver.py admits a mechanism.
use model_relay.Prelude.{
  String, ◌≡◌, refl, ◌⊎◌, inl, inr, Bool, true, false, not, ◌&&◌, Option, none, some, List, [], ◌∷◌,
  arith, All, All-imp, contains, Bool-cases, and_true, if◌then◌else◌,
}
use model_relay.Python.Runtime.{Runtime}
use model_relay.Cache.Contracts.{
  Mechanism, stateful_resource, breakpoint, implicit_prefix, Mode, mode_is_auto, mechanism_name,
  same, same→eq, has, ok, ok_injective, bind_ok, provider_managed_trial_enabled,
}
use model_relay.Cache.Resolver.Admission.{
  Supply, Grant, Admission, is_verified_status, is_verified, is_gemini, is_unset, profile_of,
  profile_cache, status, wire_status, is_certified, is_trial, is_override, legacy_gemini_attempt,
  grant_of, add_grant, admit, candidates_of, declared_of, supported_by_profile, admit_mechanisms,
}

auto_of : (mode : Mode) → mode_is_auto mode ≡ true → mode ≡ Mode.auto
auto_of Mode.off h = cc
auto_of Mode.auto h = refl
auto_of Mode.on h = cc

-- The ladder of the three branches.
three_grants :
    (c t o : Bool) {g : Grant}
    → (if c
        then some Grant.certified
        else if t
        then some Grant.trial
        else if o
        then some Grant.legacy
        else none)
      ≡ some g
    → (c ≡ true) ⊎ (t ≡ true) ⊎ (o ≡ true)
three_grants c t o h = ground arith

-- A conjunction of six, without its fourth member.
five_of_six :
    (a b c d e f : Bool)
    → a && (b && (c && (d && (e && f)))) ≡ true
    → (a ≡ true) × (b ≡ true) × (c ≡ true) × (e ≡ true) × (f ≡ true)
five_of_six a b c d e f h = ground arith

four_of_five :
    (a b c d e : Bool)
    → (a && (not b && c)) && (not d && e) ≡ true
    → (a ≡ true) × (b ≡ false) × (d ≡ false) × (e ≡ true)
four_of_five a b c d e h = ground arith

module _ (R : Runtime) where
  open R use {F}

  -- A certificate of both the contract and the wire format; a trial that both grant, under `auto`,
  -- for Gemini's implicit prefix; or the override for an old request's stateful resource.
  abbrev pub IsGranted : Supply F → Mechanism → Type 0
  IsGranted s m =
      ((is_verified_status (status R s m) ≡ true) × (is_verified_status (wire_status R s m) ≡ true))
      ⊎ ((s.mode ≡ Mode.auto)
          × (m ≡ implicit_prefix)
          × (is_gemini s ≡ true)
          × (provider_managed_trial_enabled (profile_of s.contract m) ≡ true)
          × (provider_managed_trial_enabled (profile_of (profile_cache s) m) ≡ true))
      ⊎ ((m ≡ stateful_resource)
          × (is_unset R s.upgrade ≡ true)
          × (s.mechanism_explicit ≡ false)
          × (is_verified R s ≡ false))

  grant_of-IsGranted :
      (s : Supply F) (m : Mechanism) (g : Grant) → grant_of R s m ≡ some g → IsGranted s m
  unfolding grant_of legacy_gemini_attempt
  grant_of-IsGranted s m g h =
      elim (three_grants (is_certified R s m) (is_trial R s m) (is_override R s m) h) [
        | inl c ↦ inl (and_true _ _ c)
        | inr (inl t) ↦
            let p =
              five_of_six (mode_is_auto s.mode) (same m implicit_prefix) (is_gemini s) _ _ _ t in
            inr (inl (auto_of _ p.0, same→eq m _ p.1, p.2, p.3, p.4))
        | inr (inr o) ↦
            let p =
              four_of_five (is_unset R s.upgrade) s.mechanism_explicit _ (is_verified R s)
                (same m stateful_resource) o in
            inr (inr (same→eq m _ p.3, p.0, p.1, p.2))
      ]

  add_grant-All :
      (Q : Mechanism → Type 0) (m : Mechanism) (o : Option Grant) (a : Admission)
      → ((g : Grant) → o ≡ some g → Q m)
      → All Q a.admitted
      → All Q (add_grant R m o a).admitted
  add_grant-All Q m none a q h = h
  add_grant-All Q m (some Grant.certified) a q h = (q _ refl, h)
  add_grant-All Q m (some Grant.trial) a q h = (q _ refl, h)
  add_grant-All Q m (some Grant.legacy) a q h = (q _ refl, h)

  admit-All :
      (s : Supply F) (P : Mechanism → Type 0) (ms : List Mechanism)
      → All P ms
      → All (λ m. P m × IsGranted s m) (admit R s ms).admitted
  unfolding admit
  admit-All s P [] h = tt
  admit-All s P (m ∷ ms) (p, h) =
      add_grant-All (λ m. P m × IsGranted s m) m (grant_of R s m) (admit R s ms)
        (λ g e. (p, grant_of-IsGranted s m g e)) (admit-All s P ms h)

  -- Under `on` the second branch is never taken.
  forced-grant :
      (s : Supply F) (m : Mechanism) → s.mode ≡ Mode.on → (grant_of R s m ≡ some Grant.trial) → ⊥
  unfolding grant_of
  forced-grant s m e h = ground (arith, rw e at h)

  add_grant-trials :
      (m : Mechanism) (o : Option Grant) (a : Admission)
      → ((o ≡ some Grant.trial) → ⊥)
      → a.trials ≡ []
      → (add_grant R m o a).trials ≡ []
  add_grant-trials m none a n h = h
  add_grant-trials m (some Grant.certified) a n h = h
  add_grant-trials m (some Grant.trial) a n h = absurd (n refl)
  add_grant-trials m (some Grant.legacy) a n h = h

  admit-trials :
      (s : Supply F) (ms : List Mechanism) → s.mode ≡ Mode.on → (admit R s ms).trials ≡ []
  unfolding admit
  admit-trials s [] e = refl
  admit-trials s (m ∷ ms) e =
      add_grant-trials m (grant_of R s m) (admit R s ms) (forced-grant s m e) (admit-trials s ms e)

-- A mechanism that the contract declares and the profile supports.
abbrev pub IsDeclared : List Mechanism → List String → Mechanism → Type 0
IsDeclared declared supported m =
    (has declared m ≡ true) × (contains supported (mechanism_name m) ≡ true)

same_refl : (m : Mechanism) → same m m ≡ true
same_refl stateful_resource = refl
same_refl breakpoint = refl
same_refl implicit_prefix = refl

candidates_of-IsDeclared :
    (supported : List String) (ms : List Mechanism)
    → All (IsDeclared ms supported) (candidates_of supported ms)
unfolding candidates_of
candidates_of-IsDeclared supported [] = tt
candidates_of-IsDeclared supported (m ∷ ms) =
    let rest : All (IsDeclared (m ∷ ms) supported) (candidates_of supported ms) =
      All-imp _ (λ k (d, c). (ground arith, c)) (candidates_of-IsDeclared supported ms) in
    elim (Bool-cases (contains supported (mechanism_name m))) [
      | inl e ↦ rw e ((rw same_refl refl, e), rest)
      | inr e ↦ rw e rest
    ]

module _ (R : Runtime) (unified : Bool) (s : Supply R.F) {a : Admission} where
  admitted_from :
      admit_mechanisms R unified s ≡ ok a
      → (declared : List Mechanism) × (supported : List String) × (declared_of R s.contract
          ≡ ok declared)
        × (supported_by_profile R unified (profile_cache s) declared ≡ ok supported)
        × (admit R s (candidates_of supported declared) ≡ a)
  unfolding admit_mechanisms
  admitted_from h =
      let d = bind_ok (declared_of R s.contract) _ h in
      let p = bind_ok (supported_by_profile R unified (profile_cache s) d.0) _ d.2 in
      (d.0, p.0, d.1, p.1, ok_injective p.2)

  -- Every admitted mechanism is declared by the contract, supported by the profile, and either
  -- certified by both, or the implicit prefix of Gemini on a trial that both grant under `auto`, or
  -- the stateful resource of a request without upgrade or explicit mechanism whose contract is not
  -- verified.
  pub admit_mechanisms-IsGranted :
      admit_mechanisms R unified s ≡ ok a
      → (declared : List Mechanism) × (supported : List String) × (declared_of R s.contract
          ≡ ok declared)
        × (supported_by_profile R unified (profile_cache s) declared ≡ ok supported)
        × All (λ m. IsDeclared declared supported m × IsGranted R s m) a.admitted
  admit_mechanisms-IsGranted h =
      let f = admitted_from h in
      (
        f.0,
        f.1,
        f.2,
        f.3,
        rw (← f.4) (admit-All R s (IsDeclared f.0 f.1) _ (candidates_of-IsDeclared f.1 f.0)),
      )

  -- A request under `on` never admits a mechanism on trial.
  pub forced_without_trial : admit_mechanisms R unified s ≡ ok a → s.mode ≡ Mode.on → a.trials ≡ []
  forced_without_trial h e = let f = admitted_from h in rw (← f.4) (admit-trials R s _ e)
