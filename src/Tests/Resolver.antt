-- ===== src/Tests/Resolver.antt =====
-- app/cache/intent_resolver.py on one Gemini supply.
use model_relay.Cache.Planner.Plan.{Rejection}
use model_relay.Cache.Resolver.Gates.{
  first_reason, is_shared, admission_gate, forced_gate, final_refusal,
}
use model_relay.Cache.Resolver.Gates.Policy.{gates_degrade, forced_refusal}
use model_relay.Python.Text.{lower}
use model_relay.Python.Runtime.{or_else, str}
use model_relay.Prelude.{
  ◌&&◌, Option, none, ◌⊎◌, ◌≡◌, refl, ◌+◌, String, true, false, some, List, [], ◌∷◌, All, length,
}
use model_relay.Prelude.Int.{ℤ}
use model_relay.Python.Value.{Value, nil, cons, Fields, field, end, nat, get_or, has_key, put}
use model_relay.Cache.Contracts.{
  Mechanism, stateful_resource, implicit_prefix, Mode, Preference, ok,
  provider_managed_trial_enabled,
}
use model_relay.Cache.Resolver.Admission.{
  is_unset, is_gemini, Supply, Admission, declared_of, supported_by_profile, profile_cache,
  admit_mechanisms, admit, candidates_of, grant_of, legacy_gemini_attempt,
}
use model_relay.Cache.Resolver.Admission.Grants.{IsGranted, IsDeclared, admit_mechanisms-IsGranted}
use model_relay.Cache.Resolver.Threshold.{
  Context, Outcome, screen_ordered, screen_mechanism, prepared_config, record_round, verdict,
  reading_of,
}
use model_relay.Cache.Resolver.Threshold.Evidence.{Holds, screen_ordered-Holds}
use model_relay.Tests.Fixed.{fixed}

-- The resource is certified, the implicit prefix on trial.
abbrev grant : Fields ℤ
grant = field "verification_status" (Value.text "trial") (
    field "auto_trial_enabled" (Value.bool true)
      (field "threshold_mode" (Value.text "provider_managed_trial") end))

abbrev create : Fields ℤ
create =
    field "verification_status" (Value.text "verified")
      (field "threshold_mode" (Value.text "provider_create") end)

abbrev pub profiles : Value ℤ
profiles =
    Value.dict (
      field "stateful_resource" (Value.dict create)
        (field "implicit_prefix" (Value.dict grant) end))

abbrev pub supported : Value ℤ
supported =
    Value.list (cons (Value.text "stateful_resource") (cons (Value.text "implicit_prefix") nil))

abbrev supply : Mode → Supply ℤ
supply mode = record {
  mode = mode;
  provider = some "Gemini";
  model = some "gemini-pro";
  mechanism_explicit = false;
  upgrade = field "version" (nat 4) end;
  contract = field "supported_mechanisms" supported (field "mechanism_profiles" profiles end);
  protocol_profile =
      field "protocol" (Value.text "gemini_native")
        (field "cache" (Value.dict (field "mechanism_profiles" profiles end)) end);
}

abbrev both_admitted : Admission
both_admitted = record {
  certified = stateful_resource ∷ [];
  trials = implicit_prefix ∷ [];
  admitted = stateful_resource ∷ implicit_prefix ∷ [];
}

admits_both : admit_mechanisms fixed true (supply Mode.auto) ≡ ok both_admitted
unfolding admit_mechanisms declared_of or_else get_or supported_by_profile has_key admit
    candidates_of str grant_of lower provider_managed_trial_enabled
admits_both = refl

admit_mechanisms-IsGranted_example :
    (declared : List Mechanism) × (names : List String) × (declared_of fixed
        (supply Mode.auto).contract
      ≡ ok declared)
    × (supported_by_profile fixed true (profile_cache (supply Mode.auto)) declared ≡ ok names)
    × All
        (λ m. IsDeclared declared names m × IsGranted fixed (supply Mode.auto) m)
        both_admitted.admitted
admit_mechanisms-IsGranted_example =
    admit_mechanisms-IsGranted fixed true (supply Mode.auto) {a = both_admitted} admits_both

abbrev one_admitted : Admission
one_admitted = record {
  certified = stateful_resource ∷ [];
  trials = [];
  admitted = stateful_resource ∷ [];
}

admits_one : admit_mechanisms fixed true (supply Mode.on) ≡ ok one_admitted
unfolding admit_mechanisms declared_of or_else get_or supported_by_profile has_key admit
    candidates_of str grant_of lower legacy_gemini_attempt
admits_one = refl

abbrev context : Context ℤ
context = record {
  supply = supply Mode.auto;
  trials = implicit_prefix ∷ [];
  watchdog = false;
  has_prefix = true;
  assessment = end;
}

abbrev screened : Outcome ℤ
screened = record {
  eligible =
      record { mechanism = stateful_resource; config = create; uncertain = false }
      ∷ record {
        mechanism = implicit_prefix;
        config = field "verification_status" (Value.text "trial") (
            field "auto_trial_enabled" (Value.bool true) (
              field "threshold_mode" (Value.text "provider_managed_trial")
                (field "admission_status" (Value.text "provider_managed_trial") end)));
        uncertain = false;
      }
      ∷ [];
  rejections = [];
}

screens : screen_ordered fixed context (stateful_resource ∷ implicit_prefix ∷ []) ≡ ok screened
unfolding screen_ordered screen_mechanism prepared_config record_round verdict reading_of lower str
    or_else get_or legacy_gemini_attempt put
screens = refl

screen_ordered-Holds_example :
    All (Holds fixed context) screened.eligible
    × (length screened.eligible + length screened.rejections ≡ 2)
screen_ordered-Holds_example =
    screen_ordered-Holds fixed context (stateful_resource ∷ implicit_prefix ∷ []) {o = screened}
      screens

passes_gate : admission_gate fixed (supply Mode.auto) Preference.auto end both_admitted ≡ ok none
unfolding admission_gate lower str or_else get_or legacy_gemini_attempt
passes_gate = refl

abbrev too_short : List Rejection
too_short = record { mechanism = stateful_resource; reason = "below_minimum" } ∷ []

gates_degrade_example :
    ((is_shared fixed end ≡ true)
      ⊎ ((o : Option String) × (admission_gate fixed
              (supply Mode.auto)
              Preference.auto
              end
              both_admitted
            ≡ ok o)))
    × (forced_gate fixed Mode.auto Preference.auto [] too_short ≡ ok none)
    × ((r : String) × (final_refusal fixed
            (supply Mode.auto)
            false
            (stateful_resource ∷ [])
            too_short
          ≡ ok r))
gates_degrade_example =
    gates_degrade fixed (supply Mode.auto) Preference.auto end both_admitted false
      (stateful_resource ∷ []) [] too_short refl

ends_short :
    final_refusal fixed (supply Mode.on) false (stateful_resource ∷ []) too_short
    ≡ ok "below_minimum"
unfolding final_refusal
ends_short = refl

forced_refusal_example :
    (first_reason too_short ≡ "below_minimum")
    ⊎ ((first_reason too_short ≡ "context_assessment_uncertain")
        × (is_unset fixed (supply Mode.on).upgrade ≡ true)
        × (false ≡ false)
        × ((is_gemini (supply Mode.on) && false) ≡ false))
forced_refusal_example =
    forced_refusal fixed (supply Mode.on) false (stateful_resource ∷ []) too_short ends_short refl
