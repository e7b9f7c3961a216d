-- ===== src/ModelOptions/Legacy.antt =====
-- app/model_options.py for a Session without a capability contract, and `resolve_model_options` and
-- `validate_structured_output_capability` as a whole. `glob` is `fnmatchcase`.
use model_relay.Prelude.{
  String, Bool, true, false, not, ◌||◌, ◌&&◌, Option, none, or_default, List, [], ◌∷◌, ◌++◌, ◌==◌,
  contains, if◌then◌else◌,
}
use model_relay.Python.Value.{Value, Fields, field, end, get, nat}
use model_relay.Python.Text.{lower, strip, is_blank}
use model_relay.Python.Runtime.{Runtime, str}
use model_relay.Cache.Resolver.Admission.{starts_with}
use model_relay.Routing.Outcome.{Outcome, found, failed, model_option, ◌>>=◌}
use model_relay.Routing.Requirements.{sorted_texts, missing_of}
use model_relay.ModelOptions.{Comparison, refuse, validate_contract_value}
use model_relay.ModelOptions.Payload.{
  keys_of, refuse_first, merge_legacy_provider_payload, level_of,
}
use model_relay.ModelOptions.Contract.{ResolvedModelOptions, sorted_fields, resolve_with_contract}

pub record CapabilityProfile : Type 0 where
  pub provider : String
  pub model_pattern : String
  pub supported_options : List String
  pub supported_think_levels : List String

abbrev profile_for : String → String → List String → List String → CapabilityProfile
profile_for provider pattern options levels = record {
  provider = provider;
  model_pattern = pattern;
  supported_options = options;
  supported_think_levels = levels;
}

abbrev two_options : List String
two_options = "temperature" ∷ "max_output_tokens" ∷ []

abbrev three_options : List String
three_options = "temperature" ∷ "top_p" ∷ "max_output_tokens" ∷ []

abbrev four_levels : List String
four_levels = "auto" ∷ "low" ∷ "medium" ∷ "high" ∷ []

-- `_PROFILES`
abbrev profiles : List CapabilityProfile
profiles =
    profile_for "gemini" "gemini-3.6-*" two_options four_levels
    ∷ profile_for "gemini" "gemini-3.5-*" two_options four_levels
    ∷ profile_for "gemini" "gemini-*" three_options four_levels
    ∷ profile_for "grok" "grok-4.6" three_options (four_levels ++ ("xhigh" ∷ []))
    ∷ profile_for "grok" "grok-*" three_options four_levels
    ∷ profile_for "kimi" "kimi-k3*" three_options ("auto" ∷ "low" ∷ "high" ∷ "max" ∷ [])
    ∷ profile_for "kimi" "kimi-k2.7-code*" three_options ("auto" ∷ [])
    ∷ profile_for "kimi" "kimi-*" three_options ("auto" ∷ [])
    ∷ []

abbrev matches_profile : (String → String → Bool) → String → String → CapabilityProfile → Bool
matches_profile glob provider model p =
    p.provider == provider && glob (lower model) (lower p.model_pattern)

unfoldable pub first_profile :
    (String → String → Bool) → String → String → List CapabilityProfile → Outcome CapabilityProfile
first_profile glob provider model [] =
    failed (model_option "OPTION_CAPABILITY_PROFILE_NOT_FOUND" none)
first_profile glob provider model (p ∷ ps) =
    let rest = first_profile glob provider model ps in
    if matches_profile glob provider model p then found p else rest

module _ {F : Type 0} where
  -- The rule that a legacy value is held against.
  abbrev legacy_rule : String → Fields F
  legacy_rule option =
      field "type" (Value.text (if option == "max_output_tokens" then "integer" else "number")) (
        field "min" (nat (if option == "max_output_tokens" then 1 else 0)) (
          field "max"
            (if option == "temperature"
              then nat 2
              else if option == "top_p"
              then nat 1
              else Value.null)
            end))

module _ (R : Runtime) (C : Comparison R.F) (glob : String → String → Bool) where
  open R use {F}

  unfoldable pub validated_legacy : Fields F → Outcome (Fields F)
  validated_legacy end = found end
  validated_legacy (field k v fs) = do
    w ← validate_contract_value R C k (legacy_rule k) v
    rest ← validated_legacy fs
    found (field k w rest)

  abbrev is_always_thinking : String → String → Bool
  is_always_thinking provider model =
      provider == "kimi" && starts_with "kimi-k2.7-code" (lower model)

  abbrev refuse_level : Bool → Outcome (Unit {0})
  refuse_level true = refuse "THINK_LEVEL_UNSUPPORTED" "think_level"
  refuse_level false = found tt

  -- `_resolve_legacy`
  unfoldable pub resolve_legacy :
      String → String → Fields F → Fields F → Option String → Outcome (ResolvedModelOptions F)
  unfolding validated_legacy
  resolve_legacy provider model options payload think = do
    profile ← first_profile glob provider model profiles
    requested ← merge_legacy_provider_payload C options payload
    level ← refuse_level (
        not (is_always_thinking provider model)
        && not (contains profile.supported_think_levels (level_of think)))
    done ←
        refuse_first "OPTION_UNSUPPORTED"
          (sorted_texts (missing_of (keys_of requested) profile.supported_options))
    effective ← validated_legacy (sorted_fields requested)
    found (record {
      requested_options = effective;
      effective_options = effective;
      requested_think_level = level_of think;
      effective_think_level = if is_always_thinking provider model then "on" else level_of think;
      capability_revision = "relay-model-options/2026-09-27.1";
      capability_contract_id = none;
    })

  unfoldable pub resolve_model_options :
      Option String
      → Option String
      → Fields F
      → Fields F
      → Option String
      → Fields F
      → Outcome (ResolvedModelOptions F)
  unfolding resolve_legacy
  resolve_model_options provider model options payload think end =
      resolve_legacy (lower (strip (or_default "" provider))) (strip (or_default "" model)) options
        payload think
  resolve_model_options provider model options payload think (field k v contract) =
      resolve_with_contract R C (strip (or_default "" model)) options payload think
        (field k v contract)

module _ (R : Runtime) where
  open R use {F}

  abbrev mode_of : Value F → String
  mode_of (Value.dict d) = lower (str R (get "mode" d))
  mode_of v = "none"

  -- `validate_structured_output_capability`: the output that is asked for, and the contract.
  unfoldable pub validate_structured_output_capability : Fields F → Fields F → Outcome String
  validate_structured_output_capability end contract = found "none"
  validate_structured_output_capability (field k v output) end = found "legacy"
  validate_structured_output_capability (field k v output) (field j w contract) =
      let mode = mode_of (get "structured_output" (field j w contract)) in
      if is_blank mode || mode == "none"
      then refuse "STRUCTURED_OUTPUT_UNSUPPORTED" "structured_output"
      else found mode
