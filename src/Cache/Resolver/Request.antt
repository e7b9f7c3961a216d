-- ===== src/Cache/Resolver/Request.antt =====
-- What `CacheIntentResolver.resolve` of app/cache/intent_resolver.py is given, and the facts that it
-- derives before it looks at a mechanism.
use model_relay.Prelude.{
  ℕ, String, Bool, true, false, not, ◌||◌, ◌&&◌, Option, none, some, or_default, List, is_empty,
  if◌then◌else◌,
}
use model_relay.Prelude.Int.{ℤ, pos}
use model_relay.Python.Value.{
  Value, Fields, field, end, get, get_or, has_key, as_dict, is_true, is_text, as_count, as_positive,
  nat,
}
use model_relay.Python.Runtime.{Runtime, or_else, int_value}
use model_relay.Cache.Contracts.{
  Mode, mode_is_auto, Result, ok, raised, value_error, stateful_resource,
}
use model_relay.Cache.Economics.Numbers.{is_zero}
use model_relay.Cache.Economics.Forecast.{
  Forecast, estimate_future_reuses, estimate_ttl_bounded_future_reuses,
}
use model_relay.Cache.Planner.Plan.{Rejection, Conditions, intent_plan}
use model_relay.Cache.Resolver.Admission.{Supply, is_gemini, is_unset, profile_of}
use model_relay.Cache.Resolver.Gates.{Intent}

-- The arguments; `contract`, `policy` and the two kinds of evidence are `{}` where they are no
-- mapping, and the last fields before them are the entries of the context plan.
pub record Request (F : Type 0) : Type 0 where
  pub requested_mode : Option String
  pub requested_mechanism : Option String
  pub mechanism_explicit : Bool
  pub provider : Option String
  pub model : Option String
  pub cache_contract_hash : Option String
  pub profile_hash : Option String
  pub policy_hash : Option String
  pub context_plan_hash : String
  pub cache_upgrade : Fields F
  pub stable_prefix_segment_ids : List String
  pub history_version : Value F
  pub token_assessment : Fields F
  pub contract : Fields F
  pub protocol_profile : Fields F
  pub policy : Fields F
  pub reuse_evidence : Fields F
  pub attachment_evidence : Fields F

module _ {F : Type 0} where
  unfoldable pub supply_of : Request F → Mode → Supply F
  supply_of q mode = record {
    mode = mode;
    provider = q.provider;
    model = q.model;
    mechanism_explicit = q.mechanism_explicit;
    upgrade = q.cache_upgrade;
    contract = q.contract;
    protocol_profile = q.protocol_profile;
  }

  abbrev pub economics_of : Request F → Fields F
  economics_of q = as_dict (get "auto_economics" (as_dict (get "metadata" q.policy)))

  abbrev pub resource_hint : Request F → Bool
  resource_hint q = is_true (get "existing_resource_candidate" q.reuse_evidence)

  -- The lifetime of the contract's stateful resource.
  abbrev pub ttl_of : Request F → ℕ
  ttl_of q =
      or_default 3600 (as_positive (get "ttl_seconds" (profile_of q.contract stateful_resource)))

  -- A contract with its own status for a mechanism is read by the seventh resolver.
  abbrev declares_status : Value F → Bool
  declares_status (Value.dict cfg) =
      has_key "verification_status" cfg
      || is_text "provider_managed_trial" (get "threshold_mode" cfg)
  declares_status _ = false

  unfoldable pub any_status : Fields F → Bool
  any_status end = false
  any_status (field m v rest) = declares_status v || any_status rest

  abbrev pub resolver_version : Request F → String
  resolver_version q =
      if any_status (as_dict (get "mechanism_profiles" q.contract))
      then "relay-cache-resolver/7"
      else "relay-cache-resolver/6"

  -- The mapping that a forecast is frozen as.
  abbrev pub forecast_fields : Forecast F → Fields F
  forecast_fields f = field "expected_future_reuses" (nat f.expected_future_reuses) (
      field "source" (Value.text f.source)
        (field "observed_compatible_uses" (nat f.observed_compatible_uses) f.details))

  -- `_none`: a finalized plan without a cache.
  unfoldable pub none_plan :
      Request F → Intent → String → Fields F → String → List Rejection → Conditions F
  none_plan q intent reason prediction version rejections = intent_plan (record {
    planned_mechanism = none;
    canonical = record {
      requested_mode = intent.mode;
      requested_mechanism = intent.preference;
      context_plan_hash = q.context_plan_hash;
      cache_contract_hash = q.cache_contract_hash;
      profile_hash = q.profile_hash;
      policy_hash = q.policy_hash;
      scope = "session";
      resolver_version = version;
      allow_uncached_same_context = false;
      reuse_prediction = prediction;
      selection_evidence = end;
      decision_reason = some reason;
    };
    candidate_rejections = rejections;
  })

module _ (R : Runtime) where
  open R use {F}

  -- The forecast of reuse, by the cadence for Gemini under `auto`.
  unfoldable pub predict : Request F → Mode → Result (Forecast F)
  predict q mode =
      if is_gemini (supply_of q mode) && mode_is_auto mode
      then estimate_ttl_bounded_future_reuses R (economics_of q) q.reuse_evidence (nat (ttl_of q))
      else ok (
          estimate_future_reuses (economics_of q) (
            pos (
              or_default 0
                (as_count (get_or (nat 0) "observed_compatible_uses" q.reuse_evidence)))))

  -- `x == 0`
  abbrev is_zero_value : Value F → Bool
  is_zero_value (Value.int (pos ℕ.zero)) = true
  is_zero_value (Value.bool b) = not b
  is_zero_value (Value.float x) = is_zero R x
  is_zero_value _ = false

  abbrev is_zero_int : Option ℤ → Bool → Result Bool
  is_zero_int none b = raised value_error
  is_zero_int (some (pos ℕ.zero)) b = ok true
  is_zero_int (some _) b = ok b

  -- A Session's first request on a large attachment.
  unfoldable pub cold_start : Request F → Result Bool
  cold_start q =
      if not (is_unset R q.cache_upgrade)
        && (is_gemini (supply_of q Mode.auto)
            && (not (is_empty q.stable_prefix_segment_ids)
                && is_true (get "large_stable_attachment_candidate" q.attachment_evidence)))
      then is_zero_int (int_value R (or_else R q.history_version (nat 0)))
          (is_zero_value (get_or (nat 0) "observed_compatible_uses" q.reuse_evidence))
      else ok false
