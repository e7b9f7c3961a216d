-- ===== src/Tests/Request.antt =====
-- A request from resolve of app/cache/intent_resolver.py to the branch that is selected.
use model_relay.Cache.Resolver.Threshold.{
  prepared_config, reading_of, record_round, screen_mechanism, screen_ordered, threshold_mode,
  verdict,
}
use model_relay.Cache.Resolver.Resources.{resource_economics, upgrade_economics, without_implicit}
use model_relay.Cache.Economics.Numbers.{nonnegative, usable_amount}
use model_relay.Cache.Economics.Forecast.{
  estimate_ttl_bounded_future_reuses, estimate_future_reuses,
}
use model_relay.Cache.Resolver.Admission.{
  admit_mechanisms, declared_of, supported_by_profile, admit, candidates_of, grant_of, iterate,
  known, legacy_gemini_attempt, starts_with,
}
use model_relay.Prelude.{◌≡◌, refl, false, none, some, [], ◌∷◌, All}
use model_relay.Prelude.Int.{ℤ}
use model_relay.Python.Value.{Value, Fields, field, end, nat, get_or, has_key, put, merge}
use model_relay.Python.Runtime.{or_else, str, truthy, int_value, max_f, min_f, to_float}
use model_relay.Python.Text.{lower, strip}
use model_relay.Cache.Contracts.{
  stateful_resource, Mode, Preference, Result, ok, raised, provider_managed_trial_enabled,
}
use model_relay.Cache.Planner.Plan.{
  CacheConditionSet, Conditions, condition_set, intent_plan, UnifiedPlan, build_unified_plan,
  screen_one, screen, plan_of, start,
}
use model_relay.Cache.Planner.Arbitration.{
  Decision, arbitrate_unified_plan, choose, ready_of, passes, chosen,
}
use model_relay.Cache.Contracts.{mutually_exclusive}
use model_relay.Cache.Planner.Choice.{IsAuthorized}
use model_relay.Cache.Resolver.Admission.Grants.{IsGranted}
use model_relay.Cache.Resolver.Gates.{
  is_denied, read_intent, mode_of, preference_of, admission_gate, final_refusal, forced_gate,
}
use model_relay.Cache.Resolver.Request.{
  Request, supply_of, predict, any_status, cold_start, none_plan,
}
use model_relay.Cache.Resolver.Unified.{
  resolve_unified, among, common_of, conclude, conditions_of, mechanisms, missing, ordered_of,
  preferred_order, priced_candidate, proceed, refusal_of, resolve_on, screened, screened_all,
  screened_one,
}
use model_relay.Cache.Resolver.Unified.Entitled.{selected_was_admitted}
use model_relay.Tests.Fixed.{fixed}
use model_relay.Tests.Resolver.{profiles, supported}
use model_relay.Tests.Planner.{both}

abbrev gemini_profile : Fields ℤ
gemini_profile = field "protocol" (Value.text "gemini_native") end

abbrev request : Request ℤ
request = record {
  requested_mode = some "auto";
  requested_mechanism = some "auto";
  mechanism_explicit = false;
  provider = some "Gemini";
  model = some "gemini-pro";
  cache_contract_hash = none;
  profile_hash = none;
  policy_hash = none;
  context_plan_hash = "c";
  cache_upgrade =
      field "version" (nat 4)
        (field "max_uncached_tokens" (nat 8192) (field "minimum_roll_delta" (nat 4096) end));
  stable_prefix_segment_ids = "seg-0" ∷ [];
  history_version = nat 2;
  token_assessment = end;
  contract = field "supported_mechanisms" supported (field "mechanism_profiles" profiles end);
  protocol_profile =
      field "protocol" (Value.text "gemini_native")
        (field "cache" (Value.dict (field "mechanism_profiles" profiles end)) end);
  policy = end;
  reuse_evidence = end;
  attachment_evidence = end;
}

abbrev no_conditions : CacheConditionSet ℤ
no_conditions = record {
  common = record {
    requested_mode = Mode.off;
    requested_mechanism = Preference.auto;
    context_plan_hash = "";
    cache_contract_hash = none;
    profile_hash = none;
    policy_hash = none;
    scope = "";
    resolver_version = "";
    allow_uncached_same_context = false;
    reuse_prediction = end;
    selection_evidence = end;
    decision_reason = none;
  };
  eligible = [];
  rejections = [];
}

abbrev conditions_in : Result (Conditions ℤ) → CacheConditionSet ℤ
conditions_in (ok (condition_set c)) = c
conditions_in (ok (intent_plan i)) = no_conditions
conditions_in (raised e) = no_conditions

abbrev conditions : CacheConditionSet ℤ
conditions = conditions_in (resolve_unified fixed request)

resolves : resolve_unified fixed request ≡ ok (condition_set conditions)
unfolding resolve_unified int_value or_else get_or supply_of read_intent mode_of lower strip
    preference_of str admit_mechanisms declared_of supported_by_profile has_key predict
    estimate_ttl_bounded_future_reuses nonnegative provider_managed_trial_enabled
    estimate_future_reuses usable_amount admit candidates_of grant_of iterate known
    legacy_gemini_attempt starts_with admission_gate final_refusal forced_gate any_status cold_start
    none_plan resource_economics upgrade_economics without_implicit prepared_config reading_of
    record_round screen_mechanism screen_ordered threshold_mode verdict among common_of conclude
    conditions_of mechanisms missing ordered_of preferred_order priced_candidate proceed refusal_of
    resolve_on screened screened_all screened_one max_f min_f to_float truthy merge put
resolves = refl

abbrev track : Result (UnifiedPlan ℤ)
track = build_unified_plan (condition_set conditions) gemini_profile end

abbrev plan_in : Result (UnifiedPlan ℤ) → UnifiedPlan ℤ
plan_in (ok p) = p
plan_in (raised e) = plan_of no_conditions.common mutually_exclusive (start [])

abbrev plan : UnifiedPlan ℤ
plan = plan_in track

builds : build_unified_plan (condition_set conditions) gemini_profile end ≡ ok plan
unfolding resolve_unified int_value or_else get_or supply_of read_intent mode_of lower strip
    preference_of str admit_mechanisms declared_of supported_by_profile has_key predict
    estimate_ttl_bounded_future_reuses nonnegative provider_managed_trial_enabled
    estimate_future_reuses usable_amount admit candidates_of grant_of iterate known
    legacy_gemini_attempt starts_with admission_gate final_refusal forced_gate any_status cold_start
    none_plan resource_economics upgrade_economics without_implicit prepared_config reading_of
    record_round screen_mechanism screen_ordered threshold_mode verdict among common_of conclude
    conditions_of mechanisms missing ordered_of preferred_order priced_candidate proceed refusal_of
    resolve_on screened screened_all screened_one max_f min_f to_float truthy merge put
    build_unified_plan screen screen_one plan_of
builds = refl

abbrev decision : Decision
decision = chosen plan both

arbitrates : arbitrate_unified_plan plan both ≡ ok decision
unfolding resolve_unified int_value or_else get_or supply_of read_intent mode_of lower strip
    preference_of str admit_mechanisms declared_of supported_by_profile has_key predict
    estimate_ttl_bounded_future_reuses nonnegative provider_managed_trial_enabled
    estimate_future_reuses usable_amount admit candidates_of grant_of iterate known
    legacy_gemini_attempt starts_with admission_gate final_refusal forced_gate any_status cold_start
    none_plan resource_economics upgrade_economics without_implicit prepared_config reading_of
    record_round screen_mechanism screen_ordered threshold_mode verdict among common_of conclude
    conditions_of mechanisms missing ordered_of preferred_order priced_candidate proceed refusal_of
    resolve_on screened screened_all screened_one max_f min_f to_float truthy merge put
    build_unified_plan screen screen_one plan_of arbitrate_unified_plan choose ready_of passes
arbitrates = refl

selects : decision.selected_mechanisms ≡ stateful_resource ∷ []
unfolding resolve_unified int_value or_else get_or supply_of read_intent mode_of lower strip
    preference_of str admit_mechanisms declared_of supported_by_profile has_key predict
    estimate_ttl_bounded_future_reuses nonnegative provider_managed_trial_enabled
    estimate_future_reuses usable_amount admit candidates_of grant_of iterate known
    legacy_gemini_attempt starts_with admission_gate final_refusal forced_gate any_status cold_start
    none_plan resource_economics upgrade_economics without_implicit prepared_config reading_of
    record_round screen_mechanism screen_ordered threshold_mode verdict among common_of conclude
    conditions_of mechanisms missing ordered_of preferred_order priced_candidate proceed refusal_of
    resolve_on screened screened_all screened_one max_f min_f to_float truthy merge put
    build_unified_plan screen screen_one plan_of arbitrate_unified_plan choose ready_of passes
selects = refl

selected_was_admitted_example :
    All
      (λ m.
        IsGranted fixed (supply_of request conditions.common.requested_mode) m
        × IsAuthorized conditions.common.requested_mode both m)
      decision.selected_mechanisms
    × (is_denied fixed end ≡ false)
selected_was_admitted_example =
    selected_was_admitted fixed request gemini_profile end both {c = conditions} {p = plan}
      {d = decision} resolves builds arbitrates
