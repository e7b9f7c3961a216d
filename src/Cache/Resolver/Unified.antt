-- ===== src/Cache/Resolver/Unified.antt =====
-- `CacheIntentResolver.resolve` of app/cache/intent_resolver.py for a unified plan: an upgrade of
-- version 4 or later whose `grok_mode` is not `legacy_v1`.
pub mod Order
pub mod Entitled
use model_relay.Prelude.{
  String, Bool, true, false, not, ◌||◌, ◌&&◌, Option, none, some, or_default, List, [], ◌∷◌, ◌++◌,
  map, is_empty, if◌then◌else◌,
}
use model_relay.Prelude.Int.{ℤ}
use model_relay.Python.Value.{Value, Fields, field, end, get, get_or, is_text, put, nat}
use model_relay.Python.Runtime.{Runtime, truthy}
use model_relay.Cache.Contracts.{
  Mechanism, implicit_prefix, stateful_resource, Mode, mode_is_auto, ResolutionStatus, pending,
  finalized, same, has, Result, ok, raised, ◌>>=◌,
}
use model_relay.Cache.Economics.Forecast.{Forecast}
use model_relay.Cache.Planner.Plan.{
  Candidate, Common, CacheConditionSet, Conditions, condition_set, Rejection,
}
use model_relay.Cache.Resolver.Admission.{Supply, Admission, iterate, known, admit_mechanisms}
use model_relay.Cache.Resolver.Threshold.{
  Context, Eligible, Outcome, upgrade_version, chat_watchdog, screen_ordered,
}
use model_relay.Cache.Resolver.Gates.{
  Intent, read_intent, admission_gate, forced_gate, final_refusal, mode_is_off,
}
use model_relay.Cache.Resolver.Request.{
  Request, supply_of, resource_hint, forecast_fields, resolver_version, none_plan, predict,
  cold_start,
}
use model_relay.Cache.Resolver.Resources.{resource_economics, without_implicit}

-- `[x for x in xs if x in ys]` and `[x for x in xs if x not in ys]`
unfoldable pub among : List Mechanism → List Mechanism → List Mechanism
among [] ys = []
among (x ∷ xs) ys = let rest = among xs ys in if has ys x then x ∷ rest else rest

unfoldable pub missing : List Mechanism → List Mechanism → List Mechanism
missing [] ys = []
missing (x ∷ xs) ys = let rest = missing xs ys in if has ys x then rest else x ∷ rest

-- The candidates that the policy prefers, and then the others.
abbrev pub order_of : List Mechanism → List Mechanism → List Mechanism
order_of preferred candidates =
    among preferred candidates ++ missing candidates (among preferred candidates)

unfoldable pub mechanisms : {F : Type 0} → List (Eligible F) → List Mechanism
mechanisms [] = []
mechanisms (e ∷ es) = e.mechanism ∷ mechanisms es

module _ (R : Runtime) where
  open R use {F}

  unfoldable pub preferred_order : Value F → List Mechanism → Result (List Mechanism)
  unfolding iterate known
  preferred_order preference candidates = do
    names ← iterate R preference
    ok (order_of (known names) candidates)

  -- `policy.get("mechanism_preference") or candidates`
  unfoldable pub ordered_of : Fields F → List Mechanism → Result (List Mechanism)
  ordered_of policy candidates =
      let preference = get "mechanism_preference" policy in
      if truthy R preference
      then preferred_order preference candidates
      else ok (order_of candidates candidates)

  abbrev candidate_of : Request F → Eligible F → Fields F → Candidate F
  candidate_of q e config = record {
    mechanism = e.mechanism;
    mechanism_config = config;
    resolution_status = if e.uncertain then pending else finalized;
    final_threshold_guard = truthy R (get "final_threshold_guard" config);
    coverage_segment_ids = q.stable_prefix_segment_ids;
  }

  unfoldable pub priced_candidate :
      Request F → Forecast F → Admission → Bool → Bool → Eligible F → Result (Candidate F)
  priced_candidate q prediction a cold implicit e = do
    economics ← resource_economics R q prediction a cold
    ok (
        candidate_of q e
          (put "auto_economics" (Value.dict (without_implicit R implicit economics)) e.config))

  -- `implicit` says that the implicit prefix is among the eligible mechanisms.
  unfoldable pub screened_one :
      Request F → Forecast F → Admission → Bool → Bool → Eligible F → Result (Candidate F)
  screened_one q prediction a cold implicit e =
      if same e.mechanism stateful_resource
      then priced_candidate q prediction a cold implicit e
      else ok (candidate_of q e e.config)

  unfoldable pub screened_all :
      Request F
      → Forecast F
      → Admission
      → Bool
      → Bool
      → List (Eligible F)
      → Result (List (Candidate F))
  screened_all q prediction a cold implicit [] = ok []
  screened_all q prediction a cold implicit (e ∷ es) = do
    c ← screened_one q prediction a cold implicit e
    cs ← screened_all q prediction a cold implicit es
    ok (c ∷ cs)

  -- The entries that every candidate shares.
  unfoldable pub common_of : Request F → Intent → Forecast F → Bool → Common F
  common_of q intent prediction cold = record {
    requested_mode = intent.mode;
    requested_mechanism = intent.preference;
    context_plan_hash = q.context_plan_hash;
    cache_contract_hash = q.cache_contract_hash;
    profile_hash = q.profile_hash;
    policy_hash = q.policy_hash;
    scope = "session";
    resolver_version = resolver_version q;
    allow_uncached_same_context =
        mode_is_auto intent.mode
        && is_text "uncached_same_context" (get "auto_prepare_failure" q.policy);
    reuse_prediction = forecast_fields prediction;
    selection_evidence = field "existing_resource_candidate" (Value.bool (resource_hint q)) (
        field "cold_start_candidate" (Value.bool cold) (
          field "stable_attachment_bytes"
            (get_or (nat 0) "stable_attachment_bytes" q.attachment_evidence)
            (field "observed_implicit_hit_rate" (get "observed_implicit_hit_rate" q.reuse_evidence)
              (field "selection_basis" (Value.text "conditions_before_unified_plan") end))));
    decision_reason = none;
  }

  -- The conditions, with a configuration for each of the eligible mechanisms.
  unfoldable pub conditions_of :
      Request F → Intent → Forecast F → Admission → Bool → Outcome F → Result (Conditions F)
  conditions_of q intent prediction a cold o = do
    eligible ←
        screened_all q prediction a cold (has (mechanisms o.eligible) implicit_prefix) o.eligible
    ok (
        condition_set (record {
          common = common_of q intent prediction cold;
          eligible = eligible;
          rejections = o.rejections;
        }))

  -- The plan without a cache where nothing is eligible.
  unfoldable pub refusal_of :
      Request F → Intent → Forecast F → Bool → List Mechanism → Outcome F → Result (Conditions F)
  refusal_of q intent prediction watchdog ordered o = do
    reason ← final_refusal R (supply_of q intent.mode) watchdog ordered o.rejections
    ok (none_plan q intent reason (forecast_fields prediction) (resolver_version q) o.rejections)

  -- After the screening, with the outcome of the forced test.
  unfoldable pub conclude :
      Request F
      → Intent
      → Forecast F
      → Admission
      → Bool
      → Bool
      → List Mechanism
      → Outcome F
      → Option String
      → Result (Conditions F)
  conclude q intent prediction a cold watchdog ordered o (some reason) =
      ok (none_plan q intent reason (forecast_fields prediction) (resolver_version q) o.rejections)
  conclude q intent prediction a cold watchdog ordered o none =
      if is_empty o.eligible
      then refusal_of q intent prediction watchdog ordered o
      else conditions_of q intent prediction a cold o

  abbrev pub context_of : Request F → Intent → Admission → ℤ → Context F
  context_of q intent a version = record {
    supply = supply_of q intent.mode;
    trials = a.trials;
    watchdog = chat_watchdog R version (supply_of q intent.mode);
    has_prefix = not (is_empty q.stable_prefix_segment_ids);
    assessment = q.token_assessment;
  }

  -- From the admitted mechanisms to the conditions.
  unfoldable pub screened : Request F → Intent → ℤ → Forecast F → Admission → Result (Conditions F)
  screened q intent version prediction a = do
    cold ← cold_start R q
    ordered ← ordered_of q.policy a.admitted
    o ← screen_ordered R (context_of q intent a version) ordered
    forced ← forced_gate R intent.mode intent.preference (mechanisms o.eligible) o.rejections
    conclude q intent prediction a cold (context_of q intent a version).watchdog ordered o forced

  -- Past the tests after admission, with their outcome.
  unfoldable pub proceed :
      Request F → Intent → ℤ → Forecast F → Admission → Option String → Result (Conditions F)
  proceed q intent version prediction a (some reason) =
      ok (none_plan q intent reason (forecast_fields prediction) (resolver_version q) [])
  proceed q intent version prediction a none = screened q intent version prediction a

  unfoldable pub resolve_on : Request F → Intent → ℤ → Result (Conditions F)
  resolve_on q intent version = do
    a ← admit_mechanisms R true (supply_of q intent.mode)
    prediction ← predict R q intent.mode
    gate ← admission_gate R (supply_of q intent.mode) intent.preference q.policy a
    proceed q intent version prediction a gate

  unfoldable pub resolve_unified : Request F → Result (Conditions F)
  unfolding resolve_on
  resolve_unified q = do
    version ← upgrade_version R (supply_of q Mode.auto)
    intent ← read_intent R q.requested_mode q.requested_mechanism q.policy
    if mode_is_off intent.mode
        then ok (none_plan q intent "requested_off" end "relay-cache-resolver/6" [])
        else resolve_on q intent version
