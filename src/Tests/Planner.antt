-- ===== src/Tests/Planner.antt =====
-- app/cache/planner.py on one request.
use model_relay.Prelude.{
  ℕ, ◌≡◌, refl, ◌≢◌, ◌⊎◌, String, Bool, true, false, ◌||◌, Option, none, some, List, [], ◌∷◌, All,
  take,
}
use model_relay.Python.Value.{Value, Fields, field, end, get_or}
use model_relay.Cache.Contracts.{
  Mechanism, stateful_resource, breakpoint, implicit_prefix, Mode, Preference, ResolutionStatus,
  Error, ok, raised, cache_decision, has, composite_layered, mutually_exclusive,
}
use model_relay.Cache.Planner.Plan.{
  Candidate, Common, CacheConditionSet, condition_set, UnifiedPlan, names, build_unified_plan,
  plan_of, screen, start, compatibility_of, screen_one,
}
use model_relay.Cache.Planner.Arbitration.{
  Assessment, Assessments, Decision, arbitrate_unified_plan, chosen, ready, is_unplanned, choose,
  ready_of, passes, any_fact, is_budget_denial, is_failure,
}
use model_relay.Cache.Planner.Choice.{
  IsAuthorized, HasShape, arbitrate_sound, arbitrate_complete, arbitrate_refusal,
}
use model_relay.Cache.Planner.Screening.{
  IsKept, IsRecorded, is_rejected, build_screens, build_nests,
}
use model_relay.Cache.Planner.Pipeline.{IsEntitled, selected_was_eligible, uncached_is_available}

abbrev candidate : Mechanism → List String → Candidate ℕ
candidate m ids = record {
  mechanism = m;
  mechanism_config = end;
  resolution_status = ResolutionStatus.finalized;
  final_threshold_guard = false;
  coverage_segment_ids = ids;
}

abbrev common : Common ℕ
common = record {
  requested_mode = Mode.auto;
  requested_mechanism = Preference.auto;
  context_plan_hash = "c";
  cache_contract_hash = none;
  profile_hash = none;
  policy_hash = none;
  scope = "session";
  resolver_version = "relay-cache-resolver/7";
  allow_uncached_same_context = true;
  reuse_prediction = end;
  selection_evidence = end;
  decision_reason = none;
}

abbrev conditions : List (Candidate ℕ) → CacheConditionSet ℕ
conditions cs = record { common = common; eligible = cs; rejections = [] }

abbrev pub gemini : Fields ℕ
gemini = field "protocol" (Value.text "gemini_native") end

abbrev layered : Fields ℕ
layered =
    field "cache" (Value.dict (field "composite_mode" (Value.text "composite_layered") end)) end

abbrev layered_contract : Fields ℕ
layered_contract = field "composite_mode" (Value.text "composite_layered") end

abbrev two_tracks : CacheConditionSet ℕ
two_tracks =
    conditions (candidate stateful_resource ("a" ∷ []) ∷ candidate implicit_prefix ("a" ∷ []) ∷ [])

abbrev nested : CacheConditionSet ℕ
nested =
    conditions (candidate breakpoint ("a" ∷ []) ∷ candidate implicit_prefix ("a" ∷ "b" ∷ []) ∷ [])

abbrev plan : UnifiedPlan ℕ
unfolding plan_of screen compatibility_of
plan =
    plan_of common mutually_exclusive
      (screen Mode.auto Preference.auto two_tracks.eligible (start []))

built : build_unified_plan (condition_set two_tracks) gemini end ≡ ok plan
unfolding build_unified_plan plan get_or
built = refl

abbrev assessment : Bool → Option String → Option Bool → Assessment
assessment eligible action cost = record {
  eligible = eligible;
  reason = some "measured";
  resource_action = action;
  cost_allow = cost;
}

-- The resource would have to be created and pays for itself; the implicit prefix is eligible too.
abbrev pub both : Assessments
both stateful_resource = some (assessment true (some "would_create") (some true))
both breakpoint = none
both implicit_prefix = some (assessment true none none)

abbrev decision : Decision
unfolding choose ready_of passes plan
decision = chosen plan both

decided : arbitrate_unified_plan plan both ≡ ok decision
unfolding arbitrate_unified_plan choose ready_of passes plan decision screen_one
decided = refl

selected_was_eligible_example : All (IsEntitled two_tracks both) decision.selected_mechanisms
selected_was_eligible_example =
    selected_was_eligible gemini end two_tracks {p = plan} built both {d = decision} decided

planned : is_unplanned (names plan.candidates) both ≡ false
unfolding plan screen_one
planned = refl

uncached_is_available_example : arbitrate_unified_plan plan both ≡ ok (chosen plan both)
uncached_is_available_example =
    uncached_is_available gemini end two_tracks {p = plan} built both refl refl planned

arbitrate_sound_example :
    All
      (λ m. (has plan.candidate_order m ≡ true) × IsAuthorized Mode.auto both m)
      decision.selected_mechanisms
    × HasShape mutually_exclusive decision.selected_mechanisms
unfolding plan
arbitrate_sound_example = arbitrate_sound plan both {d = decision} decided

arbitrate_complete_example : decision.selected_mechanisms ≢ []
unfolding plan passes screen_one
arbitrate_complete_example =
    arbitrate_complete plan both {d = decision} implicit_prefix decided refl refl

-- A measurement that failed, under a plan that must have a cache.
abbrev strict_plan : UnifiedPlan ℕ
strict_plan = record plan { allow_none = false }

abbrev failed : Assessments
failed stateful_resource = none
failed breakpoint = none
failed implicit_prefix = some (record {
  eligible = false;
  reason = some "prefix_assessment_unknown";
  resource_action = none;
  cost_allow = none;
})

refused :
    arbitrate_unified_plan strict_plan failed
    ≡ raised (cache_decision "CACHE_ASSESSMENT_FAILED" none)
unfolding arbitrate_unified_plan choose ready_of passes plan screen_one
refused = refl

abbrev failure : Error
failure = cache_decision "CACHE_ASSESSMENT_FAILED" none

arbitrate_refusal_example :
    ((failure ≡ cache_decision "CACHE_BRANCH_NOT_AUTHORIZED" none)
      × (is_unplanned (names strict_plan.candidates) failed ≡ true))
    ⊎ ((failure ≡ cache_decision "CACHE_NEW_RESOURCE_BUDGET_DENIED" none)
        × (ready strict_plan failed ≡ [])
        × (false ≡ true)
        × (any_fact is_budget_denial failed ≡ true))
    ⊎ ((failure ≡ cache_decision "CACHE_ASSESSMENT_FAILED" none)
        × (ready strict_plan failed ≡ [])
        × (any_fact (is_failure strict_plan.assessment_failure_reasons) failed ≡ true)
        × ((false ≡ true) ⊎ (false ≡ false)))
unfolding plan
arbitrate_refusal_example = arbitrate_refusal strict_plan failed {e = failure} refused

build_screens_example :
    All (IsKept Mode.auto Preference.auto two_tracks.eligible) plan.candidates
    × All
        (IsRecorded Mode.auto Preference.auto two_tracks.eligible plan.controlled_candidate)
        plan.candidates
    × All
        (λ d.
          has (names plan.candidates) d.mechanism
            || is_rejected d.mechanism plan.candidate_rejections
          ≡ true)
        two_tracks.eligible
build_screens_example = build_screens gemini end two_tracks {p = plan} built

abbrev nested_plan : UnifiedPlan ℕ
unfolding plan_of screen
nested_plan =
    plan_of common composite_layered (screen Mode.auto Preference.auto nested.eligible (start []))

nested_built : build_unified_plan (condition_set nested) layered layered_contract ≡ ok nested_plan
unfolding build_unified_plan nested_plan get_or
nested_built = refl

build_nests_example : ◌≡◌ {A = List String} ("a" ∷ []) (take 1 ("a" ∷ "b" ∷ []))
unfolding nested_plan screen_one
build_nests_example =
    build_nests layered layered_contract nested {p = nested_plan}
      {inner = candidate breakpoint ("a" ∷ [])} {outer = candidate implicit_prefix ("a" ∷ "b" ∷ [])}
      nested_built refl refl refl
