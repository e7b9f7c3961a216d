-- ===== src/Cache/Planner/Arbitration.antt =====
-- `arbitrate_unified_plan` and `final_track_facts` of app/cache/planner.py.
-- An assessment is read by `.get`: a missing entry is `none`.
use model_relay.Prelude.{
  String, Bool, true, false, not, ◌&&◌, ◌||◌, Option, none, some, List, [], ◌∷◌, ◌==◌, contains,
  is_some, is_empty, if◌then◌else◌,
}
use model_relay.Cache.Contracts.{
  Mechanism, stateful_resource, breakpoint, implicit_prefix, Mode, mode_is_on, mode_is_auto,
  Compatibility, mutually_exclusive, Result, ok, ◌>>◌, refuse_if, same, has, is_controlled,
}
use model_relay.Cache.Planner.Plan.{UnifiedPlan, is_layered, names}

-- The facts of one branch: `cost` is the mapping's `allow`.
pub record Assessment : Type 0 where
  pub eligible : Bool
  pub reason : Option String
  pub resource_action : Option String
  pub cost_allow : Option Bool

abbrev pub Assessments : Type 0
Assessments = Mechanism → Option Assessment

pub record Decision : Type 0 where
  pub selected_mechanisms : List Mechanism
  pub reason : Option String
  pub compatibility : Compatibility

abbrev pub is_action : String → Option String → Bool
is_action a none = false
is_action a (some b) = b == a

abbrev pub allows : Option Bool → Bool
allows (some b) = b
allows none = false

abbrev pub denies : Option Bool → Bool
denies (some b) = not b
denies none = false

-- A new resource whose cost refuses it, or under `auto` does not positively allow it.
unfoldable pub is_unauthorized_creation : Mode → Mechanism → Assessment → Bool
is_unauthorized_creation mode m fact =
    (same m stateful_resource && is_action "would_create" fact.resource_action)
    && (denies fact.cost_allow || (mode_is_auto mode && not (allows fact.cost_allow)))

-- `assessments.get(name, {})` passes the tests of the loop.
unfoldable pub passes : Mode → Mechanism → Option Assessment → Bool
unfolding is_unauthorized_creation
passes mode m none = false
passes mode m (some fact) = fact.eligible && not (is_unauthorized_creation mode m fact)

abbrev pub is_ready : Mode → Assessments → Mechanism → Bool
is_ready mode facts m = passes mode m (facts m)

-- The loop that collects `ready`, in the frozen order.
unfoldable pub ready_of : Mode → Assessments → List Mechanism → List Mechanism
ready_of mode facts [] = []
ready_of mode facts (m ∷ ms) =
    let rest = ready_of mode facts ms in if is_ready mode facts m then m ∷ rest else rest

-- The reason of the first branch that was assessed and found ineligible.
unfoldable pub first_refusal : Assessments → List Mechanism → Option (Option String)
first_refusal facts [] = none
first_refusal facts (m ∷ ms) = elim (facts m) [
  | none ↦ first_refusal facts ms
  | some fact ↦ elim fact.eligible [ true ↦ first_refusal facts ms | false ↦ some fact.reason ]
]

-- `any(p(fact) for fact in assessments.values())`
abbrev satisfies : (Assessment → Bool) → Option Assessment → Bool
satisfies p none = false
satisfies p (some fact) = p fact

abbrev pub any_fact : (Assessment → Bool) → Assessments → Bool
any_fact p facts =
    satisfies p (facts stateful_resource)
    || (satisfies p (facts breakpoint) || satisfies p (facts implicit_prefix))

abbrev pub is_assessed : Assessments → Bool
is_assessed = any_fact (λ _. true)

abbrev is_layered_pair : Compatibility → List Mechanism → Bool
is_layered_pair c ready = is_layered c && (has ready breakpoint && has ready implicit_prefix)

abbrev is_exclusive : Compatibility → Bool
is_exclusive mutually_exclusive = true
is_exclusive _ = false

abbrev is_exclusive_pair : Compatibility → List Mechanism → Bool
is_exclusive_pair c ready =
    is_exclusive c && (has ready stateful_resource && has ready implicit_prefix)

abbrev pub action_of : Option Assessment → Option String
action_of none = none
action_of (some fact) = fact.resource_action

abbrev pub cost_of : Option Assessment → Option Bool
cost_of none = none
cost_of (some fact) = fact.cost_allow

abbrev first_ready : List Mechanism → List Mechanism
first_ready [] = []
first_ready (m ∷ _) = m ∷ []

abbrev or_reason : Option (Option String) → String → Option String
or_reason none d = some d
or_reason (some r) d = r

-- The three-way choice among the ready branches.
unfoldable pub choose : Compatibility → Assessments → List Mechanism → List Mechanism → Decision
unfolding first_refusal
choose c facts order ready =
    if is_layered_pair c ready
    then decision (breakpoint ∷ implicit_prefix ∷ []) (some "certified_layered_tracks")
    else if is_exclusive_pair c ready
    then (if is_action "reuse" (action_of (facts stateful_resource))
        then decision (stateful_resource ∷ []) (some "existing_compatible_resource_preferred")
        else if allows (cost_of (facts stateful_resource))
        then decision (stateful_resource ∷ []) (some "explicit_cost_lower_than_implicit")
        else decision (implicit_prefix ∷ [])
            (some "implicit_preferred_without_positive_create_evidence"))
    else if is_empty ready
    then decision [] (
        or_reason (first_refusal facts order) (
          if is_assessed facts then "no_economical_runtime_track" else "no_eligible_runtime_track"))
    else if is_exclusive c
    then decision (first_ready ready) (some "mutually_exclusive_cost_and_eligibility")
    else decision (first_ready ready) (some "eligible_track_selected")
  where
    decision : List Mechanism → Option String → Decision
    decision ms r = record { selected_mechanisms = ms; reason = r; compatibility = c }

abbrev pub is_budget_denial : Assessment → Bool
is_budget_denial fact = is_action "would_create" fact.resource_action && denies fact.cost_allow

abbrev is_listed : List String → Option String → Bool
is_listed reasons none = false
is_listed reasons (some r) = contains reasons r

abbrev pub is_failure : List String → Assessment → Bool
is_failure reasons fact = is_listed reasons fact.reason

-- An assessed mechanism that the plan does not name.
abbrev pub is_unplanned : List Mechanism → Assessments → Bool
is_unplanned candidates facts =
    beyond stateful_resource || (beyond breakpoint || beyond implicit_prefix)
  where
    beyond : Mechanism → Bool
    beyond m = is_some (facts m) && not (has candidates m)

-- The conditions of the two refusals after the choice; `empty` says that nothing is selected.
abbrev pub is_over_budget : Mode → Assessments → Bool → Bool
is_over_budget mode facts empty = empty && (mode_is_on mode && any_fact is_budget_denial facts)

abbrev pub is_unverified : Mode → Bool → List String → Assessments → Bool → Bool
is_unverified mode allow_none failures facts empty =
    empty && (any_fact (is_failure failures) facts && (mode_is_on mode || not allow_none))

module _ {F : Type 0} (plan : UnifiedPlan F) where
  open plan use {
    common, candidates, candidate_order, compatibility, allow_none, assessment_failure_reasons,
  }

  abbrev pub ready : Assessments → List Mechanism
  ready facts = ready_of common.requested_mode facts candidate_order

  abbrev pub chosen : Assessments → Decision
  chosen facts = choose compatibility facts candidate_order (ready facts)

  abbrev pub nothing_selected : Assessments → Bool
  nothing_selected facts = is_empty (chosen facts).selected_mechanisms

  unfoldable pub arbitrate_unified_plan : Assessments → Result Decision
  arbitrate_unified_plan facts = do
    refuse_if (is_unplanned (names candidates) facts) "CACHE_BRANCH_NOT_AUTHORIZED"
    refuse_if (is_over_budget common.requested_mode facts (nothing_selected facts))
        "CACHE_NEW_RESOURCE_BUDGET_DENIED"
    refuse_if
        (is_unverified common.requested_mode allow_none assessment_failure_reasons facts
          (nothing_selected facts))
        "CACHE_ASSESSMENT_FAILED"
    ok (chosen facts)

-- `final_track_facts`
pub record TrackFacts : Type 0 where
  pub implicit_base : Bool
  pub implicit_effective : Bool
  pub controlled : Option Mechanism

abbrev is_mechanism : Mechanism → Option Mechanism → Bool
is_mechanism m none = false
is_mechanism m (some n) = same n m

abbrev controlled_only : Option Mechanism → Option Mechanism
controlled_only none = none
controlled_only (some m) = if is_controlled m then some m else none

unfoldable pub final_track_facts : {F : Type 0} → UnifiedPlan F → Option Mechanism → TrackFacts
final_track_facts plan mechanism = record {
  implicit_base = plan.implicit_plan_enabled && not (is_mechanism stateful_resource mechanism);
  implicit_effective =
      plan.implicit_plan_enabled
      && (is_mechanism implicit_prefix mechanism
          || (is_mechanism breakpoint mechanism
              && is_layered plan.compatibility
              && plan.implicit_provider_admitted));
  controlled = controlled_only mechanism;
}
