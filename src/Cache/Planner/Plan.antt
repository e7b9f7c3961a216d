-- ===== src/Cache/Planner/Plan.antt =====
-- `build_unified_plan` and `candidate_execution_plan` of app/cache/planner.py.
use model_relay.Prelude.{
  String, Bool, true, false, not, ◌&&◌, ◌||◌, Option, none, some, List, [], ◌∷◌, ◌++◌, ◌==◌, take,
  length, or_default, is_some, is_empty, if◌then◌else◌,
}
use model_relay.Python.Value.{Fields, get, is_text, as_dict}
use model_relay.Cache.Contracts.{
  Mechanism, breakpoint, implicit_prefix, Mode, Preference, ResolutionStatus, pending, finalized,
  Compatibility, mutually_exclusive, composite_layered, exclusive_by_policy, Result, ok, raised,
  cache_decision, same, has, is_controlled, is_preferred, is_auto, mode_is_on,
}
use model_relay.Cache.Planner.Reasons

-- One screened mechanism, as `CacheIntentResolver.resolve` hands it over.
pub record Candidate (F : Type 0) : Type 0 where
  pub mechanism : Mechanism
  pub mechanism_config : Fields F
  pub resolution_status : ResolutionStatus
  pub final_threshold_guard : Bool
  pub coverage_segment_ids : List String

pub record Rejection : Type 0 where
  pub mechanism : Mechanism
  pub reason : String

-- The entries of `common`. `decision_reason` is there only for a finalized intent plan.
pub record Common (F : Type 0) : Type 0 where
  pub requested_mode : Mode
  pub requested_mechanism : Preference
  pub context_plan_hash : String
  pub cache_contract_hash : Option String
  pub profile_hash : Option String
  pub policy_hash : Option String
  pub scope : String
  pub resolver_version : String
  pub allow_uncached_same_context : Bool
  pub reuse_prediction : Fields F
  pub selection_evidence : Fields F
  pub decision_reason : Option String

-- `CacheConditionSet`
pub record CacheConditionSet (F : Type 0) : Type 0 where
  pub common : Common F
  pub eligible : List (Candidate F)
  pub rejections : List Rejection

-- A `CacheIntentPlan` that reaches the planner: its mechanism, its canonical entries, its rejections.
pub record CacheIntentPlan (F : Type 0) : Type 0 where
  pub planned_mechanism : Option Mechanism
  pub canonical : Common F
  pub candidate_rejections : List Rejection

pub data Conditions (F : Type 0) : Type 0 where
  condition_set : CacheConditionSet F → Conditions F
  intent_plan : CacheIntentPlan F → Conditions F

pub record UnifiedPlan (F : Type 0) : Type 0 where
  pub common : Common F
  pub planned_mechanism : Option Mechanism
  pub resolution_status : ResolutionStatus
  pub decision_reason : String
  pub candidates : List (Candidate F)
  pub candidate_rejections : List Rejection
  pub mechanism_config : Fields F
  pub final_threshold_guard : Bool
  pub implicit_plan_enabled : Bool
  pub implicit_provider_admitted : Bool
  pub controlled_candidate : Option Mechanism
  pub controlled_selected : Option Mechanism
  pub compatibility : Compatibility
  pub candidate_order : List Mechanism
  pub pending_checks : List String
  pub allow_none : Bool
  pub allowed_fallback_reasons : List String
  pub assessment_failure_reasons : List String

module _ {F : Type 0} where
  -- `allowed.get(name)`
  abbrev pub find : Mechanism → List (Candidate F) → Option (Candidate F)
  find m [] = none
  find m (c ∷ cs) = if same c.mechanism m then some c else find m cs

  -- `allowed[name] = candidate`
  unfoldable pub put_candidate : Candidate F → List (Candidate F) → List (Candidate F)
  put_candidate c [] = c ∷ []
  put_candidate c (d ∷ ds) =
      let rest = put_candidate c ds in if same d.mechanism c.mechanism then c ∷ ds else d ∷ rest

  -- `list(allowed)`
  abbrev pub names : List (Candidate F) → List Mechanism
  names [] = []
  names (c ∷ cs) = c.mechanism ∷ names cs

-- The variables of the loop over the eligible mechanisms.
pub record Screen (F : Type 0) : Type 0 where
  pub allowed : List (Candidate F)
  pub rejected : List Rejection
  pub controlled : Option Mechanism

-- The caller's constraint, which rejects every mechanism but the one that is asked for.
abbrev pub is_constrained : Mode → Preference → Mechanism → Bool
is_constrained mode preference name =
    (is_preferred preference implicit_prefix || (mode_is_on mode && not (is_auto preference)))
    && not (is_preferred preference name)

abbrev pub reject : Mechanism → String → Rejection
reject name why = record { mechanism = name; reason = why }

module _ {F : Type 0} (mode : Mode) (preference : Preference) where
  -- One round of the loop.
  unfoldable pub screen_one : Candidate F → Screen F → Screen F
  unfolding put_candidate
  screen_one c s =
      if is_constrained mode preference c.mechanism
      then record s {
        rejected = s.rejected ++ reject c.mechanism "caller_mechanism_constraint" ∷ [];
      }
      else if is_controlled c.mechanism
      then (if is_some s.controlled
          then record s {
            rejected = s.rejected ++ reject c.mechanism "controlled_track_preference" ∷ [];
          }
          else record s { allowed = put_candidate c s.allowed; controlled = some c.mechanism })
      else record s { allowed = put_candidate c s.allowed }

  unfoldable pub screen : List (Candidate F) → Screen F → Screen F
  screen [] s = s
  screen (c ∷ cs) s = screen cs (screen_one c s)

-- `xs == ys`
unfoldable pub same_texts : List String → List String → Bool
same_texts [] [] = true
same_texts (x ∷ xs) (y ∷ ys) = x == y && same_texts xs ys
same_texts _ _ = false

abbrev is_controlled_as : Option Mechanism → Mechanism → Bool
is_controlled_as none m = false
is_controlled_as (some c) m = same c m

abbrev same_option : Option Mechanism → Option Mechanism → Bool
same_option none none = true
same_option (some a) (some b) = same a b
same_option _ _ = false

abbrev pub is_layered : Compatibility → Bool
is_layered composite_layered = true
is_layered _ = false

module _ {F : Type 0} where
  -- The test on the two coverages; it is run only where both tracks are allowed.
  unfoldable pub is_included : Option (Candidate F) → Option (Candidate F) → Bool
  unfolding same_texts
  is_included (some inner) (some outer) =
      let ids = inner.coverage_segment_ids in
      same_texts ids (take (length ids) outer.coverage_segment_ids)
  is_included _ _ = true

  unfoldable pub compatibility_of : Fields F → Fields F → Option Mechanism → Compatibility
  compatibility_of protocol_profile contract controlled =
      let wire = as_dict (get "cache" protocol_profile) in
      if is_text "gemini_native" (get "protocol" protocol_profile)
      then mutually_exclusive
      else if is_text "composite_layered" (get "composite_mode" wire)
          && is_text "composite_layered" (get "composite_mode" contract)
          && is_controlled_as controlled breakpoint
      then composite_layered
      else exclusive_by_policy

  abbrev first_of_candidates : List (Candidate F) → Option (Candidate F)
  first_of_candidates [] = none
  first_of_candidates (c ∷ _) = some c

  abbrev config_of : Option (Candidate F) → Fields F
  config_of none = Fields.end
  config_of (some c) = c.mechanism_config

  abbrev guard_of : Option (Candidate F) → Bool
  guard_of none = false
  guard_of (some c) = c.final_threshold_guard

  abbrev mechanism_of : Option (Candidate F) → Option Mechanism
  mechanism_of none = none
  mechanism_of (some c) = some c.mechanism

  -- The plan of what the screening left, by `plan.update({…})`.
  unfoldable pub plan_of : Common F → Compatibility → Screen F → UnifiedPlan F
  plan_of common compatibility s =
      let preferred = first_of_candidates s.allowed in
      let implicit = has (names s.allowed) implicit_prefix in
      let empty = is_empty s.allowed in
      record {
        common = common;
        planned_mechanism = mechanism_of preferred;
        resolution_status = if empty then finalized else pending;
        decision_reason =
            if empty
            then or_default "no_eligible_track" common.decision_reason
            else "conditions_accepted_pending_arbitration";
        candidates = s.allowed;
        candidate_rejections = s.rejected;
        mechanism_config = config_of preferred;
        final_threshold_guard = guard_of preferred;
        implicit_plan_enabled = implicit;
        implicit_provider_admitted = implicit;
        controlled_candidate = s.controlled;
        controlled_selected =
            if same_option (mechanism_of preferred) s.controlled then s.controlled else none;
        compatibility = compatibility;
        candidate_order = names s.allowed;
        pending_checks = if empty then [] else Reasons.pending_checks;
        allow_none = common.allow_uncached_same_context || empty;
        allowed_fallback_reasons = Reasons.safe_preparation_reasons;
        assessment_failure_reasons = Reasons.assessment_failure_reasons;
      }

  -- The inclusion test and the plan.
  unfoldable pub assemble : Fields F → Fields F → Common F → Screen F → Result (UnifiedPlan F)
  unfolding is_included compatibility_of plan_of
  assemble protocol_profile contract common s =
      let compatibility = compatibility_of protocol_profile contract s.controlled in
      if is_layered compatibility
        && not (is_included (find breakpoint s.allowed) (find implicit_prefix s.allowed))
      then raised (cache_decision "CACHE_PREFIX_INCLUSION_INVALID" none)
      else ok (plan_of common compatibility s)

  abbrev pub start : List Rejection → Screen F
  start rejections = record { allowed = []; rejected = rejections; controlled = none }

  unfoldable pub build_unified_plan : Conditions F → Fields F → Fields F → Result (UnifiedPlan F)
  unfolding screen screen_one assemble
  build_unified_plan (intent_plan i) protocol_profile contract =
      if is_some i.planned_mechanism
      then raised (cache_decision "CACHE_CONDITIONS_REQUIRED" none)
      else assemble protocol_profile contract i.canonical (start i.candidate_rejections)
  build_unified_plan (condition_set c) protocol_profile contract =
      assemble protocol_profile contract c.common (
        screen c.common.requested_mode c.common.requested_mechanism c.eligible (start c.rejections))

-- The part of `candidate_execution_plan` that changes: the branch taken over the plan's own entries.
pub record ExecutionPlan (F : Type 0) : Type 0 where
  pub plan : UnifiedPlan F
  pub planned_mechanism : Mechanism
  pub mechanism_config : Fields F
  pub resolution_status : ResolutionStatus
  pub final_threshold_guard : Bool
  pub coverage_segment_ids : List String

abbrev execution_of :
    {F : Type 0} → UnifiedPlan F → Mechanism → Option (Candidate F) → Result (ExecutionPlan F)
execution_of plan mechanism none = raised (cache_decision "CACHE_BRANCH_NOT_AUTHORIZED" none)
execution_of plan mechanism (some c) = ok (record {
  plan = plan;
  planned_mechanism = mechanism;
  mechanism_config = c.mechanism_config;
  resolution_status = c.resolution_status;
  final_threshold_guard = c.final_threshold_guard;
  coverage_segment_ids = c.coverage_segment_ids;
})

unfoldable pub candidate_execution_plan :
    {F : Type 0} → UnifiedPlan F → Mechanism → Result (ExecutionPlan F)
candidate_execution_plan plan mechanism =
    execution_of plan mechanism (find mechanism plan.candidates)
