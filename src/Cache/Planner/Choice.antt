-- ===== src/Cache/Planner/Choice.antt =====
-- What `arbitrate_unified_plan` of app/cache/planner.py may select, and when it refuses.
use model_relay.Prelude.{
  ◌≡◌, refl, ◌≢◌, ◌⊎◌, inl, inr, Bool, true, false, ◌||◌, Option, none, some, List, [], ◌∷◌, arith,
  All, All-imp, and_and_true, is_empty→nil, length, ◌≤◌, if◌then◌else◌,
}
use model_relay.Cache.Contracts.{
  Mechanism, stateful_resource, breakpoint, implicit_prefix, Mode, mode_is_on, mode_is_auto,
  Compatibility, composite_layered, Error, ok, raised, cache_decision, three_tests_ok,
  three_tests_raised, same, same→eq, has,
}
use model_relay.Cache.Planner.Plan.{UnifiedPlan, names}
use model_relay.Cache.Planner.Arbitration.{
  Assessment, Assessments, Decision, is_action, allows, passes, is_ready, ready_of, choose,
  action_of, cost_of, any_fact, is_budget_denial, is_failure, is_unplanned, is_over_budget,
  is_unverified, ready, chosen, nothing_selected, arbitrate_unified_plan,
}

-- A branch that creates nothing, or a creation whose cost allows it; a cost that says nothing is
-- enough only where the caller asked for the cache by `on`.
abbrev pub IsPaid : Mode → Mechanism → Assessment → Type 0
IsPaid mode m fact =
    (same m stateful_resource ≡ false)
    ⊎ (is_action "would_create" fact.resource_action ≡ false)
    ⊎ (fact.cost_allow ≡ some true)
    ⊎ ((mode_is_auto mode ≡ false) × (fact.cost_allow ≡ none))

-- What the source demands of a branch before it may be dispatched.
pub record IsAuthorized (mode : Mode) (facts : Assessments) (m : Mechanism) : Type 0 where
  pub fact : Assessment
  pub assessed : facts m ≡ some fact
  pub is_eligible : fact.eligible ≡ true
  pub paid : IsPaid mode m fact

has-ready_of :
    (mode : Mode) (facts : Assessments) (order : List Mechanism) (m : Mechanism)
    → has (ready_of mode facts order) m ≡ true
    → (has order m ≡ true) × (is_ready mode facts m ≡ true)
unfolding ready_of
has-ready_of mode facts [] m h = cc
has-ready_of mode facts (x ∷ order) m h =
    ground (arith, has-ready_of mode facts order m, same→eq x m)

ready_of-has :
    (mode : Mode) (facts : Assessments) (order : List Mechanism) (m : Mechanism)
    → has order m ≡ true
    → is_ready mode facts m ≡ true
    → has (ready_of mode facts order) m ≡ true
unfolding ready_of
ready_of-has mode facts [] m h r = cc
ready_of-has mode facts (x ∷ order) m h r =
    ground (arith, ready_of-has mode facts order m, same→eq x m)

passes-IsAuthorized :
    (mode : Mode) (facts : Assessments) (m : Mechanism) (o : Option Assessment)
    → facts m ≡ o
    → passes mode m o ≡ true
    → IsAuthorized mode facts m
unfolding passes
passes-IsAuthorized mode facts m none e h = cc
passes-IsAuthorized mode facts m (some f) e h = record {
  fact = f;
  assessed = e;
  is_eligible = ground arith;
  paid = ground arith;
}

-- The choice takes ready branches only.
choose-ready :
    (c : Compatibility) (facts : Assessments) (order ready : List Mechanism)
    → All (λ m. has ready m ≡ true) (choose c facts order ready).selected_mechanisms
unfolding choose
choose-ready c facts order [] = ground arith
choose-ready c facts order (m ∷ ms) = ground arith

-- At most one branch, or the two layered tracks.
abbrev pub HasShape : Compatibility → List Mechanism → Type 0
HasShape c ms =
    (length ms ≤ 1) ⊎ ((c ≡ composite_layered) × (ms ≡ breakpoint ∷ implicit_prefix ∷ []))

choose-HasShape :
    (c : Compatibility) (facts : Assessments) (order ready : List Mechanism)
    → HasShape c (choose c facts order ready).selected_mechanisms
unfolding choose
choose-HasShape composite_layered facts order [] = ground arith
choose-HasShape composite_layered facts order (m ∷ ms) = ground arith
choose-HasShape _ facts order [] = inl (ground arith)
choose-HasShape _ facts order (m ∷ ms) = inl (ground arith)

choose-nil :
    (c : Compatibility) (facts : Assessments) (order ready : List Mechanism)
    → (choose c facts order ready).selected_mechanisms ≡ []
    → ready ≡ []
unfolding choose
choose-nil c facts order [] h = refl
choose-nil c facts order (m ∷ ms) h = ground arith

-- The part of a list before the first occurrence of a mechanism.
unfoldable pub before : Mechanism → List Mechanism → List Mechanism
before m [] = []
before m (x ∷ xs) = let rest = before m xs in if same x m then [] else x ∷ rest

-- Of the resource and the prefix, the resource where it is there already or its cost allows it.
abbrev pub IsSettledPair : Assessments → Mechanism → Type 0
IsSettledPair facts m =
    ((m ≡ stateful_resource) × (resource_is_cheaper ≡ true))
    ⊎ ((m ≡ implicit_prefix) × (resource_is_cheaper ≡ false))
  where
    resource_is_cheaper : Bool
    resource_is_cheaper =
        is_action "reuse" (action_of (facts stateful_resource))
        || allows (cost_of (facts stateful_resource))

module _ {F : Type 0} (plan : UnifiedPlan F) (facts : Assessments) where
  open plan use {common, candidates, candidate_order, compatibility, allow_none}

  abbrev unplanned : Bool
  unplanned = is_unplanned (names candidates) facts

  abbrev over_budget : Bool
  over_budget = is_over_budget common.requested_mode facts (nothing_selected plan facts)

  abbrev unverified : Bool
  unverified =
      is_unverified common.requested_mode allow_none plan.assessment_failure_reasons facts
        (nothing_selected plan facts)

  chosen_of_ok : {d : Decision} → arbitrate_unified_plan plan facts ≡ ok d → chosen plan facts ≡ d
  unfolding arbitrate_unified_plan
  chosen_of_ok h = three_tests_ok unplanned over_budget unverified _ _ _ (chosen plan facts) h

  -- Every mechanism of a successful arbitration stands in the frozen order and is authorized by its
  -- assessment, and at most one mechanism is selected, or exactly the breakpoint and the implicit
  -- prefix under layered tracks.
  pub arbitrate_sound :
      {d : Decision}
      → arbitrate_unified_plan plan facts ≡ ok d
      → All
          (λ m. (has candidate_order m ≡ true) × IsAuthorized common.requested_mode facts m)
          d.selected_mechanisms
        × HasShape compatibility d.selected_mechanisms
  arbitrate_sound {d} h = rw (← chosen_of_ok h) (
    All-imp _ (λ m r. authorized m r)
        (choose-ready compatibility facts candidate_order (ready plan facts)),
    choose-HasShape compatibility facts candidate_order (ready plan facts),
  )
    where
      authorized :
          (m : Mechanism)
          → has (ready plan facts) m ≡ true
          → (has candidate_order m ≡ true) × IsAuthorized common.requested_mode facts m
      authorized m r =
          let both : (has candidate_order m ≡ true)
              × (is_ready common.requested_mode facts m ≡ true) =
            has-ready_of common.requested_mode facts candidate_order m r in
          (both.0, passes-IsAuthorized common.requested_mode facts m (facts m) refl both.1)

  -- If a mechanism of the frozen order passes the tests on its assessment, a successful arbitration
  -- does not select the empty list.
  pub arbitrate_complete :
      {d : Decision} (m : Mechanism)
      → arbitrate_unified_plan plan facts ≡ ok d
      → has candidate_order m ≡ true
      → is_ready common.requested_mode facts m ≡ true
      → d.selected_mechanisms ≢ []
  arbitrate_complete m h o r e =
      let nothing : ready plan facts ≡ [] =
        choose-nil compatibility facts candidate_order _ (rw (chosen_of_ok h) e) in
      cc (nothing, ready_of-has common.requested_mode facts candidate_order m o r)

  -- Where none of the three tests refuses, the choice is returned.
  pub arbitrate_total :
      mode_is_on common.requested_mode ≡ false
      → allow_none ≡ true
      → is_unplanned (names candidates) facts ≡ false
      → arbitrate_unified_plan plan facts ≡ ok (chosen plan facts)
  unfolding arbitrate_unified_plan
  arbitrate_total a n u = ground arith

  -- A raised arbitration is one of three: an assessment of a mechanism that the plan does not name;
  -- under `on`, with no ready branch, a creation that its cost denies; with no ready branch, a
  -- failed assessment, under `on` or where the plan does not allow running without a cache.
  pub arbitrate_refusal :
      {e : Error}
      → arbitrate_unified_plan plan facts ≡ raised e
      → ((e ≡ cache_decision "CACHE_BRANCH_NOT_AUTHORIZED" none)
          × (is_unplanned (names candidates) facts ≡ true))
        ⊎ ((e ≡ cache_decision "CACHE_NEW_RESOURCE_BUDGET_DENIED" none)
            × (ready plan facts ≡ [])
            × (mode_is_on common.requested_mode ≡ true)
            × (any_fact is_budget_denial facts ≡ true))
        ⊎ ((e ≡ cache_decision "CACHE_ASSESSMENT_FAILED" none)
            × (ready plan facts ≡ [])
            × (any_fact (is_failure plan.assessment_failure_reasons) facts ≡ true)
            × ((mode_is_on common.requested_mode ≡ true) ⊎ (allow_none ≡ false)))
  unfolding arbitrate_unified_plan
  arbitrate_refusal {e} h =
      elim (three_tests_raised unplanned over_budget unverified _ _ _ (chosen plan facts) h) [
        | inl first ↦ inl first
        | inr (inl (is, t)) ↦ inr (inl (is, (denied t).0, (denied t).1, (denied t).2))
        | inr (inr (is, t)) ↦ inr (inr (is, (failed t).0, (failed t).1, (failed t).2))
      ]
    where
      none_ready : nothing_selected plan facts ≡ true → ready plan facts ≡ []
      none_ready t = choose-nil compatibility facts candidate_order _ (is_empty→nil _ t)

      denied :
          over_budget ≡ true
          → (ready plan facts ≡ [])
            × (mode_is_on common.requested_mode ≡ true)
            × (any_fact is_budget_denial facts ≡ true)
      denied t = let s = and_and_true _ _ _ t in (none_ready s.0, s.1, s.2)

      failed :
          unverified ≡ true
          → (ready plan facts ≡ [])
            × (any_fact (is_failure plan.assessment_failure_reasons) facts ≡ true)
            × ((mode_is_on common.requested_mode ≡ true) ⊎ (allow_none ≡ false))
      failed t = let s = and_and_true _ _ _ t in (none_ready s.0, s.1, ground arith)
