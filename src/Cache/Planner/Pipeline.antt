-- ===== src/Cache/Planner/Pipeline.antt =====
-- A plan of `build_unified_plan` under `arbitrate_unified_plan` and `final_track_facts`, both of
-- app/cache/planner.py: the track from the eligibility facts to the branch that runs.
use model_relay.Prelude.{
  ◌≡◌, refl, inl, inr, true, false, List, [], ◌∷◌, arith, All, All-imp, Bool-cases,
}
use model_relay.Python.Value.{Fields}
use model_relay.Cache.Contracts.{Mechanism, mode_is_on, same, same→eq, has, ok}
use model_relay.Cache.Planner.Plan.{
  Candidate, CacheConditionSet, condition_set, UnifiedPlan, names, is_constrained,
  build_unified_plan, plan_of,
}
use model_relay.Cache.Planner.Arbitration.{
  Assessments, Decision, is_unplanned, arbitrate_unified_plan, chosen,
}
use model_relay.Cache.Planner.Choice.{IsAuthorized, arbitrate_sound, arbitrate_total}
use model_relay.Cache.Planner.Screening.{Among, IsKept, facts, build_screens}

module _ {F : Type 0} where
  pub has_of_Among :
      (c : Candidate F) (cs : List (Candidate F)) → Among c cs → has (names cs) c.mechanism ≡ true
  has_of_Among c [] a = absurd a
  has_of_Among c (d ∷ ds) (inl e) = rw e (ground arith)
  has_of_Among c (d ∷ ds) (inr a) = ground (arith, has_of_Among c ds a)

  -- A name on the list belongs to a candidate with whatever holds of all.
  named :
      (P : Candidate F → Type 0) (cs : List (Candidate F)) (m : Mechanism)
      → All P cs
      → has (names cs) m ≡ true
      → (c : Candidate F) × (c.mechanism ≡ m) × P c
  named P [] m h t = cc
  named P (c ∷ cs) m (p, h) t = elim (Bool-cases (same c.mechanism m)) [
    | inl e ↦ (c, same→eq c.mechanism m e, p)
    | inr e ↦ named P cs m h (rw e at t)
  ]

-- A mechanism that comes from an eligible candidate, past the caller's constraint, with its
-- assessment's authorization.
abbrev pub IsEntitled : {F : Type 0} → CacheConditionSet F → Assessments → Mechanism → Type 0
IsEntitled {F} c assessments m =
    (k : Candidate F) × (k.mechanism ≡ m)
    × Among k c.eligible
    × (is_constrained c.common.requested_mode c.common.requested_mechanism m ≡ false)
    × IsAuthorized c.common.requested_mode assessments m

module _ {F : Type 0} (profile contract : Fields F) (c : CacheConditionSet F) {p : UnifiedPlan F}
    (built : build_unified_plan (condition_set c) profile contract ≡ ok p) where
  -- the frozen order is the order of the candidates
  order : p.candidate_order ≡ names p.candidates
  unfolding plan_of
  order = rw (← (facts profile contract c built).0) refl

  kept_common : p.common ≡ c.common
  unfolding plan_of
  kept_common = rw (← (facts profile contract c built).0) refl

  -- If a plan was built from a condition set and arbitration of that plan succeeds, then every
  -- selected mechanism is that of a candidate which stands unchanged among the eligible ones, is
  -- not excluded by the caller's constraint, and is authorized by its assessment: assessed,
  -- eligible, and either no creation, or a creation whose cost allows it, or outside `auto` one
  -- whose cost says nothing.
  pub selected_was_eligible :
      (assessments : Assessments) {d : Decision}
      → arbitrate_unified_plan p assessments ≡ ok d
      → All (IsEntitled c assessments) d.selected_mechanisms
  selected_was_eligible assessments {d} h =
      All-imp d.selected_mechanisms (λ m (o, a). entitled m o (rw kept_common at a))
        (arbitrate_sound p assessments h).0
    where
      entitled :
          (m : Mechanism)
          → has p.candidate_order m ≡ true
          → IsAuthorized c.common.requested_mode assessments m
          → IsEntitled c assessments m
      entitled m o a =
          let k : (k : Candidate F) × (k.mechanism ≡ m)
              × IsKept c.common.requested_mode c.common.requested_mechanism c.eligible k =
            named (IsKept c.common.requested_mode c.common.requested_mechanism c.eligible)
              p.candidates m (build_screens profile contract c built).0 (rw order at o) in
          (k.0, k.1, k.2.0, rw k.1 at k.2.1, a)

  -- For a plan built from a condition set that allows the uncached context, under a mode other than
  -- `on`, arbitration returns its choice for every family of assessments that names planned
  -- mechanisms only: it never raises.
  pub uncached_is_available :
      (assessments : Assessments)
      → mode_is_on c.common.requested_mode ≡ false
      → c.common.allow_uncached_same_context ≡ true
      → is_unplanned (names p.candidates) assessments ≡ false
      → arbitrate_unified_plan p assessments ≡ ok (chosen p assessments)
  uncached_is_available assessments n a u =
      arbitrate_total p assessments (rw kept_common n) allowed u
    where
      allowed : p.allow_none ≡ true
      allowed = rw (← (facts profile contract c built).0) (unfold plan_of in rw a)
