-- ===== src/Cache/Resolver/Unified/Entitled.antt =====
-- A grant from the admission of app/cache/intent_resolver.py through the plan of
-- app/cache/planner.py to the branch that arbitration selects.
use model_relay.Prelude.Int.{ℤ}
use model_relay.Prelude.{
  String, ◌≡◌, refl, inl, inr, Bool, true, false, Option, none, some, List, [], ◌∷◌, All, All-imp,
  is_empty,
}
use model_relay.Python.Value.{Fields}
use model_relay.Python.Runtime.{Runtime}
use model_relay.Cache.Contracts.{
  Mechanism, Mode, same, has, implicit_prefix, ok, ok_injective, bind_ok, branch_ok,
  stateful_resource,
}
use model_relay.Cache.Economics.Forecast.{Forecast}
use model_relay.Cache.Planner.Plan.{
  Candidate, CacheConditionSet, Conditions, condition_set, intent_plan, Rejection, UnifiedPlan,
  build_unified_plan, names,
}
use model_relay.Cache.Planner.Arbitration.{Assessments, Decision, arbitrate_unified_plan}
use model_relay.Cache.Planner.Choice.{IsAuthorized}
use model_relay.Cache.Planner.Pipeline.{has_of_Among, selected_was_eligible}
use model_relay.Cache.Resolver.Admission.{Supply, Admission, admit_mechanisms}
use model_relay.Cache.Resolver.Admission.Grants.{IsGranted, admit_mechanisms-IsGranted}
use model_relay.Cache.Resolver.Threshold.{Eligible, Outcome, screen_ordered, upgrade_version}
use model_relay.Cache.Resolver.Gates.{
  Intent, admission_gate, is_denied, forced_gate, final_refusal, read_intent, mode_is_off,
}
use model_relay.Cache.Resolver.Gates.Policy.{admission_gate_passes}
use model_relay.Cache.Resolver.Request.{Request, supply_of, none_plan, predict, cold_start}
use model_relay.Cache.Resolver.Resources.{resource_economics}
use model_relay.Cache.Resolver.Unified.{
  mechanisms, ordered_of, priced_candidate, screened_one, screened_all, common_of, conditions_of,
  refusal_of, conclude, context_of, screened, proceed, resolve_on, resolve_unified,
}
use model_relay.Cache.Resolver.Unified.Order.{member_of, ordered_of-All, screen_ordered-All}

module _ (R : Runtime) where
  open R use {F}

  screened_one_name :
      (q : Request F) (f : Forecast F) (a : Admission) (cold implicit : Bool) (e : Eligible F)
      {c : Candidate F}
      → screened_one R q f a cold implicit e ≡ ok c
      → c.mechanism ≡ e.mechanism
  unfolding screened_one priced_candidate
  screened_one_name q f a cold implicit e h =
      elim (branch_ok (same e.mechanism stateful_resource) _ _ h) [
        | inl b ↦
            let s = bind_ok (resource_economics R q f a cold) _ b in rw (← ok_injective s.2) refl
        | inr b ↦ rw (← ok_injective b) refl
      ]

  names-screened_all :
      (q : Request F) (f : Forecast F) (a : Admission) (cold implicit : Bool)
      (es : List (Eligible F)) {cs : List (Candidate F)}
      → screened_all R q f a cold implicit es ≡ ok cs
      → names cs ≡ mechanisms es
  unfolding screened_all mechanisms
  names-screened_all q f a cold implicit [] h = rw (← ok_injective h) refl
  names-screened_all q f a cold implicit (e ∷ es) h =
      let s = bind_ok (screened_one R q f a cold implicit e) _ h in
      let t = bind_ok (screened_all R q f a cold implicit es) _ s.2 in
      rw
        (
          ← ok_injective t.2,
          screened_one_name q f a cold implicit e s.1,
          names-screened_all q f a cold implicit es t.1,
        )
        refl

  -- A condition set whose eligible mechanisms are all granted, under a policy that denies nothing.
  abbrev pub IsPermitted : Request F → CacheConditionSet F → Type 0
  IsPermitted q c =
      All (IsGranted R (supply_of q c.common.requested_mode)) (names c.eligible)
      × (is_denied R q.policy ≡ false)

  -- The same of a result, which may be a plan without a cache.
  abbrev IsPermittedIn : Request F → Conditions F → Type 0
  IsPermittedIn q (condition_set c) = IsPermitted q c
  IsPermittedIn q (intent_plan i) = Unit

  none_plan-IsPermittedIn :
      (q : Request F) (i : Intent) (why : String) (f : Fields F) (v : String) (rs : List Rejection)
      → IsPermittedIn q (none_plan q i why f v rs)
  unfolding none_plan
  none_plan-IsPermittedIn q i why f v rs = tt

  module _ (q : Request F) (i : Intent) (f : Forecast F) (a : Admission)
      (allowed : is_denied R q.policy ≡ false) where
    conditions_of-IsPermittedIn :
        (cold : Bool) (o : Outcome F) {r : Conditions F}
        → conditions_of R q i f a cold o ≡ ok r
        → All (IsGranted R (supply_of q i.mode)) (mechanisms o.eligible)
        → IsPermittedIn q r
    unfolding conditions_of common_of
    conditions_of-IsPermittedIn cold o h g =
        let s =
          bind_ok
            (screened_all R q f a cold (has (mechanisms o.eligible) implicit_prefix) o.eligible) _
            h in
        rw (← ok_injective s.2) (
          rw
              (names-screened_all q f a cold (has (mechanisms o.eligible) implicit_prefix)
                o.eligible s.1)
              g,
          allowed,
        )

    refusal_of-IsPermittedIn :
        (watchdog : Bool) (ordered : List Mechanism) (o : Outcome F) {r : Conditions F}
        → refusal_of R q i f watchdog ordered o ≡ ok r
        → IsPermittedIn q r
    unfolding refusal_of
    refusal_of-IsPermittedIn watchdog ordered o h =
        let s = bind_ok (final_refusal R (supply_of q i.mode) watchdog ordered o.rejections) _ h in
        rw (← ok_injective s.2) (none_plan-IsPermittedIn q i _ _ _ _)

    conclude-IsPermittedIn :
        (cold watchdog : Bool) (ordered : List Mechanism) (o : Outcome F) (forced : Option String)
        {r : Conditions F}
        → conclude R q i f a cold watchdog ordered o forced ≡ ok r
        → All (IsGranted R (supply_of q i.mode)) (mechanisms o.eligible)
        → IsPermittedIn q r
    unfolding conclude
    conclude-IsPermittedIn cold watchdog ordered o (some why) h g =
        rw (← ok_injective h) (none_plan-IsPermittedIn q i _ _ _ _)
    conclude-IsPermittedIn cold watchdog ordered o none h g =
        elim (branch_ok (is_empty o.eligible) _ _ h) [
          | inl b ↦ refusal_of-IsPermittedIn watchdog ordered o b
          | inr b ↦ conditions_of-IsPermittedIn cold o b g
        ]

    screened-IsPermittedIn :
        (version : ℤ) {r : Conditions F}
        → screened R q i version f a ≡ ok r
        → All (IsGranted R (supply_of q i.mode)) a.admitted
        → IsPermittedIn q r
    unfolding screened
    screened-IsPermittedIn version h g =
        let P : Mechanism → Type 0 = IsGranted R (supply_of q i.mode) in
        let c = bind_ok (cold_start R q) _ h in
        let d = bind_ok (ordered_of R q.policy a.admitted) _ c.2 in
        let x = context_of R q i a version in
        let o = bind_ok (screen_ordered R x d.0) _ d.2 in
        let e =
          bind_ok (forced_gate R i.mode i.preference (mechanisms o.0.eligible) o.0.rejections) _
            o.2 in
        conclude-IsPermittedIn c.0 x.watchdog d.0 o.0 e.0 e.2
          (screen_ordered-All R P x d.0 o.1 (ordered_of-All R P q.policy a.admitted d.1 g))

  proceed-IsPermittedIn :
      (q : Request F) (i : Intent) (version : ℤ) (f : Forecast F) (a : Admission)
      (gate : Option String) {r : Conditions F}
      → admission_gate R (supply_of q i.mode) i.preference q.policy a ≡ ok gate
      → proceed R q i version f a gate ≡ ok r
      → All (IsGranted R (supply_of q i.mode)) a.admitted
      → IsPermittedIn q r
  unfolding proceed
  proceed-IsPermittedIn q i version f a (some why) e h g =
      rw (← ok_injective h) (none_plan-IsPermittedIn q i _ _ _ _)
  proceed-IsPermittedIn q i version f a none e h g =
      screened-IsPermittedIn q i f a
        (admission_gate_passes R (supply_of q i.mode) i.preference q.policy a e).2 version h g

  admitted-IsGranted :
      (s : Supply F) {a : Admission}
      → admit_mechanisms R true s ≡ ok a
      → All (IsGranted R s) a.admitted
  admitted-IsGranted s {a} h =
      let g = admit_mechanisms-IsGranted R true s h in All-imp a.admitted (λ m (d, k). k) g.4

  resolve_on-IsPermittedIn :
      (q : Request F) (i : Intent) (version : ℤ) {r : Conditions F}
      → resolve_on R q i version ≡ ok r
      → IsPermittedIn q r
  unfolding resolve_on
  resolve_on-IsPermittedIn q i version h =
      let a = bind_ok (admit_mechanisms R true (supply_of q i.mode)) _ h in
      let f = bind_ok (predict R q i.mode) _ a.2 in
      let g = bind_ok (admission_gate R (supply_of q i.mode) i.preference q.policy a.0) _ f.2 in
      proceed-IsPermittedIn q i version f.0 a.0 g.0 g.1 g.2
        (admitted-IsGranted (supply_of q i.mode) a.1)

  resolve_unified-IsPermittedIn :
      (q : Request F) {r : Conditions F} → resolve_unified R q ≡ ok r → IsPermittedIn q r
  unfolding resolve_unified
  resolve_unified-IsPermittedIn q h =
      let v = bind_ok (upgrade_version R (supply_of q Mode.auto)) _ h in
      let i = bind_ok (read_intent R q.requested_mode q.requested_mechanism q.policy) _ v.2 in
      elim (branch_ok (mode_is_off i.0.mode) _ _ i.2) [
        | inl b ↦ rw (← ok_injective b) (none_plan-IsPermittedIn q i.0 _ _ _ _)
        | inr b ↦ resolve_on-IsPermittedIn q i.0 v.0 b
      ]

  -- If the resolver returns a condition set for a request, a plan is built from it and arbitration
  -- of that plan succeeds, then every selected mechanism is one that admission grants to the
  -- request and that its assessment authorizes, and the policy does not deny the cache.
  pub selected_was_admitted :
      (q : Request F) (profile contract : Fields F) (assessments : Assessments)
      {c : CacheConditionSet F} {p : UnifiedPlan F} {d : Decision}
      → resolve_unified R q ≡ ok (condition_set c)
      → build_unified_plan (condition_set c) profile contract ≡ ok p
      → arbitrate_unified_plan p assessments ≡ ok d
      → All
          (λ m.
            IsGranted R (supply_of q c.common.requested_mode) m
            × IsAuthorized c.common.requested_mode assessments m)
          d.selected_mechanisms
        × (is_denied R q.policy ≡ false)
  selected_was_admitted q profile contract assessments {c} {p} {d} resolved built arbitrated =
      let g = resolve_unified-IsPermittedIn q resolved in
      (
        All-imp d.selected_mechanisms
            (λ m (k, e, a, u, z). (
              member_of (IsGranted R (supply_of q c.common.requested_mode)) (names c.eligible) m g.0
                  (rw (← e) (has_of_Among k c.eligible a)),
              z,
            ))
            (selected_was_eligible profile contract c built assessments arbitrated),
        g.1,
      )
