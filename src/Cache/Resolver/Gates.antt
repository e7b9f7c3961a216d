-- ===== src/Cache/Resolver/Gates.antt =====
-- The tests of `CacheIntentResolver.resolve`, app/cache/intent_resolver.py, before and after the
-- screening: an exception, a finalized plan without a cache and its reason, or neither.
pub mod Policy
use model_relay.Prelude.{
  String, Bool, true, false, not, ◌||◌, ◌&&◌, Option, none, some, List, [], ◌∷◌, ◌==◌, is_empty,
  if◌then◌else◌,
}
use model_relay.Python.Value.{Value, Fields, get}
use model_relay.Python.Text.{lower, strip, is_blank}
use model_relay.Python.Runtime.{Runtime, truthy, or_else, str}
use model_relay.Cache.Contracts.{
  Mechanism, implicit_prefix, Mode, Preference, mode_is_on, mode_is_auto, is_auto, is_preferred,
  has, same, Result, ok, raised, ◌>>=◌, ◌>>◌, refuse_if, cache_decision,
}
use model_relay.Cache.Planner.Plan.{Rejection}
use model_relay.Cache.Resolver.Admission.{
  Supply, Admission, is_gemini, is_unset, is_verified, legacy_gemini_attempt,
}

-- `str(x or "auto").strip().lower()`
abbrev pub normal : Option String → String
normal none = "auto"
normal (some s) = if is_blank s then "auto" else lower (strip s)

unfoldable pub mode_of : Option String → Result Mode
mode_of requested =
    let mode = normal requested in
    if mode == "off"
    then ok Mode.off
    else if mode == "auto"
    then ok Mode.auto
    else if mode == "on"
    then ok Mode.on
    else raised (cache_decision "CACHE_MODE_INVALID" none)

unfoldable pub preference_of : Option String → Result Preference
preference_of requested =
    let preference = normal requested in
    if preference == "auto"
    then ok Preference.auto
    else if preference == "implicit_prefix"
    then ok Preference.implicit_prefix
    else if preference == "stateful_resource"
    then ok Preference.stateful_resource
    else raised (cache_decision "CACHE_MECHANISM_INVALID" none)

-- What a request asks for.
pub record Intent : Type 0 where
  pub mode : Mode
  pub preference : Preference

abbrev pub mode_is_off : Mode → Bool
mode_is_off Mode.off = true
mode_is_off _ = false

-- An exception under `on`, a reason under the other modes.
abbrev pub refused_or : Mode → String → String → Result (Option String)
refused_or mode code reason =
    if mode_is_on mode then raised (cache_decision code none) else ok (some reason)

-- `preference in candidates`
abbrev pub has_preferred : List Mechanism → Preference → Bool
has_preferred [] p = false
has_preferred (m ∷ ms) p = is_preferred p m || has_preferred ms p

-- The reason of the first rejection.
abbrev pub first_reason : List Rejection → String
first_reason [] = "mechanism_unavailable"
first_reason (r ∷ _) = r.reason

-- The reason of the first rejection of the preferred mechanism.
abbrev pub preferred_reason : Preference → List Rejection → String
preferred_reason p [] = "mechanism_unavailable"
preferred_reason p (r ∷ rs) = if is_preferred p r.mechanism then r.reason else preferred_reason p rs

module _ (R : Runtime) where
  open R use {F}

  -- `str((cache_policy or {}).get("scope") or "session")`
  abbrev pub scope_of : Fields F → String
  scope_of policy = str R (or_else R (get "scope" policy) (Value.text "session"))

  -- The request's own words, before any fact is read.
  unfoldable pub read_intent : Option String → Option String → Fields F → Result Intent
  read_intent requested_mode requested_mechanism policy = do
    mode ← mode_of requested_mode
    preference ← preference_of requested_mechanism
    refuse_if (not (scope_of policy == "session")) "CACHE_SCOPE_INVALID"
    refuse_if (mode_is_off mode && not (is_auto preference)) "CACHE_INTENT_CONFLICT"
    ok (record { mode = mode; preference = preference })

  abbrev pub is_unproved : Supply F → Admission → Bool
  is_unproved s a =
      not (is_verified R s)
      && (not (legacy_gemini_attempt R s) && (is_empty a.certified && is_empty a.trials))

  abbrev pub is_denied : Fields F → Bool
  is_denied policy = truthy R (get "deny" policy)

  abbrev pub is_shared : Fields F → Bool
  is_shared policy = truthy R (get "cross_session_sharing" policy)

  -- The tests after admission; `none` lets the request pass.
  unfoldable pub admission_gate :
      Supply F → Preference → Fields F → Admission → Result (Option String)
  admission_gate s preference policy a =
      if is_empty a.admitted
      then refused_or s.mode "CACHE_UNSUPPORTED" "mechanism_unavailable"
      else if is_unproved s a
      then refused_or s.mode "CACHE_PROTOCOL_UNVERIFIED" "protocol_unverified"
      else if is_denied policy
      then refused_or s.mode "CACHE_POLICY_DENIED" "policy_denied"
      else if is_shared policy
      then raised (cache_decision "CACHE_SCOPE_INVALID" none)
      else if mode_is_auto s.mode && truthy R (get "auto_disabled" policy)
      then ok (some "auto_policy_skip")
      else if not (is_auto preference) && not (has_preferred a.admitted preference)
      then refused_or s.mode "CACHE_MECHANISM_UNAVAILABLE" "requested_mechanism_unavailable"
      else ok none

  -- A forced mechanism that is not among the eligible ones, in a unified plan.
  unfoldable pub forced_gate :
      Mode → Preference → List Mechanism → List Rejection → Result (Option String)
  forced_gate mode preference eligible rejections =
      let reason = preferred_reason preference rejections in
      if mode_is_on mode && (not (is_auto preference) && not (has_preferred eligible preference))
      then (if reason == "below_minimum"
          then ok (some reason)
          else raised (cache_decision "CACHE_MECHANISM_INELIGIBLE" (some reason)))
      else ok none

  -- The end of `resolve`, where nothing is eligible.
  unfoldable pub final_refusal : Supply F → Bool → List Mechanism → List Rejection → Result String
  final_refusal s watchdog ordered rejections =
      let reason = first_reason rejections in
      let short = reason == "below_minimum" in
      let unclear = reason == "context_assessment_uncertain" in
      let upgraded = not (is_unset R s.upgrade) in
      if watchdog && short
      then ok "insufficient_prefix_length"
      else if mode_is_on s.mode && (s.mechanism_explicit && not (upgraded && short))
      then raised (cache_decision "CACHE_MECHANISM_INELIGIBLE" (some reason))
      else if mode_is_on s.mode && (not (short || unclear) || (upgraded && unclear))
      then raised (cache_decision "CACHE_THRESHOLD_UNVERIFIED" (some reason))
      else if mode_is_on s.mode && (unclear && (is_gemini s && has ordered implicit_prefix))
      then raised (cache_decision "CACHE_THRESHOLD_UNVERIFIED" (some reason))
      else ok reason
