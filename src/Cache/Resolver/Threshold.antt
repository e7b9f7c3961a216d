-- ===== src/Cache/Resolver/Threshold.antt =====
-- The threshold tests of `CacheIntentResolver.resolve`, app/cache/intent_resolver.py: the loop over
-- the ordered mechanisms that fills `eligible` and `rejections`.
pub mod Evidence
use model_relay.Prelude.{
  ℕ, zero, suc, String, Bool, true, false, not, ◌||◌, ◌&&◌, Option, none, some, is_some, List, [],
  ◌∷◌, ◌==◌, leb, ltb, if◌then◌else◌,
}
use model_relay.Prelude.Int.{ℤ, pos, negsuc, max_ℤ}
use model_relay.Python.Value.{Value, Fields, get, put, is_text, as_int, as_count, as_positive, nat}
use model_relay.Python.Text.{lower}
use model_relay.Python.Runtime.{Runtime, truthy, or_else, str, int_value}
use model_relay.Cache.Contracts.{
  Mechanism, stateful_resource, breakpoint, implicit_prefix, same, has, Result, ok, raised, ◌>>=◌,
  value_error,
}
use model_relay.Cache.Planner.Plan.{Rejection}
use model_relay.Cache.Resolver.Admission.{
  Supply, is_gemini, is_unset, is_override, profile_cache, profile_of,
}

-- What the loop reads: `has_prefix` is `bool(stable_prefix_ids)`, `assessment` the context plan's
-- `token_assessment`, `watchdog` the value of `chat_watchdog`.
pub record Context (F : Type 0) : Type 0 where
  pub supply : Supply F
  pub trials : List Mechanism
  pub watchdog : Bool
  pub has_prefix : Bool
  pub assessment : Fields F

-- What the tests say of the prefix's length.
pub data Reading : Type 0 where
  below certain uncertain : Reading

-- One round's outcome: a reason, or the configuration and `uncertain`.
pub data Screened (F : Type 0) : Type 0 where
  refused : String → Screened F
  accepted : Fields F → Bool → Screened F

pub record Eligible (F : Type 0) : Type 0 where
  pub mechanism : Mechanism
  pub config : Fields F
  pub uncertain : Bool

-- The lists that the loop fills.
pub record Outcome (F : Type 0) : Type 0 where
  pub eligible : List (Eligible F)
  pub rejections : List Rejection

abbrev or_raise : {A : Type 0} → Option A → Result A
or_raise none = raised value_error
or_raise (some a) = ok a

-- `type(lo) is int and lo >= minimum`
abbrev pub reaches : ℕ → Option ℤ → Bool
reaches minimum (some (pos n)) = leb minimum n
reaches minimum _ = false

-- `type(hi) is int and hi < minimum`, for a minimum that is not negative.
abbrev pub stays_below : ℕ → Option ℤ → Bool
stays_below minimum (some (pos n)) = ltb n minimum
stays_below minimum (some (negsuc _)) = true
stays_below minimum none = false

-- The thresholds that the provider itself enforces.
abbrev pub is_provider_managed : String → Bool
is_provider_managed t =
    t == "not_applicable" || (t == "provider_create" || t == "provider_enforced")

module _ (R : Runtime) where
  open R use {F}

  -- `int(upgrade.get("version") or 0)`
  abbrev pub upgrade_version : Supply F → Result ℤ
  upgrade_version s = or_raise (int_value R (or_else R (get "version" s.upgrade) (nat 0)))

  -- `v66 and protocol == "chat_completions" and (…)`
  abbrev pub chat_watchdog : ℤ → Supply F → Bool
  chat_watchdog version s =
      reaches 2 (some version)
      && (is_text "chat_completions" (get "protocol" s.protocol_profile)
          && (truthy R (get "implicit_watchdog" s.contract)
              || truthy R (get "implicit_watchdog" (profile_cache s))))

  unfoldable pub threshold_mode : Fields F → String
  threshold_mode cfg = lower (str R (or_else R (get "threshold_mode" cfg) (Value.text "unknown")))

  trial_config : List Mechanism → Mechanism → Fields F → Fields F
  trial_config trials m cfg =
      if has trials m then put "admission_status" (Value.text "provider_managed_trial") cfg else cfg

  override_config : Supply F → Mechanism → Fields F → Fields F
  unfolding threshold_mode
  override_config s m cfg =
      let marked =
        put "upstream_verification_status"
          (Value.text
            (str R (or_else R (get "verification_status" s.contract) (Value.text "unverified"))))
          (put "system_admission_override" (Value.text "gemini_model_cache_attempt") cfg) in
      if not (is_override R s m)
      then cfg
      else if threshold_mode marked == "unknown"
      then put "threshold_admission_override" (Value.text "provider_create")
          (put "threshold_mode" (Value.text "provider_create") marked)
      else marked

  watchdog_minimum : Supply F → Fields F → Result (Fields F)
  watchdog_minimum s cfg = do
    own ← or_raise (int_value R (or_else R (get "minimum_cacheable_tokens" cfg) (nat 0)))
    least ← or_raise (int_value R (get "implicit_min_tokens" s.upgrade))
    ok (
        put "final_threshold_guard" (Value.bool true) (
          put "implicit_watchdog" (Value.bool true)
            (put "minimum_cacheable_tokens" (Value.int (max_ℤ own least)) cfg)))

  watchdog_config : Bool → Supply F → Mechanism → Fields F → Result (Fields F)
  unfolding watchdog_minimum
  watchdog_config watchdog s m cfg =
      if watchdog && same m implicit_prefix then watchdog_minimum s cfg else ok cfg

  native_config : Supply F → Mechanism → Fields F → Fields F
  unfolding threshold_mode
  native_config s m cfg =
      if not (is_unset R s.upgrade)
        && (same m breakpoint
            && (threshold_mode cfg == "provider_enforced"
                && is_text "claude_messages" (get "protocol" s.protocol_profile)))
      then put "native_breakpoints" (Value.bool true) cfg
      else cfg

  -- The configuration of a round: the contract's own entry with what the loop writes into it.
  unfoldable pub prepared_config : Context F → Mechanism → Result (Fields F)
  unfolding trial_config override_config watchdog_config native_config
  prepared_config x m = do
    cfg ←
        watchdog_config x.watchdog x.supply m
          (override_config x.supply m (trial_config x.trials m (profile_of x.supply.contract m)))
    ok (native_config x.supply m cfg)

  abbrev pub cacheable_minimum : Fields F → Value F
  cacheable_minimum cfg = get "minimum_cacheable_tokens" cfg

  -- A minimum against the bounds on the token count.
  measured : Fields F → Option ℕ → Reading
  measured assessment none = Reading.uncertain
  measured assessment (some minimum) =
      if reaches minimum (as_int (get "lower" assessment))
      then Reading.certain
      else if stays_below minimum (as_int (get "upper" assessment))
      then Reading.below
      else Reading.uncertain

  abbrev pub is_gemini_implicit : Context F → Mechanism → Bool
  is_gemini_implicit x m = is_gemini x.supply && same m implicit_prefix

  unfoldable pub reading_of : Context F → Mechanism → Fields F → Reading
  unfolding measured
  reading_of x m cfg =
      if not x.has_prefix
      then Reading.below
      else if x.watchdog && same m implicit_prefix
      then Reading.uncertain
      else if has x.trials m
      then Reading.certain
      else if is_provider_managed (threshold_mode cfg)
      then (if is_gemini_implicit x m then Reading.uncertain else Reading.certain)
      else measured x.assessment (as_count (cacheable_minimum cfg))

  abbrev pub is_guarded : Fields F → Bool
  is_guarded cfg = truthy R (get "final_threshold_guard" cfg)

  unfoldable pub verdict : Bool → Fields F → Reading → Screened F
  verdict gemini_implicit cfg Reading.below = refused "below_minimum"
  verdict gemini_implicit cfg Reading.certain = accepted cfg false
  verdict gemini_implicit cfg Reading.uncertain =
      if not (is_guarded cfg)
      then refused "context_assessment_uncertain"
      else if gemini_implicit && not (is_some (as_positive (cacheable_minimum cfg)))
      then refused "implicit_prefix_threshold_unverified"
      else accepted cfg true

  -- One round of the loop.
  unfoldable pub screen_mechanism : Context F → Mechanism → Result (Screened F)
  screen_mechanism x m = do
    cfg ← prepared_config x m
    ok (verdict (is_gemini_implicit x m) cfg (reading_of x m cfg))

  unfoldable pub record_round : Mechanism → Screened F → Outcome F → Outcome F
  record_round m (refused why) o = record o {
    rejections = record { mechanism = m; reason = why } ∷ o.rejections;
  }
  record_round m (accepted cfg u) o = record o {
    eligible = record { mechanism = m; config = cfg; uncertain = u } ∷ o.eligible;
  }

  unfoldable pub screen_ordered : Context F → List Mechanism → Result (Outcome F)
  screen_ordered x [] = ok (record { eligible = []; rejections = [] })
  screen_ordered x (m ∷ ms) = do
    round ← screen_mechanism x m
    rest ← screen_ordered x ms
    ok (record_round m round rest)
