-- ===== src/Cache/Economics/Forecast.antt =====
-- `estimate_future_reuses` and `estimate_ttl_bounded_future_reuses` of app/cache/economics.py.
pub mod Bounds
use model_relay.Prelude.{
  ℕ, ◌-◌, ◌/◌, min, String, Bool, true, false, ◌&&◌, ◌||◌, Option, none, some, or_default, ltb, leb,
  if◌then◌else◌,
}
use model_relay.Prelude.Int.{ℤ, max_zero}
use model_relay.Python.Value.{
  Value, Fields, field, end, get, get_or, is_true, is_false, nat, as_count, as_positive,
}
use model_relay.Python.Runtime.{Runtime, max_f, min_f, zero_f}
use model_relay.Cache.Contracts.{Result, ok, raised, value_error}
use model_relay.Cache.Economics.Numbers.{nonnegative, is_zero, opt_float, at_least, at_most}

pub record Forecast (F : Type 0) : Type 0 where
  pub expected_future_reuses : ℕ
  pub source : String
  pub observed_compatible_uses : ℕ
  pub details : Fields F

module _ {F : Type 0} where
  abbrev forecast : ℕ → String → ℕ → Forecast F
  forecast n source observed = record {
    expected_future_reuses = n;
    source = source;
    observed_compatible_uses = observed;
    details = end;
  }

  -- The opt-in heuristic, where its two bounds are usable integers.
  history_forecast : Bool → Option ℕ → Option ℕ → ℕ → Forecast F
  history_forecast enabled (some minimum) (some limit) observed =
      if enabled && leb minimum observed
      then forecast (min limit ((observed - 1) / 2)) "frozen_policy_opt_in_history_heuristic"
          observed
      else forecast 0 "unknown_future_demand" observed
  history_forecast enabled _ _ observed = forecast 0 "unknown_future_demand" observed

  policy_forecast : Fields F → ℕ → Option ℕ → Forecast F
  unfolding history_forecast
  policy_forecast policy observed (some value) = forecast value "frozen_cache_policy" observed
  policy_forecast policy observed none =
      history_forecast (is_true (get "allow_history_forecast" policy))
        (at_least 3 (as_count (get_or (nat 3) "minimum_observations" policy)))
        (at_most 20 (as_count (get_or (nat 2) "max_history_forecast" policy))) observed

  -- The count of uses enters as `max(0, n)`: a negative one meets no minimum.
  unfoldable pub estimate_future_reuses : Fields F → ℤ → Forecast F
  unfolding policy_forecast
  estimate_future_reuses policy observed =
      policy_forecast policy (max_zero observed)
        (at_most 10000 (as_count (get "expected_future_reuses" policy)))

  -- `minimum` and `maximum` after their repairs.
  abbrev pub minimum_of : Fields F → ℕ
  minimum_of policy =
      or_default 3 (at_least 2 (as_count (get_or (nat 3) "minimum_observations" policy)))

  abbrev pub maximum_of : Fields F → ℕ
  maximum_of policy = or_default 8 (as_count (get_or (nat 8) "max_history_forecast" policy))

  abbrev pub observed_of : Fields F → ℕ
  observed_of evidence =
      or_default 0 (as_count (get_or (nat 0) "observed_compatible_uses" evidence))

  abbrev pub ttl_of : Value F → ℕ
  ttl_of ttl_seconds = or_default 3600 (as_positive ttl_seconds)

module _ (R : Runtime) where
  open R use {F, of_nat, decimal, lt, le, mul, div, round, trunc}

  abbrev pub confidence_of : Fields F → F
  confidence_of policy = min_f R (of_nat 1) (
      or_default (decimal 1 2)
        (nonnegative R (get_or (Value.float (decimal 1 2)) "history_forecast_confidence" policy)))

  -- `int(x)` of the cadence, bounded; `int` of an infinity or a NaN raises.
  bounded : ℕ → Option ℤ → Result ℕ
  bounded maximum none = raised value_error
  bounded maximum (some n) = ok (min maximum (max_zero n))

  thin : ℕ → ℕ → Option F → Option F → Forecast F
  thin observed ttl window age = record {
    expected_future_reuses = 0;
    source = "insufficient_recent_same_session_evidence";
    observed_compatible_uses = observed;
    details =
        field "observed_window_seconds" (opt_float R window)
          (field "observed_age_seconds" (opt_float R age) (field "ttl_seconds" (nat ttl) end));
  }

  cadence : F → F → F → F → ℕ → ℕ → Result ℕ → Result (Forecast F)
  cadence window age rate confidence observed ttl (raised e) = raised e
  cadence window age rate confidence observed ttl (ok n) = ok (record {
    expected_future_reuses = n;
    source = "same_session_observed_cadence_within_ttl";
    observed_compatible_uses = observed;
    details = field "observed_window_seconds" (Value.float (round window 3)) (
        field "observed_age_seconds" (Value.float (round age 3)) (
          field "observed_requests_per_hour" (Value.float (round (mul rate (of_nat 3600)) 4)) (
            field "forecast_confidence" (Value.float confidence)
              (field "ttl_seconds" (nat ttl) end))));
  })

  -- The estimate from recent requests, with what `window` and `age` were found to be.
  observed_forecast : Fields F → ℕ → ℕ → Option F → Option F → Result (Forecast F)
  unfolding bounded thin cadence max_f
  observed_forecast policy observed ttl (some window) (some age) =
      let confidence = confidence_of policy in
      let rate = max_f R (zero_f R) (div (of_nat (observed - 1)) window) in
      if ltb observed (minimum_of policy)
        || (le window (zero_f R)
            || (lt (of_nat ttl) age || (leb (maximum_of policy) 0 || is_zero R confidence)))
      then ok (thin observed ttl (some window) (some age))
      else cadence window age rate confidence observed ttl
          (bounded (maximum_of policy) (trunc (mul (mul rate (of_nat ttl)) confidence)))
  observed_forecast policy observed ttl window age = ok (thin observed ttl window age)

  ttl_forecast : Fields F → Fields F → ℕ → ℕ → Option ℕ → Result (Forecast F)
  unfolding observed_forecast
  ttl_forecast policy evidence observed ttl (some explicit) = ok (record {
    expected_future_reuses = min explicit 10000;
    source = "frozen_cache_policy_override";
    observed_compatible_uses = observed;
    details = field "ttl_seconds" (nat ttl) end;
  })
  ttl_forecast policy evidence observed ttl none =
      if is_false (get_or (Value.bool true) "enable_observed_ttl_forecast" policy)
      then ok (record {
        expected_future_reuses = 0;
        source = "observed_ttl_forecast_disabled";
        observed_compatible_uses = observed;
        details = field "ttl_seconds" (nat ttl) end;
      })
      else observed_forecast policy observed ttl
          (nonnegative R (get "observed_window_seconds" evidence))
          (nonnegative R (get "observed_age_seconds" evidence))

  unfoldable pub estimate_ttl_bounded_future_reuses :
      Fields F → Fields F → Value F → Result (Forecast F)
  unfolding ttl_forecast
  estimate_ttl_bounded_future_reuses policy evidence ttl_seconds =
      ttl_forecast policy evidence (observed_of evidence) (ttl_of ttl_seconds)
        (as_positive (get "expected_future_reuses" policy))
