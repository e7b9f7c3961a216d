-- ===== src/Cache/Economics/Forecast/Bounds.antt =====
-- Bounds on the forecasts of app/cache/economics.py, and the evidence behind a positive one.
use model_relay.Prelude.{ℕ, ◌≤◌, ◌<◌, ◌≡◌, refl, true, false, Option, none, some, arith}
use model_relay.Prelude.Int.{ℤ, max_zero}
use model_relay.Python.Value.{Value, Fields, get, is_true, as_count, as_positive}
use model_relay.Python.Runtime.{Runtime}
use model_relay.Cache.Contracts.{ok}
use model_relay.Cache.Economics.Numbers.{nonnegative, at_most}
use model_relay.Cache.Economics.Forecast.{
  Forecast, policy_forecast, estimate_future_reuses, estimate_ttl_bounded_future_reuses, minimum_of,
  maximum_of, observed_of, ttl_of, observed_forecast,
}

module _ {F : Type 0} where
  policy_forecast_bound :
      (policy : Fields F) (n : ℕ) (o : Option ℕ)
      → (policy_forecast policy n (at_most 10000 o)).expected_future_reuses ≤ 10000
  unfolding policy_forecast
  policy_forecast_bound policy n none = ground arith
  policy_forecast_bound policy n (some v) = ground arith

  -- Whatever the policy and the observation, `estimate_future_reuses` forecasts at most ten
  -- thousand reuses.
  pub future_reuses_bound :
      (policy : Fields F) (observed : ℤ)
      → (estimate_future_reuses policy observed).expected_future_reuses ≤ 10000
  unfolding estimate_future_reuses
  future_reuses_bound policy observed =
      policy_forecast_bound policy (max_zero observed)
        (as_count (get "expected_future_reuses" policy))

  -- If `estimate_future_reuses` returns a positive forecast while the policy states no count of its
  -- own, then the history heuristic is switched on, at least three uses were observed, and the
  -- forecast is below the observed uses and at most twenty.
  pub future_reuses_evidence :
      (policy : Fields F) (observed : ℤ)
      → as_count (get "expected_future_reuses" policy) ≡ none
      → 0 < (estimate_future_reuses policy observed).expected_future_reuses
      → (is_true (get "allow_history_forecast" policy) ≡ true)
        × (3 ≤ max_zero observed)
        × ((estimate_future_reuses policy observed).expected_future_reuses < max_zero observed)
        × ((estimate_future_reuses policy observed).expected_future_reuses ≤ 20)
  unfolding estimate_future_reuses
  future_reuses_evidence policy observed n h = ground arith

module _ (R : Runtime) where
  -- What a positive estimate rests on.
  abbrev pub IsSupported : Fields R.F → ℕ → ℕ → Option R.F → ℕ → Type 0
  IsSupported policy observed ttl age n =
      (n ≤ maximum_of policy)
      × (minimum_of policy ≤ observed)
      × (a : R.F) × (age ≡ some a)
      × (R.lt (R.of_nat ttl) a ≡ false)

  observed_forecast-IsSupported :
      (policy : Fields R.F) (observed ttl : ℕ) (window age : Option R.F) {f : Forecast R.F}
      → observed_forecast R policy observed ttl window age ≡ ok f
      → 0 < f.expected_future_reuses
      → IsSupported policy observed ttl age f.expected_future_reuses
  unfolding observed_forecast
  observed_forecast-IsSupported policy observed ttl none age h p = absurd (ground arith)
  observed_forecast-IsSupported policy observed ttl (some w) none h p = absurd (ground arith)
  observed_forecast-IsSupported policy observed ttl (some w) (some a) h p =
      (ground arith, ground arith, a, refl, ground arith)

  -- If `estimate_ttl_bounded_future_reuses` returns a positive forecast without an operator's
  -- override, the forecast is at most the policy's maximum, at least the required number of uses
  -- was observed, and the age of the sample is known and not above the lifetime.
  pub ttl_forecast_bound :
      (policy evidence : Fields R.F) (ttl : Value R.F) {f : Forecast R.F}
      → estimate_ttl_bounded_future_reuses R policy evidence ttl ≡ ok f
      → as_positive (get "expected_future_reuses" policy) ≡ none
      → 0 < f.expected_future_reuses
      → IsSupported policy
          (observed_of evidence)
          (ttl_of ttl)
          (nonnegative R (get "observed_age_seconds" evidence))
          f.expected_future_reuses
  unfolding estimate_ttl_bounded_future_reuses
  ttl_forecast_bound policy evidence ttl {f} h n p =
      observed_forecast-IsSupported policy (observed_of evidence) (ttl_of ttl)
        (nonnegative R (get "observed_window_seconds" evidence))
        (nonnegative R (get "observed_age_seconds" evidence)) {f = f} (ground arith) p
