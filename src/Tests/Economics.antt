-- ===== src/Tests/Economics.antt =====
-- app/cache/economics.py on one priced resource.
use model_relay.Python.Runtime.{str, or_else, to_float, max_f, min_f, truthy}
use model_relay.Python.Text.{upper, strip}
use model_relay.Prelude.{ℕ, ◌≡◌, refl, ◌⊎◌, ◌<◌, true, false, some, arith}
use model_relay.Prelude.Int
use model_relay.Prelude.Int.{ℤ, pos}
use model_relay.Python.Value.{Value, Fields, field, end, nat, get_or}
use model_relay.Cache.Contracts.{ok}
use model_relay.Cache.Economics.Numbers.{CostDecision, nonnegative}
use model_relay.Cache.Economics.Prices.{
  creation_cost, storage_cost, Rates, cap_of, is_labelled, currency_of, revision_of,
}
use model_relay.Cache.Economics.NewResource.{
  complete_rates, overhead, evaluate_new_resource, all_rates,
}
use model_relay.Cache.Economics.CurrentRead.{
  ReadRates, read_rates, observed_storage, is_unverified_rate, evaluate_current_read_resource,
}
use model_relay.Cache.Economics.Relative.{
  evaluate_relative_cache_strategy, approved_margin, budget_prices, creation_money, compared,
  observed_hit_rate, limited,
}
use model_relay.Cache.Economics.Snapshot.{
  evaluate_v65_snapshot_cost, snapshot_rates, snapshot_cost, implicit_available, snapshot_hit_rate,
}
use model_relay.Cache.Economics.Forecast.{
  Forecast, estimate_future_reuses, estimate_ttl_bounded_future_reuses,
}
use model_relay.Cache.Economics.Forecast.Bounds.{IsSupported, ttl_forecast_bound}
use model_relay.Cache.Economics.Budget.{
  IsWithin, new_resource_within, current_read-IsWithin, relative_within, snapshot_within,
}
use model_relay.Cache.Economics.Evidence.{
  current_read_evidence, relative_evidence, snapshot_evidence, certified, estimated_rate,
}
use model_relay.Tests.Fixed.{fixed}

-- Input at 10, reads at 1, writes at 1 and storage at 1 for a million tokens.
abbrev prices : Fields ℤ
prices = field "currency" (Value.text "usd") (
    field "price_revision" (Value.text "r1") (
      field "input_cost_per_million_tokens" (nat 10) (
        field "cache_read_cost_per_million_tokens" (nat 1) (
          field "cache_write_cost_per_million_tokens" (nat 1)
            (field "storage_cost_per_million_tokens_minute" (nat 1) end)))))

abbrev capped : Fields ℤ
capped = field "price_schedule" (Value.dict prices) (
    field "max_new_resource_cost" (nat 30) (
      field "certified_implicit_alternative" (Value.bool true) (
        field "estimated_implicit_hit_rate" (nat 0) (
          field "observed_implicit_hit_rate" (nat 0)
            (field "expected_future_reuses" (nat 4) (field "safety_margin_ratio" (nat 0) end))))))

abbrev tokens : Value ℤ
tokens = nat 1_000_000

abbrev rates : Rates ℤ
rates = record {
  input = pos 10_000_000;
  read = pos 1_000_000;
  write = pos 1_000_000;
  storage = pos 1_000_000;
}

cap_known : cap_of fixed capped ≡ some (pos 30_000_000)
unfolding nonnegative get_or to_float
cap_known = refl

allowed_new : (evaluate_new_resource fixed tokens (nat 60) capped false).allow ≡ true
unfolding evaluate_new_resource complete_rates is_labelled currency_of upper strip str or_else
    get_or revision_of all_rates nonnegative to_float max_f min_f
allowed_new = refl

new_resource_within_example :
    (n t : ℕ) × (rates : Rates ℤ) × (some 1_000_000 ≡ some n)
    × (some 60 ≡ some t)
    × (complete_rates fixed prices ≡ some rates)
    × (fixed.lt (pos 30_000_000) (overhead fixed n t rates) ≡ false)
unfolding nonnegative get_or to_float
new_resource_within_example =
    new_resource_within fixed tokens (nat 60) capped false {cap = pos 30_000_000} allowed_new
      cap_known

allowed_read :
    (evaluate_current_read_resource fixed tokens (nat 60) capped false (nat 0)).allow ≡ true
unfolding evaluate_current_read_resource read_rates is_labelled currency_of upper strip str or_else
    get_or revision_of nonnegative to_float max_f min_f
allowed_read = refl

current_read-IsWithin_example :
    (n t : ℕ) × (rates : ReadRates ℤ) × (some 1_000_000 ≡ some n)
    × (some 60 ≡ some t)
    × (read_rates fixed capped ≡ some rates)
    × IsWithin fixed
        (pos 30_000_000)
        (creation_cost fixed n rates.create)
        (observed_storage fixed n t (some (pos 1_000_000)))
unfolding nonnegative get_or to_float
current_read-IsWithin_example =
    current_read-IsWithin fixed tokens (nat 60) capped false (nat 0) {cap = pos 30_000_000}
      allowed_read cap_known

current_read_evidence_example :
    (rates : ReadRates ℤ) × (read_rates fixed capped ≡ some rates)
    × ((certified fixed capped ≡ false)
        ⊎ (is_unverified_rate fixed (estimated_rate fixed capped) ≡ false))
current_read_evidence_example =
    current_read_evidence fixed tokens (nat 60) capped (nat 0) allowed_read

abbrev verdict : CostDecision ℤ
unfolding compared
verdict = compared fixed capped false true 1_000_000 60 0 (pos 0)

judged :
    evaluate_relative_cache_strategy fixed tokens (nat 60) capped false (nat 0) true ≡ ok verdict
unfolding evaluate_relative_cache_strategy compared approved_margin nonnegative get_or to_float
judged = refl

verdict_allows : verdict.allow ≡ true
unfolding compared limited nonnegative get_or to_float budget_prices is_labelled currency_of upper
    strip str or_else revision_of max_f min_f
verdict_allows = refl

relative_within_example :
    (n t : ℕ) × (pair : ℤ × ℤ) × (some 1_000_000 ≡ some n)
    × (some 60 ≡ some t)
    × (budget_prices fixed prices ≡ some pair)
    × (fixed.lt
          (pos 30_000_000)
          (fixed.add (creation_money fixed n pair.0) (storage_cost fixed n t pair.1))
        ≡ false)
unfolding get_or
relative_within_example =
    relative_within fixed tokens (nat 60) capped false (nat 0) {cap = pos 30_000_000} {d = verdict}
      judged verdict_allows cap_known

relative_evidence_example :
    (margin : ℤ) × (approved_margin fixed capped ≡ some margin)
    × ((implicit_available fixed capped ≡ false)
        ⊎ (is_unverified_rate fixed (observed_hit_rate fixed capped) ≡ false))
relative_evidence_example =
    relative_evidence fixed tokens (nat 60) capped (nat 0) true {d = verdict} judged verdict_allows

snapshot_allowed :
    (evaluate_v65_snapshot_cost fixed (pos 1_000_000) (pos 60) capped false (pos 0)).allow ≡ true
unfolding evaluate_v65_snapshot_cost snapshot_rates truthy get_or nonnegative to_float min_f
snapshot_allowed = refl

snapshot_within_example :
    (rates : Rates ℤ) × (n a t : ℕ) × (snapshot_rates fixed prices ≡ some rates)
    × (Int.nonnegative (pos 1_000_000) ≡ some n)
    × (Int.nonnegative (pos 0) ≡ some a)
    × (Int.nonnegative (pos 60) ≡ some t)
    × (a < n)
    × (fixed.le (snapshot_cost fixed n t rates) (pos 30_000_000) ≡ true)
unfolding get_or
snapshot_within_example =
    snapshot_within fixed (pos 1_000_000) (pos 60) capped false (pos 0) {cap = pos 30_000_000}
      snapshot_allowed cap_known

snapshot_evidence_example :
    (rates : Rates ℤ) × (snapshot_rates fixed prices ≡ some rates)
    × (is_unverified_rate fixed (snapshot_hit_rate fixed capped) ≡ false)
unfolding get_or
snapshot_evidence_example =
    snapshot_evidence fixed (pos 1_000_000) (pos 60) capped (pos 0) snapshot_allowed refl refl

-- Five uses in an hour, the last a minute ago.
abbrev hourly : Fields ℤ
hourly =
    field "observed_compatible_uses" (nat 5)
      (field "observed_window_seconds" (nat 3600) (field "observed_age_seconds" (nat 60) end))

abbrev confident : Fields ℤ
confident = field "history_forecast_confidence" (nat 1) end

abbrev expected : Forecast ℤ
expected = record {
  expected_future_reuses = 3;
  source = "same_session_observed_cadence_within_ttl";
  observed_compatible_uses = 5;
  details = field "observed_window_seconds" (Value.float (pos 3600_000_000)) (
      field "observed_age_seconds" (Value.float (pos 60_000_000)) (
        field "observed_requests_per_hour" (Value.float (pos 3_999_600)) (
          field "forecast_confidence" (Value.float (pos 1_000_000))
            (field "ttl_seconds" (nat 3600) end))));
}

forecast_known : estimate_ttl_bounded_future_reuses fixed confident hourly (nat 3600) ≡ ok expected
unfolding estimate_ttl_bounded_future_reuses get_or nonnegative to_float min_f
forecast_known = refl

ttl_forecast_bound_example : IsSupported fixed confident 5 3600 (some (pos 60_000_000)) 3
unfolding get_or nonnegative to_float
ttl_forecast_bound_example =
    ttl_forecast_bound fixed confident hourly (nat 3600) {f = expected} forecast_known refl
      (omega arith)

abbrev opted_in : Fields ℤ
opted_in = field "allow_history_forecast" (Value.bool true) end

two_expected : (estimate_future_reuses opted_in (pos 9)).expected_future_reuses ≡ 2
unfolding estimate_future_reuses get_or
two_expected = refl
