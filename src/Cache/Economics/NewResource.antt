-- ===== src/Cache/Economics/NewResource.antt =====
-- `evaluate_new_resource` of app/cache/economics.py.
use model_relay.Prelude.{
  ℕ, suc, Bool, true, false, not, ◌&&◌, Option, none, some, is_some, if◌then◌else◌,
}
use model_relay.Python.Value.{Value, Fields, field, end, get, as_dict, as_positive, is_true, nat}
use model_relay.Python.Runtime.{Runtime, zero_f, max_f}
use model_relay.Cache.Economics.Numbers.{CostDecision, decide, nonnegative, opt_float}
use model_relay.Cache.Economics.Prices.{
  Rates, price_schedule, future_of, is_labelled, currency_of, revision_of, input_rate, read_rate,
  write_rate, storage_rate, cap_of, million, creation_cost, storage_cost, exceeds, margin_of,
  is_positive, blended, rounded, source_of,
}

module _ (R : Runtime) where
  open R use {F, of_nat, lt, add, sub, mul, div}

  -- All four prices, with reads cheaper than input.
  unfoldable pub all_rates : Option F → Option F → Option F → Option F → Option (Rates F)
  all_rates (some input) (some read) (some write) (some storage) =
      if lt read input
      then some (record { input = input; read = read; write = write; storage = storage })
      else none
  all_rates _ _ _ _ = none

  -- The schedule, where it is complete.
  unfoldable pub complete_rates : Fields F → Option (Rates F)
  complete_rates prices =
      if is_labelled R prices
      then all_rates (input_rate R prices) (read_rate R prices) (write_rate R prices)
          (storage_rate R prices)
      else none

  -- `creation + storage`
  abbrev pub overhead : ℕ → ℕ → Rates F → F
  overhead tokens ttl rates =
      add (creation_cost R tokens rates.write) (storage_cost R tokens ttl rates.storage)

  -- The hit rate that is granted to a certified alternative: 1 where none is usable.
  abbrev granted_hit_rate : Option F → F
  granted_hit_rate none = of_nat 1
  granted_hit_rate (some hit) = if lt (of_nat 1) hit then of_nat 1 else hit

  base : Fields F → ℕ → ℕ → Rates F → Fields F → Fields F
  base prices tokens ttl rates more = field "currency" (Value.text (currency_of R prices)) (
      field "price_revision" (Value.text (revision_of R prices)) (
        field "prefix_token_count" (nat tokens) (
          field "ttl_seconds" (nat ttl) (
            field "estimated_creation_cost" (rounded R (creation_cost R tokens rates.write)) (
              field "estimated_storage_cost" (rounded R (storage_cost R tokens ttl rates.storage)) (
                field "estimated_new_resource_cost" (rounded R (overhead tokens ttl rates))
                  (field "cost_status" (Value.text "estimated_from_frozen_prices") more)))))))

  -- The comparison that a request which is not forced has to win.
  compare_new : Fields F → ℕ → ℕ → Rates F → CostDecision F
  compare_new config tokens ttl rates =
      let prediction = as_dict (get "reuse_prediction" config) in
      let future = future_of (get "expected_future_reuses" prediction) in
      let certified = is_true (get "certified_implicit_alternative" config) in
      let hit = granted_hit_rate (nonnegative R (get "estimated_implicit_hit_rate" config)) in
      let alternative = if certified then blended R rates.input rates.read hit else rates.input in
      let saving =
        div (mul (of_nat tokens) (max_f R (zero_f R) (sub alternative rates.read))) (million R) in
      let expected = mul (of_nat (suc future)) saving in
      let margin = margin_of R (nonnegative R (get "safety_margin_ratio" config)) in
      let net = sub expected (mul (overhead tokens ttl rates) (add (of_nat 1) margin)) in
      decide (is_positive R net)
        (if is_positive R net
          then "expected_net_savings_positive"
          else "insufficient_economic_evidence")
        (base (price_schedule config) tokens ttl rates (
          field "expected_future_reuses" (nat future) (
            field "reuse_evidence_source" (source_of R prediction) (
              field "estimated_implicit_hit_rate"
                (if certified then Value.float hit else Value.null)
                (field "expected_total_reads" (nat (suc future)) (
                  field "estimated_savings_before_new_resource_cost" (rounded R expected)
                    (field "estimated_net_savings_after_margin" (rounded R net) end)))))))

  -- The decision on known prices.
  priced_new : Fields F → Bool → ℕ → ℕ → Rates F → CostDecision F
  unfolding compare_new base
  priced_new config forced tokens ttl rates =
      let common = base (price_schedule config) tokens ttl rates in
      if exceeds R (cap_of R config) (overhead tokens ttl rates)
      then decide false "new_resource_budget_exceeded"
          (common (field "hard_cost_cap" (opt_float R (cap_of R config)) end))
      else if forced
      then decide true "caller_forced_explicit_within_policy_budget" (common end)
      else compare_new config tokens ttl rates

  unpriced_new : Bool → Option F → CostDecision F
  unpriced_new forced cap =
      let free = forced && not (is_some cap) in
      decide free
        (if free
          then "explicit_requested_without_economic_estimate"
          else "cost_schedule_unavailable")
        (field "cost_status" (Value.text "unknown") end)

  unfoldable pub measured_new :
      Fields F → Bool → Option ℕ → Option ℕ → Option (Rates F) → CostDecision F
  unfolding priced_new unpriced_new
  measured_new config forced (some tokens) (some ttl) (some rates) =
      priced_new config forced tokens ttl rates
  measured_new config forced (some tokens) (some ttl) none = unpriced_new forced (cap_of R config)
  measured_new config forced _ _ _ = decide false "resource_measurement_invalid" end

  unfoldable pub evaluate_new_resource : Value F → Value F → Fields F → Bool → CostDecision F
  unfolding measured_new
  evaluate_new_resource tokens ttl_seconds config forced =
      measured_new config forced (as_positive tokens) (as_positive ttl_seconds)
        (complete_rates (price_schedule config))
