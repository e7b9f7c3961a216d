-- ===== src/Cache/Economics/CurrentRead.antt =====
-- `evaluate_current_read_resource` of app/cache/economics.py.
use model_relay.Prelude.{
  ℕ, suc, ◌*◌, ◌-◌, String, Bool, true, false, not, ◌&&◌, Option, none, some, is_some,
  if◌then◌else◌,
}
use model_relay.Python.Value.{
  Value, Fields, field, end, get, as_dict, as_positive, as_count, is_true, nat,
}
use model_relay.Python.Runtime.{Runtime, zero_f, max_f, min_f}
use model_relay.Cache.Economics.Numbers.{CostDecision, decide, nonnegative, opt_float, at_most}
use model_relay.Cache.Economics.Prices.{
  price_schedule, future_of, is_labelled, currency_of, revision_of, input_rate, read_rate,
  write_rate, storage_rate, cap_of, million, creation_cost, is_positive, blended, rounded,
  source_of,
}

-- The prices that the comparison needs, and where the creation price comes from.
pub record ReadRates (F : Type 0) : Type 0 where
  pub input : F
  pub read : F
  pub create : F
  pub create_source : String

module _ (R : Runtime) where
  open R use {F, of_nat, ratio, decimal, lt, add, sub, mul, div}

  creation_rates : Option F → Bool → F → F → Option (ReadRates F)
  creation_rates (some create) fee_free input read =
      some
        (record { input = input; read = read; create = create; create_source = "contract_price" })
  creation_rates none fee_free input read =
      if fee_free
      then some (record {
        input = input;
        read = read;
        create = zero_f R;
        create_source = "frozen_contract_confirmed_no_fee";
      })
      else none

  known_rates : Option F → Option F → Option F → Bool → Option (ReadRates F)
  unfolding creation_rates
  known_rates (some input) (some read) create fee_free =
      if lt read input then creation_rates create fee_free input read else none
  known_rates _ _ create fee_free = none

  unfoldable pub read_rates : Fields F → Option (ReadRates F)
  unfolding known_rates
  read_rates config =
      let prices = price_schedule config in
      if is_labelled R prices
      then known_rates (input_rate R prices) (read_rate R prices) (write_rate R prices)
          (is_true (get "no_separate_creation_fee_verified" config))
      else none

  -- `tokens * ttl_seconds / 60 * storage_rate / 1_000_000`, where storage has a price.
  abbrev pub observed_storage : ℕ → ℕ → Option F → Option F
  observed_storage tokens ttl none = none
  observed_storage tokens ttl (some rate) =
      some (div (mul (ratio (tokens * ttl) 60) rate) (million R))

  abbrev opt_rounded : Option F → Value F
  opt_rounded none = Value.null
  opt_rounded (some x) = rounded R x

  read_base : Fields F → ℕ → ℕ → ℕ → ReadRates F → Option F → String → Fields F → Fields F
  read_base prices tokens already ttl rates storage status more =
      field "currency" (Value.text (currency_of R prices)) (
        field "price_revision" (Value.text (revision_of R prices)) (
          field "prefix_token_count" (nat tokens) (
            field "already_cached_tokens" (nat already) (
              field "newly_cacheable_tokens" (nat (tokens - already)) (
                field "ttl_seconds" (nat ttl) (
                  field "estimated_creation_cost" (rounded R (creation_cost R tokens rates.create))
                    (field "creation_fee_source" (Value.text rates.create_source) (
                      field "estimated_storage_cost_observation_only" (opt_rounded storage) (
                        field "optimization_excludes_storage" (Value.bool true)
                          (field "cost_status" (Value.text status) more))))))))))

  -- The hard limit: unknown storage counts against it.
  abbrev pub budget_refusal : Option F → F → Option F → Option String
  budget_refusal none creation storage = none
  budget_refusal (some cap) creation none = some "hard_budget_storage_cost_unverified"
  budget_refusal (some cap) creation (some storage) =
      if lt cap (add creation storage) then some "new_resource_budget_exceeded" else none

  -- `hit_rate is None or hit_rate > 1`
  abbrev pub is_unverified_rate : Option F → Bool
  is_unverified_rate none = true
  is_unverified_rate (some hit) = lt (of_nat 1) hit

  abbrev alternative : Bool → Option F → ReadRates F → F
  alternative certified none rates = rates.input
  alternative certified (some hit) rates =
      if certified then blended R rates.input rates.read hit else rates.input

  abbrev read_margin : Option F → F
  read_margin none = decimal 1 5
  read_margin (some m) = min_f R (of_nat 5) m

  compare_read : Fields F → ℕ → ℕ → ReadRates F → (Fields F → Fields F) → CostDecision F
  compare_read config tokens already rates common =
      let prediction = as_dict (get "reuse_prediction" config) in
      let future = future_of (get "expected_future_reuses" prediction) in
      let certified = is_true (get "certified_implicit_alternative" config) in
      let hit = nonnegative R (get "estimated_implicit_hit_rate" config) in
      let saved =
        div
          (mul (of_nat (tokens - already))
            (max_f R (zero_f R) (sub (alternative certified hit rates) rates.read)))
          (million R) in
      let margin = read_margin (nonnegative R (get "safety_margin_ratio" config)) in
      let creation = mul (creation_cost R tokens rates.create) (add (of_nat 1) margin) in
      let current_net = sub saved creation in
      let total_net = sub (mul saved (of_nat (suc future))) creation in
      decide (is_positive R total_net)
        (if is_positive R current_net
          then "current_read_savings_positive"
          else if is_positive R total_net
          then "future_bonus_makes_net_positive"
          else "current_read_and_future_bonus_insufficient")
        (common (
          field "estimated_implicit_hit_rate" (if certified then opt_float R hit else Value.null) (
            field "expected_future_reuses" (nat future) (
              field "reuse_evidence_source" (source_of R prediction) (
                field "estimated_current_read_savings" (rounded R saved) (
                  field "estimated_current_net_after_margin" (rounded R current_net) (
                    field "estimated_future_savings_bonus" (rounded R (mul saved (of_nat future)))
                      (field "estimated_net_savings_after_margin" (rounded R total_net) end))))))))

  -- The limit is reported where a cost was compared with it.
  abbrev cap_details : Option F → Option F → Fields F
  cap_details cap none = end
  cap_details cap (some _) = field "hard_cost_cap" (opt_float R cap) end

  -- The branches after the limit, in their order.
  unfoldable pub admit_read :
      Fields F → Bool → ℕ → ℕ → ℕ → ReadRates F → Option F → Option String → CostDecision F
  unfolding compare_read read_base
  admit_read config forced tokens already ttl rates storage (some refusal) = decide false refusal (
      read_base (price_schedule config) tokens already ttl rates storage
        "estimated_from_frozen_prices" (cap_details (cap_of R config) storage))
  admit_read config forced tokens already ttl rates storage none =
      let common = read_base (price_schedule config) tokens already ttl rates storage in
      if forced
      then decide true "caller_forced_explicit_within_policy_budget"
          (common "estimated_from_frozen_prices" end)
      else if is_true (get "certified_implicit_alternative" config)
          && is_unverified_rate (nonnegative R (get "estimated_implicit_hit_rate" config))
      then decide false "implicit_hit_rate_unverified"
          (common "implicit_comparison_unavailable" end)
      else compare_read config tokens already rates (common "estimated_from_frozen_prices")

  unfoldable pub measured_read :
      Fields F → Bool → Option ℕ → Option ℕ → Option ℕ → Option (ReadRates F) → CostDecision F
  unfolding admit_read
  measured_read config forced (some tokens) (some ttl) (some already) (some rates) =
      let storage = observed_storage tokens ttl (storage_rate R (price_schedule config)) in
      admit_read config forced tokens already ttl rates storage
        (budget_refusal (cap_of R config) (creation_cost R tokens rates.create) storage)
  measured_read config forced (some tokens) (some ttl) (some already) none =
      let free = forced && not (is_some (cap_of R config)) in
      decide free
        (if free
          then "caller_forced_without_cost_estimate"
          else "current_read_price_or_creation_fee_unverified")
        (field "cost_status" (Value.text "unknown")
          (field "optimization_excludes_storage" (Value.bool true) end))
  measured_read config forced _ _ _ _ = decide false "resource_measurement_invalid" end

  -- `already_cached_tokens > tokens` is refused.
  abbrev pub already_of : Option ℕ → Value F → Option ℕ
  already_of none already = none
  already_of (some tokens) already = at_most tokens (as_count already)

  unfoldable pub evaluate_current_read_resource :
      Value F → Value F → Fields F → Bool → Value F → CostDecision F
  unfolding measured_read
  evaluate_current_read_resource tokens ttl_seconds config forced already_cached_tokens =
      measured_read config forced (as_positive tokens) (as_positive ttl_seconds)
        (already_of (as_positive tokens) already_cached_tokens) (read_rates config)
