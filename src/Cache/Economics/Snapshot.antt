-- ===== src/Cache/Economics/Snapshot.antt =====
-- `evaluate_v65_snapshot_cost` of app/cache/economics.py.
use model_relay.Prelude.{
  ℕ, suc, ◌*◌, ◌-◌, Bool, true, false, not, ◌||◌, ◌&&◌, Option, none, some, is_some, or_default,
  ltb, leb, if◌then◌else◌,
}
use model_relay.Prelude.Int
use model_relay.Prelude.Int.{ℤ, pos}
use model_relay.Python.Value.{Value, Fields, field, end, get, get_or, is_true, nat}
use model_relay.Python.Runtime.{Runtime, zero_f, min_f, truthy}
use model_relay.Cache.Economics.Numbers.{CostDecision, decide, nonnegative}
use model_relay.Cache.Economics.Prices.{
  Rates, price_schedule, future_of, input_rate, read_rate, write_rate, storage_rate, cap_of,
  million, creation_cost, storage_cost, exceeds, is_positive,
}
use model_relay.Cache.Economics.CurrentRead.{is_unverified_rate}

module _ (R : Runtime) where
  open R use {F, of_nat, lt, le, add, sub, mul, div}

  -- Here reads need not be cheaper than input.
  snapshot_prices : Option F → Option F → Option F → Option F → Option (Rates F)
  snapshot_prices (some input) (some read) (some write) (some storage) =
      some (record { input = input; read = read; write = write; storage = storage })
  snapshot_prices _ _ _ _ = none

  unfoldable pub snapshot_rates : Fields F → Option (Rates F)
  unfolding snapshot_prices
  snapshot_rates prices =
      if truthy R (get "currency" prices) && truthy R (get "price_revision" prices)
      then snapshot_prices (input_rate R prices) (read_rate R prices) (write_rate R prices)
          (storage_rate R prices)
      else none

  -- `observed_implicit_hit_rate`, or the forecast of a cold start.
  abbrev cold_rate : Fields F → Option F → Option F
  cold_rate config (some hit) = some hit
  cold_rate config none =
      if truthy R (get "cold_start_forecast" config)
      then nonnegative R (get "cold_start_implicit_hit_rate" config)
      else none

  abbrev pub snapshot_hit_rate : Fields F → Option F
  snapshot_hit_rate config =
      cold_rate config (nonnegative R (get "observed_implicit_hit_rate" config))

  abbrev pub implicit_available : Fields F → Bool
  implicit_available config =
      is_true (get "certified_implicit_alternative" config)
      || is_true (get "trial_implicit_alternative" config)

  abbrev is_some_zero : ℕ → Bool
  is_some_zero n = leb n 0

  -- `min(hit_rate or 0.0, 1.0)`
  abbrev capped_rate : Option F → F
  capped_rate hit = min_f R (or_default (zero_f R) hit) (of_nat 1)

  abbrev within : Option F → F → Bool
  within none cost = true
  within (some cap) cost = le cost cap

  -- What the new snapshot costs to write and to keep.
  abbrev pub snapshot_cost : ℕ → ℕ → Rates F → F
  snapshot_cost tokens ttl rates =
      add (creation_cost R tokens rates.write) (storage_cost R tokens ttl rates.storage)

  unfoldable pub compare_snapshot : Fields F → Bool → ℕ → ℕ → ℕ → Rates F → CostDecision F
  compare_snapshot config forced tokens already ttl rates =
      let prices = price_schedule config in
      let effective =
        if ltb 0 already || not (implicit_available config)
        then rates.input
        else sub rates.input
            (mul (sub rates.input rates.read) (capped_rate (snapshot_hit_rate config))) in
      let reads = suc (future_of (get_or (nat 0) "expected_future_reuses" config)) in
      let cost = snapshot_cost tokens ttl rates in
      let margin =
        min_f R (or_default (zero_f R) (nonnegative R (get "safety_margin_ratio" config)))
          (of_nat 5) in
      let gain =
        div (mul (of_nat (reads * (tokens - already))) (sub effective rates.read)) (million R) in
      let net = sub gain (mul cost (add (of_nat 1) margin)) in
      let allowed = (forced || is_positive R net) && within (cap_of R config) cost in
      decide allowed
        (if exceeds R (cap_of R config) cost
          then "new_resource_budget_exceeded"
          else if allowed
          then "positive_snapshot_net_savings"
          else "explicit_not_economical_vs_implicit")
        (field "currency" (get "currency" prices) (
          field "price_revision" (get "price_revision" prices) (
            field "expected_total_reads" (nat reads) (
              field "prefix_token_count" (nat tokens) (
                field "estimated_creation_cost" (Value.float (creation_cost R tokens rates.write)) (
                  field "estimated_storage_cost"
                    (Value.float (storage_cost R tokens ttl rates.storage))
                    (field "estimated_net_savings" (Value.float net) end)))))))

  -- `0 <= already < tokens` and `ttl_seconds > 0`, with the numbers.
  unfoldable pub screened_snapshot :
      Fields F → Bool → Rates F → Option ℕ → Option ℕ → Option ℕ → CostDecision F
  unfolding compare_snapshot
  screened_snapshot config forced rates (some tokens) (some already) (some ttl) =
      if not (ltb already tokens && ltb 0 ttl)
      then decide false "resource_measurement_invalid" end
      else if (is_some_zero already && implicit_available config)
          && (not forced && is_unverified_rate R (snapshot_hit_rate config))
      then decide false "implicit_hit_rate_unverified" end
      else compare_snapshot config forced tokens already ttl rates
  screened_snapshot config forced rates _ _ _ = decide false "resource_measurement_invalid" end

  unfoldable pub priced_snapshot : Fields F → Bool → ℤ → ℤ → ℤ → Option (Rates F) → CostDecision F
  unfolding screened_snapshot
  priced_snapshot config forced tokens already ttl (some rates) =
      screened_snapshot config forced rates (Int.nonnegative tokens) (Int.nonnegative already)
        (Int.nonnegative ttl)
  priced_snapshot config forced tokens already ttl none =
      decide (forced && not (is_some (cap_of R config)))
        "current_read_price_or_creation_fee_unverified" end

  unfoldable pub evaluate_v65_snapshot_cost : ℤ → ℤ → Fields F → Bool → ℤ → CostDecision F
  unfolding priced_snapshot
  evaluate_v65_snapshot_cost tokens ttl_seconds config forced already_cached_tokens =
      priced_snapshot config forced tokens already_cached_tokens ttl_seconds
        (snapshot_rates (price_schedule config))
