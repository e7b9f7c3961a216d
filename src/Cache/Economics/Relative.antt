-- ===== src/Cache/Economics/Relative.antt =====
-- `evaluate_relative_cache_strategy` of app/cache/economics.py.
use model_relay.Prelude.{
  ℕ, suc, ◌-◌, Bool, true, false, not, ◌&&◌, Option, none, some, if◌then◌else◌,
}
use model_relay.Prelude.Int.{ℤ, max_zero}
use model_relay.Python.Value.{
  Value, Fields, field, end, get, get_or, merge, as_positive, is_true, nat,
}
use model_relay.Python.Runtime.{Runtime, zero_f, max_f, min_f, or_else, str, int_value}
use model_relay.Cache.Contracts.{Result, ok, raised, value_error}
use model_relay.Cache.Economics.Numbers.{CostDecision, decide, nonnegative}
use model_relay.Cache.Economics.Prices.{
  price_schedule, future_of, is_labelled, currency_of, revision_of, input_rate, storage_rate,
  cap_of, million, storage_cost, is_positive, rounded,
}
use model_relay.Cache.Economics.CurrentRead.{already_of, is_unverified_rate}
use model_relay.Cache.Economics.Snapshot.{implicit_available}

module _ (R : Runtime) where
  open R use {F, of_nat, decimal, lt, le, add, sub, mul, div, round}

  -- `CACHE_READ_INPUT_RATIO` and `EXPLICIT_CREATE_INPUT_RATIO`
  abbrev pub cache_read_input_ratio : F
  cache_read_input_ratio = decimal 1 10

  abbrev pub explicit_create_input_ratio : F
  explicit_create_input_ratio = decimal 1 1

  -- `math.isclose(x, y, rel_tol=0, abs_tol=1e-12)`
  abbrev pub is_close : F → F → Bool
  is_close x y =
      let tolerance = decimal 1 1_000_000_000_000 in
      le (sub x y) tolerance && le (sub y x) tolerance

  abbrev is_ratio : F → Option F → Bool
  is_ratio ratio none = false
  is_ratio ratio (some x) = is_close x ratio

  -- The margin, where the policy repeats the approved ratios.
  unfoldable pub approved_margin : Fields F → Option F
  approved_margin config =
      if is_ratio cache_read_input_ratio (
          nonnegative R
            (get_or (Value.float cache_read_input_ratio) "cache_read_input_ratio" config))
        && is_ratio explicit_create_input_ratio (
            nonnegative R (
              get_or (Value.float explicit_create_input_ratio) "explicit_create_input_ratio"
                config))
      then nonnegative R (get_or (Value.float (decimal 1 5)) "safety_margin_ratio" config)
      else none

  abbrev pub observed_hit_rate : Fields F → Option F
  observed_hit_rate config = nonnegative R (get "observed_implicit_hit_rate" config)

  -- The rate that the comparison uses: 0 where none is verified.
  abbrev usable_rate : Option F → F
  usable_rate none = zero_f R
  usable_rate (some hit) = if lt (of_nat 1) hit then zero_f R else hit

  hit_source : Fields F → Option F → Value F
  hit_source config hit =
      if is_unverified_rate R hit
      then Value.text "uncached_input_baseline"
      else Value.text (
          str R (
            or_else R (get "observed_implicit_hit_rate_source" config)
              (Value.text "same_session_provider_usage")))

  -- The comparison's numbers.
  record Comparison : Type 0 where
    implicit_rate : F
    future : ℕ
    creation : F
    expected : F
    net : F
    margin : F

  compare_relative : Fields F → ℕ → ℕ → F → Comparison
  compare_relative config tokens already margin =
      let hit = usable_rate (observed_hit_rate config) in
      let rate =
        if implicit_available R config
        then sub (of_nat 1) (mul hit (sub (of_nat 1) cache_read_input_ratio))
        else of_nat 1 in
      let future = future_of (get_or (nat 0) "expected_future_reuses" config) in
      let saving =
        mul (of_nat (tokens - already)) (max_f R (zero_f R) (sub rate cache_read_input_ratio)) in
      let expected = mul saving (of_nat (suc future)) in
      let creation = mul (of_nat tokens) explicit_create_input_ratio in
      let capped = min_f R margin (of_nat 5) in
      record {
        implicit_rate = rate;
        future = future;
        creation = creation;
        expected = expected;
        net = sub expected (mul creation (add (of_nat 1) capped));
        margin = capped;
      }

  in_millions : F → Value F
  in_millions x = Value.float (round (div x (million R)) 10)

  relative_base : Fields F → ℕ → ℕ → ℕ → Comparison → Fields F
  unfolding in_millions hit_source
  relative_base config tokens already ttl c =
      let available = implicit_available R config in
      field "pricing_model" (Value.text "input_equivalent/1") (
        field "cache_read_input_ratio" (Value.float cache_read_input_ratio) (
          field "explicit_create_input_ratio" (Value.float explicit_create_input_ratio) (
            field "prefix_token_count" (nat tokens) (
              field "already_cached_tokens" (nat already) (
                field "newly_cacheable_tokens" (nat (tokens - already)) (
                  field "ttl_seconds" (nat ttl) (
                    field "optimization_excludes_storage" (Value.bool true)
                      (merge (grants config) (outcome available)))))))))
    where
      grants : Fields F → Fields F
      grants d =
          field "certified_implicit_alternative"
            (Value.bool (is_true (get "certified_implicit_alternative" d)))
            (field "trial_implicit_alternative"
              (Value.bool (is_true (get "trial_implicit_alternative" d))) end)

      outcome : Bool → Fields F
      outcome available =
          field "observed_implicit_hit_rate"
            (if available then Value.float (usable_rate (observed_hit_rate config)) else Value.null)
            (field "observed_implicit_hit_rate_source"
              (if available
                then hit_source config (observed_hit_rate config)
                else Value.text "not_applicable")
              (field "implicit_expected_input_rate" (Value.float (round c.implicit_rate 8)) (
                field "expected_future_reuses" (nat c.future) (
                  field "expected_total_reads" (nat (suc c.future)) (
                    field "estimated_creation_cost_input_equivalents" (in_millions c.creation) (
                      field "estimated_savings_before_creation_cost_input_equivalents"
                        (in_millions c.expected)
                        (field "estimated_net_savings_input_equivalents" (in_millions c.net)
                          (field "safety_margin_ratio" (Value.float c.margin) end))))))))

  -- `tokens * input_rate * create_ratio / 1_000_000`
  abbrev pub creation_money : ℕ → F → F
  creation_money tokens input =
      div (mul (mul (of_nat tokens) input) explicit_create_input_ratio) (million R)

  -- The two prices that the hard limit needs.
  abbrev both_prices : Option F → Option F → Option (F × F)
  both_prices (some input) (some storage) = some (input, storage)
  both_prices _ _ = none

  unfoldable pub budget_prices : Fields F → Option (F × F)
  budget_prices prices =
      if is_labelled R prices
      then both_prices (input_rate R prices) (storage_rate R prices)
      else none

  spent : Fields F → ℕ → ℕ → F → F → F → Fields F
  spent prices tokens ttl cap input storage = field "currency" (Value.text (currency_of R prices)) (
      field "price_revision" (Value.text (revision_of R prices)) (
        field "estimated_creation_cost" (rounded R (creation_money tokens input)) (
          field "estimated_storage_cost_observation_only"
            (rounded R (storage_cost R tokens ttl storage))
            (field "hard_cost_cap" (Value.float cap) end))))

  -- The last branches, with what the limit added to the details.
  conclude : Bool → F → Fields F → CostDecision F
  conclude forced net details =
      if forced
      then decide true "caller_forced_explicit_within_policy_budget" details
      else decide (is_positive R net)
          (if is_positive R net
            then "explicit_expected_cost_lower_than_implicit"
            else "explicit_not_economical_vs_implicit")
          details

  -- The limit, where there is one to enforce.
  unfoldable pub limited :
      Fields F → Bool → ℕ → ℕ → F → Fields F → Option F → Option (F × F) → CostDecision F
  unfolding conclude spent
  limited config forced tokens ttl net details none prices = conclude forced net details
  limited config forced tokens ttl net details (some cap) none =
      decide false "hard_budget_price_or_storage_evidence_unverified" (
        merge details (
          field "cost_status" (Value.text "unknown") (field "hard_cost_cap" (Value.float cap) end)))
  limited config forced tokens ttl net details (some cap) (some (input, storage)) =
      let paid = merge details (spent (price_schedule config) tokens ttl cap input storage) in
      if lt cap (add (creation_money tokens input) (storage_cost R tokens ttl storage))
      then decide false "new_resource_budget_exceeded" paid
      else conclude forced net paid

  unverified : Fields F → ℕ → Option ℤ → Result (CostDecision F)
  unverified config ttl none = raised value_error
  unverified config ttl (some future) = ok (
      decide false "implicit_hit_rate_unverified" (
        field "pricing_model" (Value.text "input_equivalent/1") (
          field "cache_read_input_ratio" (Value.float cache_read_input_ratio) (
            field "explicit_create_input_ratio" (Value.float explicit_create_input_ratio) (
              field "ttl_seconds" (nat ttl) (
                field "expected_future_reuses" (nat (max_zero future)) (
                  field "certified_implicit_alternative"
                    (Value.bool (is_true (get "certified_implicit_alternative" config)))
                    (field "trial_implicit_alternative"
                      (Value.bool (is_true (get "trial_implicit_alternative" config)))
                      (field "observed_implicit_hit_rate" Value.null (
                        field "observed_implicit_hit_rate_source"
                          (Value.text "no_verified_same_session_implicit_usage") end))))))))))

  -- `hard_cap is not None and enforce_hard_budget`
  abbrev pub enforced : Bool → Option F → Option F
  enforced enforce cap = if enforce then cap else none

  -- The comparison and the limit, past the tests on the evidence.
  unfoldable pub compared : Fields F → Bool → Bool → ℕ → ℕ → ℕ → F → CostDecision F
  unfolding compare_relative relative_base
  compared config forced enforce tokens ttl already margin =
      let c = compare_relative config tokens already margin in
      limited config forced tokens ttl c.net (relative_base config tokens already ttl c)
        (enforced enforce (cap_of R config)) (budget_prices (price_schedule config))

  unfoldable pub measured_relative :
      Fields F → Bool → Bool → Option ℕ → Option ℕ → Option ℕ → Option F → Result (CostDecision F)
  unfolding unverified
  measured_relative config forced enforce (some tokens) (some ttl) (some already) (some margin) =
      if implicit_available R config
        && (is_unverified_rate R (observed_hit_rate config) && not forced)
      then unverified config ttl
          (int_value R (or_else R (get "expected_future_reuses" config) (nat 0)))
      else ok (compared config forced enforce tokens ttl already margin)
  measured_relative config forced enforce (some tokens) (some ttl) (some already) none =
      ok (decide false "relative_price_policy_invalid" end)
  measured_relative config forced enforce _ _ _ margin =
      ok (decide false "resource_measurement_invalid" end)

  unfoldable pub evaluate_relative_cache_strategy :
      Value F → Value F → Fields F → Bool → Value F → Bool → Result (CostDecision F)
  unfolding measured_relative compared limited
  evaluate_relative_cache_strategy tokens ttl_seconds config forced already_cached_tokens enforce =
      measured_relative config forced enforce (as_positive tokens) (as_positive ttl_seconds)
        (already_of R (as_positive tokens) already_cached_tokens) (approved_margin config)
