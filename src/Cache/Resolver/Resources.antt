-- ===== src/Cache/Resolver/Resources.antt =====
-- `resource_economics` of app/cache/intent_resolver.py: what a stateful resource is priced with.
use model_relay.Prelude.{String, Bool, true, false, if◌then◌else◌}
use model_relay.Python.Value.{
  Value, Fields, field, end, get, get_or, has_key, as_dict, is_true, is_null, merge, put, nat,
}
use model_relay.Python.Runtime.{Runtime}
use model_relay.Cache.Contracts.{Mode, implicit_prefix, has, Result, ok, raised, ◌>>=◌, value_error}
use model_relay.Cache.Economics.Forecast.{Forecast}
use model_relay.Cache.Economics.Relative.{cache_read_input_ratio, explicit_create_input_ratio}
use model_relay.Cache.Resolver.Admission.{Admission, is_gemini, is_unset}
use model_relay.Cache.Resolver.Request.{
  Request, supply_of, economics_of, resource_hint, forecast_fields,
}

module _ {F : Type 0} where
  -- `d[k]`
  abbrev item : String → Fields F → Result (Value F)
  item k d = if has_key k d then ok (get k d) else raised value_error

  abbrev flag : Bool → Value F
  flag = Value.bool

module _ (R : Runtime) where
  open R use {F, decimal}

  -- The entries of an upgraded Session, with the two that a unified plan always has.
  unfoldable pub upgrade_economics : Request F → Bool → Result (Fields F)
  upgrade_economics q cold = if is_unset R q.cache_upgrade then ok end else do
    uncached ← item "max_uncached_tokens" q.cache_upgrade
    delta ← item "minimum_roll_delta" q.cache_upgrade
    ok (
        field "cold_start_candidate" (flag cold) (
          field "cold_start_implicit_hit_rate" (get "cold_start_implicit_hit_rate" (economics_of q))
            (field "cold_start_max_tokens" (get "cold_start_max_tokens" (economics_of q)) (
              field "use_snapshot_cost" (flag true)
                (field "max_uncached_tokens" uncached (field "minimum_roll_delta" delta end))))))

  roll_alpha : Fields F → Fields F
  roll_alpha upgrade =
      if is_null (get "roll_alpha" upgrade)
      then end
      else field "roll_alpha" (get "roll_alpha" upgrade) end

  -- `growth` is `economics.get("enable_history_growth") is True or bool(upgrade)`.
  base_economics : Request F → Forecast F → Admission → Bool → Fields F
  base_economics q prediction a growth =
      let economics = economics_of q in
      field "price_schedule" (Value.dict (as_dict (get "price_schedule" economics))) (
        field "reuse_prediction" (Value.dict (forecast_fields prediction)) (
          field "expected_future_reuses" (nat prediction.expected_future_reuses) (
            field "max_new_resource_cost" (get "max_new_resource_cost" economics) (
              field "safety_margin_ratio"
                (get_or (Value.float (decimal 1 5)) "safety_margin_ratio" economics)
                (field "cache_read_input_ratio" (Value.float (cache_read_input_ratio R)) (
                  field "explicit_create_input_ratio" (Value.float (explicit_create_input_ratio R))
                    (field "observed_implicit_hit_rate"
                      (get "observed_implicit_hit_rate" q.reuse_evidence)
                      (field "observed_implicit_hit_rate_source"
                        (get "observed_implicit_hit_rate_source" q.reuse_evidence)
                        (field "observed_implicit_samples"
                          (get_or (nat 0) "observed_implicit_samples" q.reuse_evidence)
                          (field "certified_implicit_alternative"
                            (flag (has a.certified implicit_prefix))
                            (field "trial_implicit_alternative"
                              (flag (has a.trials implicit_prefix))
                              (field "enable_history_growth" (flag growth) end))))))))))))

  closing_economics : Request F → Fields F
  closing_economics q =
      field "minimum_additional_tokens"
        (get_or (nat 4096) "minimum_additional_tokens" (economics_of q))
        (field "new_economics_policy"
          (Value.text
            (if is_gemini (supply_of q Mode.auto) then "relative_cache/2" else "legacy_forecast/1"))
          (field "attachment_evidence" (Value.dict q.attachment_evidence)
            (field "existing_resource_candidate" (flag (resource_hint q)) end)))

  unfoldable pub resource_economics : Request F → Forecast F → Admission → Bool → Result (Fields F)
  unfolding roll_alpha base_economics closing_economics
  resource_economics q prediction a cold = do
    upgraded ← upgrade_economics q cold
    ok (
        merge
          (merge
            (merge
              (base_economics q prediction a (
                if is_true (get "enable_history_growth" (economics_of q))
                then true
                else if is_unset R q.cache_upgrade
                then false
                else true))
              (roll_alpha q.cache_upgrade))
            upgraded)
          (closing_economics q))

  -- Where no implicit prefix is eligible it is no alternative either.
  unfoldable pub without_implicit : Bool → Fields F → Fields F
  without_implicit true economics = economics
  without_implicit false economics =
      put "trial_implicit_alternative" (flag false)
        (put "certified_implicit_alternative" (flag false) economics)
