-- ===== src/Cache/Prefix.antt =====
-- app/cache/prefix.py: prepare_implicit_prefix_binding.
pub mod Guard
use Prim.Native.String.{◌++◌, slice}
use model_relay.Prelude.{
  String, Bool, true, false, not, ◌||◌, ◌&&◌, Option, none, some, ◌==◌, if◌then◌else◌,
}
use model_relay.Prelude.Int.{ℤ}
use model_relay.Python.Value.{
  Value, Fields, field, end, get, get_or, as_dict, is_dict, is_text, nat,
}
use model_relay.Python.Runtime.{Runtime, truthy, or_else, str, int_value}
use model_relay.Python.Text.{lower, strip, is_blank}
use model_relay.Cache.Contracts.{Result, ok, raised, ◌>>=◌, cache_decision, value_error}

-- The keyword arguments; `session`, `context_plan` and `snapshot` are mappings, the last one empty
-- where it is None. `stable_hash` is the digest of app/core/idempotency.py, and `to_dict x` is the
-- interpreter's `dict(x)`, with `none` where it raises.
pub record Settings (F : Type 0) : Type 0 where
  pub plan : Fields F
  pub context_plan : Fields F
  pub session : Fields F
  pub provider : Value F
  pub snapshot : Fields F
  pub provider_physical_plan : Value F
  pub stable_hash : Value F → String
  pub to_dict : Value F → Option (Fields F)

module _ (R : Runtime) (s : Settings R.F) where
  open R use {F}

  abbrev pub or_value_error : {A : Type 0} → Option A → Result A
  or_value_error none = raised value_error
  or_value_error (some a) = ok a

  -- `str(x or "")`
  abbrev pub word : Value F → String
  word v = str R (or_else R v (Value.text ""))

  abbrev pub mechanism_config : Fields F
  mechanism_config = as_dict (get "mechanism_config" s.plan)

  abbrev pub is_native_gemini : Bool
  is_native_gemini =
      (lower (strip (word s.provider)) == "gemini")
      && is_text "gemini_native" (get_or (Value.text "gemini_native") "protocol" s.snapshot)

  abbrev pub physical : Fields F
  physical = as_dict s.provider_physical_plan

  -- The test that the physical projection was validated, negated.
  abbrev pub is_unsupported : Bool
  is_unsupported =
      not (word (get "layout_version" physical) == "gemini-physical-cache-layout/9")
      || (not (truthy R (get "implicit_prefix_eligible" physical))
          || (is_blank (word (get "implicit_prefix_fingerprint" physical))
              || not (is_dict (get "implicit_prefix_payload" physical))))

  abbrev pub prefix_version : Result ℤ
  prefix_version = or_value_error (
      int_value R (
        or_else R (get "safe_history_prefix_version" (as_dict (get "dependencies" physical)))
          (nat 0)))

  abbrev pub compatible_fingerprints : Result (Fields F)
  compatible_fingerprints = or_value_error (
      s.to_dict
        (or_else R (get "implicit_prefix_compatible_fingerprints" physical) (Value.dict end)))

  abbrev pub projected_binding : ℤ → Fields F → Fields F
  projected_binding version fingerprints =
      field "schema_version" (Value.text "relay-gemini-implicit-prefix-binding/1") (
        field "prefix_fingerprint" (Value.text (str R (get "implicit_prefix_fingerprint" physical)))
          (field "prefix_version" (Value.int version) (
            field "compatible_prefix_fingerprints" (Value.dict fingerprints) (
              field "layout_version" (get "layout_version" physical) (
                field "projector_version" (get "projector_version" physical) (
                  field "physical_plan_hash" (get "physical_plan_hash" physical) (
                    field "implicit_prefix_payload_hash"
                      (get "implicit_prefix_payload_hash" physical)
                      (field "prompt_cache_key" Value.null
                        (field "retention" (get "retention" mechanism_config) end)))))))))

  unfoldable pub gemini_binding : Result (Fields F)
  gemini_binding = do
    version ← prefix_version
    fingerprints ← compatible_fingerprints
    ok (projected_binding version fingerprints)

  -- `x or None` of a text
  abbrev pub text_or_null : String → Value F
  text_or_null t = if is_blank t then Value.null else Value.text t

  abbrev pub derived_key : String
  derived_key =
      "relay-cache-"
      ++ slice
          (s.stable_hash (
            Value.dict (
              field "session_id" (Value.text (word (get "id" s.session)))
                (field "prefix" (get "stable_prefix_fingerprint" s.context_plan) end))))
          0 40

  abbrev pub is_legacy_key : Bool
  is_legacy_key =
      str R (or_else R (get "key_source" mechanism_config) (Value.text "derived"))
      == "legacy_session_prompt_cache_key"

  abbrev pub is_sent : Bool
  is_sent = truthy R (get_or (Value.bool false) "send_prompt_cache_key" mechanism_config)

  unfoldable pub hint : Value F
  hint =
      if is_legacy_key
      then text_or_null (word (get "prompt_cache_key" s.session))
      else if is_sent
      then Value.text derived_key
      else Value.null

  unfoldable pub prepare_implicit_prefix_binding : Result (Fields F)
  unfolding gemini_binding hint
  prepare_implicit_prefix_binding =
      if is_native_gemini
      then if is_unsupported
        then raised (
            cache_decision "GEMINI_IMPLICIT_PREFIX_LAYOUT_UNSUPPORTED"
              (some "physical_layout_unavailable"))
        else gemini_binding
      else ok (
          field "prefix_fingerprint" (get "stable_prefix_fingerprint" s.context_plan) (
            field "prompt_cache_key" hint
              (field "retention" (get "retention" mechanism_config) end)))
