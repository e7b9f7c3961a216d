-- ===== src/Tests/Prefix.antt =====
-- app/cache/prefix.py on a validated projection, and on a route of another provider.
use model_relay.Python.Runtime.{str, or_else, int_value}
use model_relay.Python.Text.{lower, strip}
use model_relay.Prelude.{String, ◌≡◌, refl, true, some}
use model_relay.Prelude.Int.{ℤ}
use model_relay.Python.Value.{Value, Fields, field, end, nat, get_or}
use model_relay.Cache.Contracts.{ok, raised, cache_decision}
use model_relay.Cache.Prefix.{Settings, prepare_implicit_prefix_binding}
use model_relay.Cache.Prefix.Guard.{IsGuarded, prepare_implicit_prefix_binding-IsGuarded}
use model_relay.Tests.Fixed.{fixed}

abbrev projection : String → Fields ℤ
projection layout = field "layout_version" (Value.text layout) (
    field "implicit_prefix_eligible" (Value.bool true) (
      field "implicit_prefix_fingerprint" (Value.text "f")
        (field "implicit_prefix_payload" (Value.dict end) end)))

abbrev settings : String → String → Settings ℤ
settings provider layout = record {
  plan = end;
  context_plan = field "stable_prefix_fingerprint" (Value.text "p") end;
  session = end;
  provider = Value.text provider;
  snapshot = end;
  provider_physical_plan = Value.dict (projection layout);
  stable_hash = λ v. "0123";
  to_dict = λ v. some end;
}

abbrev gemini : Settings ℤ
gemini = settings " Gemini" "gemini-physical-cache-layout/9"

abbrev bound : Fields ℤ
bound = field "schema_version" (Value.text "relay-gemini-implicit-prefix-binding/1") (
    field "prefix_fingerprint" (Value.text "f") (
      field "prefix_version" (nat 0) (
        field "compatible_prefix_fingerprints" (Value.dict end) (
          field "layout_version" (Value.text "gemini-physical-cache-layout/9") (
            field "projector_version" Value.null (
              field "physical_plan_hash" Value.null (
                field "implicit_prefix_payload_hash" Value.null
                  (field "prompt_cache_key" Value.null (field "retention" Value.null end)))))))))

binds : prepare_implicit_prefix_binding fixed gemini ≡ ok bound
unfolding prepare_implicit_prefix_binding lower strip str or_else get_or int_value
binds = refl

older_layout :
    prepare_implicit_prefix_binding fixed (settings "gemini" "gemini-physical-cache-layout/8")
    ≡ raised (
        cache_decision "GEMINI_IMPLICIT_PREFIX_LAYOUT_UNSUPPORTED"
          (some "physical_layout_unavailable"))
unfolding prepare_implicit_prefix_binding lower strip str or_else get_or
older_layout = refl

prepare_implicit_prefix_binding-IsGuarded_example : IsGuarded fixed gemini bound
prepare_implicit_prefix_binding-IsGuarded_example =
    prepare_implicit_prefix_binding-IsGuarded fixed gemini bound binds
