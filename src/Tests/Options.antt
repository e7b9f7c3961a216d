-- ===== src/Tests/Options.antt =====
-- app/model_options.py on one contract, and the supply group that freezes it.
use model_relay.ModelOptions.Legacy.{
  resolve_model_options, first_profile, resolve_legacy, validate_structured_output_capability,
  validated_legacy,
}
use model_relay.Materials.Selector.{text_before}
use model_relay.Cache.Resolver.Admission.{iterate, starts_with}
use model_relay.Wire.Json.{insert_field}
use model_relay.Python.Runtime.{str, or_else, to_float, truthy}
use model_relay.Python.Text.{lower, strip}
use model_relay.Routing.Requirements.{
  sorted_texts, missing_of, names_of, normalized, as_mapping, insert_text,
}
use model_relay.ModelOptions.Payload.{
  merge_legacy_provider_payload, keys_of, kimi_legacy_thinking, merge_alias,
}
use model_relay.Prelude.{
  String, ◌≡◌, refl, Bool, true, false, not, ◌&&◌, Option, none, some, [], ◌∷◌, ◌==◌,
}
use model_relay.Prelude.Int.{ℤ, pos}
use model_relay.Python.Value.{Value, Fields, field, end, nat, get, get_or, has_key, put}
use model_relay.Routing.Outcome.{found}
use model_relay.ModelOptions.{
  Comparison, bounded, capped, enumerated, in_items, normalized_as, validate_contract_value,
}
use model_relay.ModelOptions.Contract.{
  ResolvedModelOptions, supported_of, resolve_with_contract, validated, sorted_fields, compatible,
  defaults_of, effective_level, mapped_level, named_rules, texts_of, with_defaults,
}
use model_relay.ModelOptions.Resolved.{IsResolved, resolve_with_contract-IsResolved}
use model_relay.Routing.SupplyGroup.{
  Session, FirstRequest, materialize_supply_group, with_protocol, check_candidate, first_qualified,
}
use model_relay.Routing.SupplyGroup.Qualified.{IsQualified, materialize_supply_group-IsQualified}
use model_relay.Tests.Fixed.{fixed}

abbrev less : Value ℤ → Value ℤ → Option Bool
less (Value.int a) (Value.int b) = some (fixed.lt a b)
less (Value.float a) (Value.float b) = some (fixed.lt a b)
less (Value.float a) (Value.int b) = some (fixed.lt a (fixed.mul (pos 1000000000000) b))
less (Value.int a) (Value.float b) = some (fixed.lt (fixed.mul (pos 1000000000000) a) b)
less a b = none

abbrev equals : Value ℤ → Value ℤ → Bool
equals (Value.int a) (Value.int b) = not (fixed.lt a b) && not (fixed.lt b a)
equals (Value.text a) (Value.text b) = a == b
equals a b = false

abbrev comparison : Comparison ℤ
comparison = record { less = less; equals = equals }

abbrev rules : Fields ℤ
rules =
    field "temperature" (Value.dict (field "min" (nat 0) (field "max" (nat 2) end)))
      (field "max_output_tokens" (Value.dict (field "type" (Value.text "integer") end)) end)

-- One option is asked for, and one is the provider's default.
abbrev contract : Fields ℤ
contract = field "revision" (Value.text "r1") (
    field "supported_options" (Value.dict rules)
      (field "provider_defaults" (Value.dict (field "max_output_tokens" (nat 1024) end)) end))

abbrev asked : Fields ℤ
asked = field "temperature" (nat 1) end

abbrev resolved : ResolvedModelOptions ℤ
resolved = record {
  requested_options = field "temperature" (Value.float (pos 1000000)) end;
  effective_options =
      field "max_output_tokens" (nat 1024) (field "temperature" (Value.float (pos 1000000)) end);
  requested_think_level = "auto";
  effective_think_level = "auto";
  capability_revision = "r1";
  capability_contract_id = none;
}

resolves : resolve_with_contract fixed comparison "m" asked end none contract ≡ found resolved
unfolding resolve_with_contract supported_of get_or merge_legacy_provider_payload sorted_texts
    missing_of keys_of has_key lower str or_else names_of normalized strip as_mapping validated
    sorted_fields insert_field iterate starts_with text_before compatible defaults_of
    effective_level mapped_level named_rules texts_of with_defaults kimi_legacy_thinking merge_alias
    bounded capped enumerated in_items normalized_as validate_contract_value to_float truthy put
    insert_text materialize_supply_group with_protocol resolve_model_options first_profile
    resolve_legacy validate_structured_output_capability validated_legacy check_candidate
    first_qualified
resolves = refl

resolve_with_contract-IsResolved_example :
    (supported : Fields ℤ) × (supported_of fixed comparison (get "supported_options" contract)
      ≡ found supported)
    × IsResolved fixed comparison supported resolved
resolve_with_contract-IsResolved_example =
    resolve_with_contract-IsResolved fixed comparison "m" asked end none contract {r = resolved}
      resolves

abbrev supply : String → Fields ℤ
supply protocol = field "protocol" (Value.text protocol) (
    field "supply_group_id" (Value.text "g") (
      field "provider" (Value.text "gemini")
        (field "model" (Value.text "m") (field "capability_contract" (Value.dict contract) end))))

abbrev session : Session ℤ
session = record {
  route_pin_state = some (Value.text "pending_first_request_pin");
  route = end;
  candidates = supply "gemini_native" ∷ supply "chat_completions" ∷ [];
  supply_group_id = some "g";
  provider = "gemini";
  model = "m";
  has_materials = false;
  history_mode = none;
}

abbrev first_request : FirstRequest ℤ
first_request = record {
  has_materials = false;
  requested_cache_mode = none;
  has_instructions = true;
  options = asked;
  provider_payload = end;
  think_level = none;
  structured_output = end;
}

abbrev glob : String → String → Bool
glob model pattern = model == pattern

materializes :
    materialize_supply_group fixed comparison glob session first_request
    ≡ found (supply "chat_completions")
unfolding materialize_supply_group with_protocol get_or resolve_model_options resolve_with_contract
    supported_of merge_legacy_provider_payload sorted_texts missing_of keys_of has_key lower str
    or_else names_of normalized strip as_mapping validated sorted_fields insert_field
    validate_contract_value defaults_of with_defaults compatible put text_before
    validate_structured_output_capability
materializes = refl

materialize_supply_group-IsQualified_example :
    IsQualified fixed comparison glob session first_request (supply "chat_completions")
materialize_supply_group-IsQualified_example =
    materialize_supply_group-IsQualified fixed comparison glob session first_request
      {c = supply "chat_completions"} refl materializes
