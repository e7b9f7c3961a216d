-- ===== src/Tests/Routing.antt =====
-- app/routing on a catalogue of two routes, the first of them switched off.
use model_relay.Cache.Resolver.Admission.{iterate}
use model_relay.Materials.Selector.{text_before, unique}
use model_relay.Python.Runtime.{str, or_else, truthy}
use model_relay.Python.Text.{lower, strip}
use text.Mathlib.TextPositions.{eq_refl}
use model_relay.Prelude.{
  String, ◌≡◌, refl, inl, Bool, true, false, ◌&&◌, Option, none, some, List, [], ◌∷◌, ◌==◌, eq_iff,
  arith,
}
use model_relay.Prelude.Int.{ℤ, pos}
use model_relay.Python.Value.{Value, Fields, field, end, get, get_or}
use model_relay.Routing.Outcome.{Outcome, found, failed, resolution}
use model_relay.Routing.Catalog.{
  RouteEntry, RouteCatalog, route_catalog, candidates, insert_entry, entry_before, has_provider,
  kept_entries, sorted_entries,
}
use model_relay.Routing.Requirements.{
  names_of, normalized, entry_support, as_mapping, capability_of, comma_joined, insert_text,
  missing_of, sorted_texts, structured_support, supports_requirements,
}
use model_relay.Routing.Resolver.{
  Site, Verdict, Survey, assess, survey, decide, is_strict, record_verdict, blocking, index_of,
  fallback_forbidden, assert_adapter_contract, no_eligible_candidate_error,
}
use model_relay.Routing.Resolver.Reference.{first_route, decide-first_route}
use model_relay.Routing.Resolver.Binding.{
  RouteIntent, RouteBinding, resolve, binding_of, with_offering, invalid_policy, bind_route,
  canonical_binding, resolve_among,
}
use model_relay.Routing.Resolver.Served.{IsServed, resolve-IsServed}
use model_relay.Tests.Fixed.{fixed}

abbrev route : String → String → RouteEntry ℤ
route connection action = record {
  provider = "gemini";
  model_pattern = "gemini-pro";
  connection_id = connection;
  priority = pos 100;
  deployment_id = none;
  requires_file_adapter = false;
  offering_id = none;
  supply_group_id = none;
  channel_id = none;
  protocol = some "gemini_native";
  capability_contract_id = none;
  capability_contract = none;
  protocol_profile_id = none;
  protocol_profile = none;
  cache_policy_id = none;
  cache_policy = none;
  observed_model_policy = "audit";
  quota = end;
  source = "legacy";
  unavailable_action = action;
}

abbrev adapter_of : String → Option (Fields ℤ)
adapter_of connection = some (field "provider" (Value.text "gemini") end)

abbrev site : Site ℤ
site = record {
  deployment_id = "local";
  execution_pool = "default";
  legacy_hint_mode = none;
  is_enabled = λ c. c == "second";
  configuration = λ c. (true, none);
  adapter = adapter_of;
  file_adapter = λ c. none;
  account_scope = λ c. inl "scope";
}

-- Two routes of these tests are equal if their connections and their policies are.
abbrev equal : RouteEntry ℤ → RouteEntry ℤ → Bool
equal a b = a.connection_id == b.connection_id && a.unavailable_action == b.unavailable_action

abbrev test : RouteEntry ℤ → Outcome Verdict
test e = assess fixed site [] end "gemini" (route e.connection_id e.unavailable_action)

equal_self : (e : RouteEntry ℤ) → equal e e ≡ true
equal_self e = rw (eq_refl e.connection_id, eq_refl e.unavailable_action) refl

equal-fields :
    (a b : RouteEntry ℤ)
    → equal a b ≡ true
    → (a.connection_id ≡ b.connection_id) × (a.unavailable_action ≡ b.unavailable_action)
equal-fields a b h = (
  (eq_iff a.connection_id b.connection_id).0 (ground (arith, h)),
  (eq_iff a.unavailable_action b.unavailable_action).0 (ground (arith, h)),
)

equal-test : (a b : RouteEntry ℤ) → equal a b ≡ true → test a ≡ test b
equal-test a b h = let k = equal-fields a b h in rw (k.0, k.1) refl

equal-is_strict : (a b : RouteEntry ℤ) → equal a b ≡ true → is_strict a ≡ is_strict b
equal-is_strict a b h = let k = equal-fields a b h in rw k.1 refl

abbrev lenient : List (RouteEntry ℤ)
lenient = route "first" "try_next" ∷ route "second" "try_next" ∷ []

abbrev strict : List (RouteEntry ℤ)
strict = route "first" "reject_new_session" ∷ route "second" "try_next" ∷ []

abbrev off : Survey ℤ
off = record {
  selected = some (route "second" "try_next");
  rejections =
      record {
        entry = route "first" "reject_new_session";
        reason = "connection_disabled";
        detail = some "disabled_by_connection_policy";
      }
      ∷ [];
}

surveys : survey test strict ≡ found off
unfolding survey assess entry_support lower str or_else get_or record_verdict
surveys = refl

forbids :
    decide equal strict off
    ≡ failed (resolution "ROUTE_FALLBACK_FORBIDDEN" (some "first") (some "connection_disabled"))
unfolding decide blocking index_of fallback_forbidden
forbids = refl

decide-first_route_example : decide equal strict off ≡ first_route test [] strict
decide-first_route_example =
    decide-first_route equal test equal_self equal-test equal-is_strict strict {s = off} surveys

abbrev catalog : RouteCatalog ℤ
unfolding route_catalog
catalog = route_catalog "r1" lenient none []

abbrev intent : RouteIntent ℤ
intent = record {
  provider = some "Google";
  model = some "gemini-pro";
  purpose = none;
  requirements = end;
  offering_id = none;
}

abbrev hash_json : Fields ℤ → String
hash_json d = "hash"

abbrev glob : String → String → Bool
glob model pattern = model == pattern

abbrev binding : RouteBinding ℤ
unfolding binding_of
binding =
    binding_of fixed glob site equal hash_json catalog intent (route "second" "try_next") "scope"
      (field "provider" (Value.text "gemini") end)

resolves : resolve fixed glob site equal hash_json catalog intent ≡ found binding
unfolding resolve lower strip with_offering candidates catalog insert_entry entry_before text_before
    names_of truthy get_or invalid_policy survey assess normalized entry_support str iterate unique
    or_else has_provider kept_entries route_catalog sorted_entries as_mapping capability_of
    comma_joined insert_text missing_of sorted_texts structured_support supports_requirements
    bind_route binding_of canonical_binding resolve_among assert_adapter_contract blocking decide
    fallback_forbidden index_of no_eligible_candidate_error record_verdict
resolves = refl

resolve-IsServed_example :
    (allowlist : List String) × (names_of fixed (get "channel_allowlist" intent.requirements)
      ≡ found allowlist)
    × IsServed fixed glob site equal hash_json catalog intent (normalized allowlist) binding
resolve-IsServed_example =
    resolve-IsServed fixed glob site equal hash_json catalog intent {b = binding} resolves
