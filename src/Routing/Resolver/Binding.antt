-- ===== src/Routing/Resolver/Binding.antt =====
-- `RouteResolver.resolve`, `_no_eligible_candidate_error` and `handle_legacy_hint` of
-- app/routing/route_resolver.py. An error keeps its code, its connection and its inner reason; the
-- provider, the model and the purpose that it repeats are the caller's. Log lines are left out.
use model_relay.Prelude.{
  String, Bool, false, ◌||◌, Option, none, some, or_default, List, [], ◌∷◌, ◌==◌, ◌⊎◌, inl, inr,
  if◌then◌else◌,
}
use model_relay.Python.Value.{Value, Fields, field, end, get}
use model_relay.Python.Text.{lower, strip, is_blank}
use model_relay.Python.Runtime.{Runtime, or_else, str}
use model_relay.Routing.Outcome.{Outcome, found, failed, RouteError, resolution, crash, ◌>>=◌}
use model_relay.Routing.Catalog.{RouteEntry, RouteCatalog, candidates, has_provider}
use model_relay.Routing.Requirements.{names_of, normalized}
use model_relay.Routing.Resolver.{Site, assess, survey, decide}

pub record RouteBinding (F : Type 0) : Type 0 where
  pub provider : String
  pub model : String
  pub connection_id : String
  pub route_revision : String
  pub route_binding_hash : String
  pub account_scope_hash : String
  pub inference_adapter_version : String
  pub file_adapter_version : Option String
  pub execution_pool : String
  pub purpose : String
  pub capability_revision : String
  pub offering_id : Option String
  pub supply_group_id : Option String
  pub channel_id : Option String
  pub protocol : Option String
  pub capability_contract_id : Option String
  pub capability_contract_hash : Option String
  pub capability_contract : Option (Fields F)
  pub protocol_profile_id : Option String
  pub protocol_profile_hash : Option String
  pub protocol_profile : Option (Fields F)
  pub cache_policy_id : Option String
  pub cache_policy_hash : Option String
  pub cache_policy : Option (Fields F)
  pub cache_contract_hash : Option String
  pub cache_contract : Option (Fields F)
  pub control_plane_hash : Option String
  pub capability_requirements : Fields F
  pub observed_model_policy : String
  pub quota : Fields F

-- What a caller asks for.
pub record RouteIntent (F : Type 0) : Type 0 where
  pub provider : Option String
  pub model : Option String
  pub purpose : Option String
  pub requirements : Fields F
  pub offering_id : Option String

-- `_PROVIDER_ALIASES.get(p, p)`
abbrev provider_alias : String → String
provider_alias p =
    if p == "claude"
    then "anthropic"
    else if p == "google"
    then "gemini"
    else if p == "gpt"
    then "openai"
    else if p == "zhipu"
    then "glm"
    else p

-- `str(x or "").strip()`
abbrev pub stripped : Option String → String
stripped x = strip (or_default "" x)

abbrev pub names_it : String → Option String → Bool
names_it id none = false
names_it id (some o) = o == id

module _ {F : Type 0} where
  abbrev pub provider_of : RouteIntent F → String
  provider_of q = provider_alias (lower (stripped q.provider))

  abbrev pub purpose_of : RouteIntent F → String
  purpose_of q = let p = stripped q.purpose in if is_blank p then "request" else p

  abbrev pub is_offering : String → RouteEntry F → Bool
  is_offering id e = names_it id e.offering_id

  unfoldable pub with_offering : Option String → List (RouteEntry F) → List (RouteEntry F)
  with_offering none es = es
  with_offering (some id) [] = []
  with_offering (some id) (e ∷ es) =
      let rest = with_offering (some id) es in if is_offering id e then e ∷ rest else rest

  -- `dict(x or {}) or None`
  abbrev dict_or_none : Option (Fields F) → Option (Fields F)
  dict_or_none (some (field k v d)) = some (field k v d)
  dict_or_none _ = none

  abbrev dict_or_empty : Option (Fields F) → Fields F
  dict_or_empty d = or_default end d

  abbrev cache_of : Value F → Option (Fields F)
  cache_of (Value.dict d) = some d
  cache_of v = none

  abbrev text_value : Option String → Value F
  text_value none = Value.null
  text_value (some s) = Value.text s

  -- The text of an entry, where it is no empty text.
  abbrev group_field : Option String → Fields F → Fields F
  group_field none rest = rest
  group_field (some s) rest =
      if is_blank s then rest else field "supply_group_id" (Value.text s) rest

  -- The first entry whose policy is neither of the two.
  unfoldable pub invalid_policy : List (RouteEntry F) → Option (RouteEntry F)
  invalid_policy [] = none
  invalid_policy (e ∷ es) =
      let rest = invalid_policy es in
      if e.unavailable_action == "try_next" || e.unavailable_action == "reject_new_session"
      then rest
      else some e

-- `equal` is the equality of two entries, and `hash_json` the digest of a mapping's canonical JSON.
module _ (R : Runtime) (glob : String → String → Bool) (S : Site R.F)
    (equal : RouteEntry R.F → RouteEntry R.F → Bool) (hash_json : Fields R.F → String) where
  open R use {F}

  -- `hash if x else None`
  abbrev hash_of : Option (Fields F) → Option String
  hash_of none = none
  hash_of (some end) = none
  hash_of (some (field k v d)) = some (hash_json (field k v d))

  abbrev revision_of : Option (Fields F) → String
  revision_of contract = str R (
      or_else R (get "revision" (dict_or_empty contract))
        (Value.text "relay-model-options/2026-09-27.1"))

  abbrev version_text : Option (Fields F) → Option String
  version_text none = none
  version_text (some end) = none
  version_text (some (field k v d)) = some (str R (get "adapter_version" (field k v d)))

  abbrev version_value : Option (Fields F) → Value F
  version_value none = Value.null
  version_value (some meta) = get "adapter_version" meta

  -- The mapping whose digest binds a Session to its route.
  unfoldable pub canonical_binding :
      RouteCatalog F → RouteIntent F → RouteEntry F → String → Fields F → Fields F
  canonical_binding catalog q e scope meta =
      let contract = dict_or_none e.capability_contract in
      field "provider" (Value.text (provider_of q)) (
        field "model" (Value.text (stripped q.model)) (
          field "connection_id" (Value.text e.connection_id) (
            field "offering_id" (text_value e.offering_id) (
              group_field e.supply_group_id (
                field "channel_id" (text_value e.channel_id) (
                  field "protocol" (text_value e.protocol) (
                    field "route_revision" (Value.text catalog.revision) (
                      field "control_plane_hash" (text_value catalog.control_plane_hash) (
                        field "account_scope_hash" (Value.text scope) (
                          field "inference_adapter_version" (get "adapter_version" meta) (
                            field "file_adapter_version"
                              (version_value (S.file_adapter e.connection_id))
                              (field "execution_pool" (Value.text S.execution_pool) (
                                field "capability_revision" (Value.text (revision_of contract)) (
                                  field "capability_contract_id"
                                    (text_value e.capability_contract_id)
                                    (field "capability_contract_hash"
                                      (text_value (hash_of contract))
                                      (field "protocol_profile_id"
                                        (text_value e.protocol_profile_id)
                                        (field "protocol_profile_hash"
                                          (text_value (hash_of e.protocol_profile))
                                          (field "cache_policy_id" (text_value e.cache_policy_id) (
                                            field "cache_policy_hash"
                                              (text_value (hash_of e.cache_policy))
                                              (field "cache_contract_hash"
                                                (text_value (
                                                  hash_of (
                                                    cache_of
                                                      (get "cache" (dict_or_empty contract)))))
                                                (field "capability_requirements"
                                                  (Value.dict q.requirements)
                                                  (field "observed_model_policy"
                                                    (Value.text e.observed_model_policy)
                                                    end))))))))))))))))))))))

  unfoldable pub binding_of :
      RouteCatalog F → RouteIntent F → RouteEntry F → String → Fields F → RouteBinding F
  binding_of catalog q e scope meta =
      let contract = dict_or_none e.capability_contract in
      let cache = cache_of (get "cache" (dict_or_empty contract)) in
      record {
        provider = provider_of q;
        model = stripped q.model;
        connection_id = e.connection_id;
        route_revision = catalog.revision;
        route_binding_hash = hash_json (canonical_binding catalog q e scope meta);
        account_scope_hash = scope;
        inference_adapter_version =
            str R (or_else R (get "adapter_version" meta) (Value.text "unknown"));
        file_adapter_version = version_text (S.file_adapter e.connection_id);
        execution_pool = S.execution_pool;
        purpose = purpose_of q;
        capability_revision = revision_of contract;
        offering_id = e.offering_id;
        supply_group_id = e.supply_group_id;
        channel_id = e.channel_id;
        protocol = e.protocol;
        capability_contract_id = e.capability_contract_id;
        capability_contract_hash = hash_of contract;
        capability_contract = contract;
        protocol_profile_id = e.protocol_profile_id;
        protocol_profile_hash = hash_of e.protocol_profile;
        protocol_profile = dict_or_none e.protocol_profile;
        cache_policy_id = e.cache_policy_id;
        cache_policy_hash = hash_of e.cache_policy;
        cache_policy = dict_or_none e.cache_policy;
        cache_contract_hash = hash_of cache;
        cache_contract = cache;
        control_plane_hash = catalog.control_plane_hash;
        capability_requirements = q.requirements;
        observed_model_policy = e.observed_model_policy;
        quota = e.quota;
      }

  -- The account of the selected connection; `describe` answered while it was tested.
  abbrev pub scoped :
      RouteCatalog F
      → RouteIntent F
      → RouteEntry F
      → Fields F
      → String ⊎ String
      → Outcome (RouteBinding F)
  scoped catalog q e meta (inl scope) = found (binding_of catalog q e scope meta)
  scoped catalog q e meta (inr why) =
      failed (resolution "ROUTE_CONNECTION_NOT_CONFIGURED" (some e.connection_id) (some why))

  abbrev pub adapted :
      RouteCatalog F → RouteIntent F → RouteEntry F → Option (Fields F) → Outcome (RouteBinding F)
  adapted catalog q e none = failed crash
  adapted catalog q e (some meta) = scoped catalog q e meta (S.account_scope e.connection_id)

  unfoldable pub bind_route :
      RouteCatalog F → RouteIntent F → RouteEntry F → Outcome (RouteBinding F)
  unfolding binding_of
  bind_route catalog q e = adapted catalog q e (S.adapter e.connection_id)

  abbrev no_candidate : RouteCatalog F → RouteIntent F → RouteError
  no_candidate catalog q =
      if has_provider catalog (provider_of q) S.deployment_id
      then resolution "ROUTE_MODEL_UNSUPPORTED" none none
      else resolution "ROUTE_NOT_FOUND" none none

  -- The candidates, once each has a valid policy.
  abbrev pub select :
      RouteCatalog F
      → RouteIntent F
      → List (RouteEntry F)
      → List String
      → Option (RouteEntry F)
      → Outcome (RouteBinding F)
  select catalog q cs allowlist (some e) =
      failed (resolution "ROUTE_CONFIG_INVALID" (some e.connection_id) none)
  select catalog q cs allowlist none = do
    s ← survey (assess R S allowlist q.requirements (provider_of q)) cs
    e ← decide equal cs s
    bind_route catalog q e

  unfoldable pub resolve_among :
      RouteCatalog F → RouteIntent F → List (RouteEntry F) → Outcome (RouteBinding F)
  unfolding bind_route
  resolve_among catalog q [] = failed (no_candidate catalog q)
  resolve_among catalog q (c ∷ cs) = do
    names ← names_of R (get "channel_allowlist" q.requirements)
    select catalog q (c ∷ cs) (normalized names) (invalid_policy (c ∷ cs))

  unfoldable pub resolve : RouteCatalog F → RouteIntent F → Outcome (RouteBinding F)
  unfolding resolve_among
  resolve catalog q =
      if is_blank (provider_of q) || is_blank (stripped q.model)
      then failed (resolution "ROUTE_INTENT_INVALID" none none)
      else resolve_among catalog q (
          with_offering q.offering_id
            (candidates glob catalog (provider_of q) (stripped q.model) S.deployment_id))

  abbrev refuse_hint : String → RouteBinding F → Outcome (Unit {0})
  refuse_hint hint b =
      if hint == b.connection_id
      then found tt
      else if lower (let m = or_default "" S.legacy_hint_mode in if is_blank m then "warn" else m)
          == "strict"
      then failed (resolution "LEGACY_CONNECTION_HINT_MISMATCH" (some b.connection_id) none)
      else found tt

  unfoldable pub handle_legacy_hint : Option String → RouteBinding F → Outcome (Unit {0})
  handle_legacy_hint none b = found tt
  handle_legacy_hint (some hint) b = if is_blank hint then found tt else refuse_hint hint b
