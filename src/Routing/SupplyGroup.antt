-- ===== src/Routing/SupplyGroup.antt =====
-- `materialize_supply_group` of app/routing/gemini_supply_group.py: the frozen supply that a
-- Session's first request takes.
pub mod Qualified
use model_relay.Prelude.{
  String, Bool, true, false, not, ◌||◌, ◌&&◌, Option, none, some, or_default, List, [], ◌∷◌, ◌++◌,
  ◌==◌, if◌then◌else◌,
}
use model_relay.Python.Value.{Value, Fields, get, is_text, is_null, end}
use model_relay.Python.Runtime.{Runtime, truthy}
use model_relay.Routing.Outcome.{
  Outcome, found, failed, RouteError, resolution, model_option, crash, ◌>>=◌,
}
use model_relay.ModelOptions.{Comparison}
use model_relay.ModelOptions.Contract.{ResolvedModelOptions}
use model_relay.ModelOptions.Legacy.{resolve_model_options, validate_structured_output_capability}

-- The Session: its pinned route, and the candidates of the group that was frozen with it. `none`
-- for the state is a row without that column.
pub record Session (F : Type 0) : Type 0 where
  pub route_pin_state : Option (Value F)
  pub route : Fields F
  pub candidates : List (Fields F)
  pub supply_group_id : Option String
  pub provider : String
  pub model : String
  pub has_materials : Bool
  pub history_mode : Option String

pub record FirstRequest (F : Type 0) : Type 0 where
  pub has_materials : Bool
  pub requested_cache_mode : Option String
  pub has_instructions : Bool
  pub options : Fields F
  pub provider_payload : Fields F
  pub think_level : Option String
  pub structured_output : Fields F

abbrev pub is_option : String → Option String → Bool
is_option s none = false
is_option s (some t) = t == s

module _ {F : Type 0} where
  abbrev is_ephemeral : Session F → Bool
  is_ephemeral s = is_option "ephemeral_turn" s.history_mode

  abbrev pub native_required : Session F → FirstRequest F → Bool
  native_required s q =
      s.has_materials
      || (q.has_materials || (is_option "on" q.requested_cache_mode && not (is_ephemeral s)))

  abbrev pub prefer_chat : Session F → FirstRequest F → Bool
  prefer_chat s q = not (native_required s q) && (is_ephemeral s || q.has_instructions)

  -- `[item for item in candidates if item.get("protocol") == protocol]`
  unfoldable pub with_protocol : String → List (Fields F) → List (Fields F)
  with_protocol protocol [] = []
  with_protocol protocol (c ∷ cs) =
      let rest = with_protocol protocol cs in
      if is_text protocol (get "protocol" c) then c ∷ rest else rest

  abbrev pub ordered : Session F → FirstRequest F → List (Fields F)
  ordered s q =
      if prefer_chat s q
      then with_protocol "chat_completions" s.candidates
        ++ with_protocol "gemini_native" s.candidates
      else with_protocol "gemini_native" s.candidates

  -- `value == x` for a text or `None`.
  abbrev pub is_value : Option String → Value F → Bool
  is_value none v = is_null v
  is_value (some t) v = is_text t v

  abbrev pub belongs : Session F → Fields F → Bool
  belongs s c =
      is_value s.supply_group_id (get "supply_group_id" c)
      && (is_text s.provider (get "provider" c) && is_text s.model (get "model" c))

  -- A candidate that passes is returned, and a refusal of an option goes on.
  abbrev pub settle_candidate : Fields F → Outcome String → Outcome (Fields F) → Outcome (Fields F)
  settle_candidate c (found mode) rest = found c
  settle_candidate c (failed (model_option code option)) rest = rest
  settle_candidate c (failed e) rest = failed e

  abbrev pub is_pinned : Session F → Bool
  is_pinned s = is_text "pinned" (or_default (Value.text "pinned") s.route_pin_state)

module _ (R : Runtime) where
  open R use {F}

  -- A contract that is no mapping ends both checks; an empty value is no contract.
  abbrev pub contract_of : Value F → Outcome (Fields F)
  contract_of (Value.dict d) = found d
  contract_of v = if truthy R v then failed crash else found end

module _ (R : Runtime) (C : Comparison R.F) (glob : String → String → Bool) where
  open R use {F}

  -- The two checks on a candidate.
  unfoldable pub check_candidate : Session F → FirstRequest F → Fields F → Outcome String
  check_candidate s q c = do
    contract ← contract_of R (get "capability_contract" c)
    options ←
        resolve_model_options R C glob (some s.provider) (some s.model) q.options q.provider_payload
          q.think_level contract
    validate_structured_output_capability R q.structured_output contract

  unfoldable pub first_qualified : Session F → FirstRequest F → List (Fields F) → Outcome (Fields F)
  unfolding check_candidate
  first_qualified s q [] = failed (resolution "ROUTE_CAPABILITY_UNAVAILABLE" none none)
  first_qualified s q (c ∷ cs) =
      let rest = first_qualified s q cs in
      if not (belongs s c) then rest else settle_candidate c (check_candidate s q c) rest

  unfoldable pub materialize_supply_group : Session F → FirstRequest F → Outcome (Fields F)
  unfolding first_qualified
  materialize_supply_group s q =
      if is_pinned s then found s.route else first_qualified s q (ordered s q)
