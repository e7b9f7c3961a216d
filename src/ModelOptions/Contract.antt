-- ===== src/ModelOptions/Contract.antt =====
-- `resolve_model_options` of app/model_options.py for a Session with a capability contract. An
-- error keeps its code and option; the provider, the model and the revision that it repeats are
-- the caller's. The
-- warnings are left out.
use model_relay.Prelude.{
  String, Bool, false, not, ◌||◌, Option, none, some, List, [], ◌∷◌, ◌==◌, contains, if◌then◌else◌,
}
use model_relay.Python.Value.{
  Value, Items, nil, cons, Fields, field, end, get, has_key, put, as_dict,
}
use model_relay.Python.Text.{lower, strip, is_blank}
use model_relay.Python.Runtime.{Runtime, truthy, or_else, str}
use model_relay.Wire.Json.{insert_field}
use model_relay.Routing.Outcome.{Outcome, found, failed, model_option, ◌>>=◌}
use model_relay.Routing.Requirements.{normalized, names_of, as_mapping, sorted_texts, missing_of}
use model_relay.ModelOptions.{Comparison, refuse, validate_contract_value}
use model_relay.ModelOptions.Payload.{
  keys_of, refuse_first, merge_legacy_provider_payload, kimi_legacy_thinking, level_of,
}

pub record ResolvedModelOptions (F : Type 0) : Type 0 where
  pub requested_options : Fields F
  pub effective_options : Fields F
  pub requested_think_level : String
  pub effective_think_level : String
  pub capability_revision : String
  pub capability_contract_id : Option String

module _ {F : Type 0} where
  -- `{key: d[key] for key in sorted(d)}`
  unfoldable pub sorted_fields : Fields F → Fields F
  sorted_fields end = end
  sorted_fields (field k v fs) = insert_field k v (sorted_fields fs)

  abbrev pub rule_of : Fields F → String → Fields F
  rule_of supported k = as_dict (get k supported)

  -- `{str(name): {} for name in names}`
  unfoldable pub named_rules : List String → Fields F
  named_rules [] = end
  named_rules (n ∷ ns) = field n (Value.dict end) (named_rules ns)

module _ (R : Runtime) (C : Comparison R.F) where
  open R use {F}

  -- `[str(x) for x in xs]`
  unfoldable pub texts_of : Items F → List String
  texts_of nil = []
  texts_of (cons x xs) = str R x ∷ texts_of xs

  unfoldable pub supported_of : Value F → Outcome (Fields F)
  supported_of (Value.dict d) = found d
  supported_of (Value.list xs) = found (named_rules (texts_of xs))
  supported_of v =
      if truthy R v then failed (model_option "OPTION_CONTRACT_INVALID" none) else found end

  unfoldable pub defaults_of : Value F → Outcome (Fields F)
  defaults_of (Value.dict d) = found d
  defaults_of v =
      if truthy R v then failed (model_option "OPTION_CONTRACT_INVALID" none) else found end

  -- The values of the requested options, in the order of the fields.
  unfoldable pub validated : Fields F → Fields F → Outcome (Fields F)
  validated supported end = found end
  validated supported (field k v fs) = do
    w ← validate_contract_value R C k (rule_of supported k) v
    rest ← validated supported fs
    found (field k w rest)

  -- The loop over the provider's defaults, with the effective options so far.
  unfoldable pub with_defaults : Fields F → Fields F → Fields F → Outcome (Fields F)
  with_defaults supported effective end = found effective
  with_defaults supported effective (field k v fs) =
      if has_key k effective
      then with_defaults supported effective fs
      else if not (has_key k supported)
      then refuse "OPTION_CONTRACT_INVALID" k
      else do
        w ← validate_contract_value R C k (rule_of supported k) v
        with_defaults supported (put k w effective) fs

  abbrev level_texts : List String → List String
  level_texts [] = []
  level_texts (s ∷ ss) = lower (strip s) ∷ level_texts ss

  -- `isinstance(allowed, list) and level not in {…}`
  abbrev pub is_level_refused : String → Value F → Bool
  is_level_refused level (Value.list xs) = not (contains (level_texts (texts_of xs)) level)
  is_level_refused level v = false

  abbrev pub any_key : Fields F → List String → Bool
  any_key effective [] = false
  any_key effective (s ∷ ss) = has_key s effective || any_key effective ss

  abbrev pub is_conflicting : Fields F → Value F → Bool
  is_conflicting effective (Value.list xs) = any_key effective (texts_of xs)
  is_conflicting effective v = false

  abbrev pub is_incompatible : Fields F → String → Fields F → String → Bool
  is_incompatible supported level effective k =
      is_level_refused level (get "allowed_when_think_levels" (rule_of supported k))
      || is_conflicting effective (get "conflicts_with" (rule_of supported k))

  -- The last loop, over the sorted effective options.
  unfoldable pub compatible : Fields F → String → Fields F → Fields F → Outcome (Unit {0})
  compatible supported level effective end = found tt
  compatible supported level effective (field k v fs) =
      let rest = compatible supported level effective fs in
      if is_incompatible supported level effective k then refuse "OPTION_CONFLICT" k else rest

  -- The last entry whose key is this level.
  unfoldable pub mapped_level : String → String → Fields F → String
  mapped_level level default end = default
  mapped_level level default (field k v fs) =
      mapped_level level (if lower (strip k) == level then lower (strip (str R v)) else default) fs

  -- `thinking.get("accepted_levels") or ["auto"]`
  abbrev accepted_value : Fields F → Value F
  accepted_value thinking =
      or_else R (get "accepted_levels" thinking) (Value.list (cons (Value.text "auto") nil))

  abbrev is_moonshot : Fields F → Bool
  is_moonshot thinking =
      lower (str R (or_else R (get "wire_strategy" thinking) (Value.text ""))) == "moonshot_legacy"

  unfoldable pub effective_level : String → Fields F → String → Outcome String
  effective_level model thinking requested =
      if is_moonshot thinking then kimi_legacy_thinking model requested else do
        accepted ← names_of R (accepted_value thinking)
        if not (contains (normalized accepted) requested)
            then refuse "THINK_LEVEL_UNSUPPORTED" "think_level"
            else do
              levels ← as_mapping R (get "level_map" thinking)
              found (mapped_level requested requested levels)

  -- `supported_options`, whose absence leaves nothing supported.
  unfoldable pub resolve_with_contract :
      String → Fields F → Fields F → Option String → Fields F → Outcome (ResolvedModelOptions F)
  unfolding effective_level
  resolve_with_contract model options payload think contract = do
    supported ← supported_of (get "supported_options" contract)
    requested ← merge_legacy_provider_payload C options payload
    done ←
        refuse_first "OPTION_UNSUPPORTED"
          (sorted_texts (missing_of (keys_of requested) (keys_of supported)))
    level ← effective_level model (as_dict (get "thinking" contract)) (level_of think)
    own ← validated supported (sorted_fields requested)
    defaults ← defaults_of (get "provider_defaults" contract)
    effective ← with_defaults supported own (sorted_fields defaults)
    settled ← compatible supported level effective (sorted_fields effective)
    found (record {
      requested_options = sorted_fields own;
      effective_options = sorted_fields effective;
      requested_think_level = level_of think;
      effective_think_level = level;
      capability_revision =
          str R
            (or_else R (get "revision" contract) (Value.text "relay-model-options/2026-09-27.1"));
      capability_contract_id =
          (let id = str R (or_else R (get "contract_id" contract) (Value.text "")) in
            if is_blank id then none else some id);
    })
