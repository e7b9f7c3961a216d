-- ===== src/ModelOptions.antt =====
-- app/model_options.py: the check of a value against its rule in a capability contract.

pub mod Payload
pub mod Contract
pub mod Legacy
pub mod Rules
pub mod Resolved
use model_relay.Prelude.{
  String, Bool, true, false, not, ◌||◌, ◌&&◌, Option, none, some, List, [], ◌∷◌, ◌==◌,
  if◌then◌else◌,
}
use model_relay.Prelude.Int.{ℤ}
use model_relay.Python.Value.{Value, Items, nil, cons, Fields, get, is_null}
use model_relay.Python.Runtime.{Runtime, or_else, str, to_float}
use model_relay.Routing.Outcome.{Outcome, found, failed, RouteError, model_option, crash, ◌>>=◌}

-- `a < b`, with `none` for the exception, and `a == b`, of values of any kind.
pub record Comparison (F : Type 0) : Type 0 where
  pub less : Value F → Value F → Option Bool
  pub equals : Value F → Value F → Bool

abbrev pub refuse {ℓ} : {A : Type ℓ} → String → String → Outcome A
refuse code option = failed (model_option code (some option))

module _ {F : Type 0} where
  abbrev as_integer : String → Value F → Outcome (Value F)
  as_integer option (Value.int n) = found (Value.int n)
  as_integer option v = refuse "OPTION_VALUE_INVALID" option

  abbrev as_string : String → Value F → Outcome (Value F)
  as_string option (Value.text s) = found (Value.text s)
  as_string option v = refuse "OPTION_VALUE_INVALID" option

  abbrev as_boolean : String → Value F → Outcome (Value F)
  as_boolean option (Value.bool b) = found (Value.bool b)
  as_boolean option v = refuse "OPTION_VALUE_INVALID" option

  -- `float(x)`
  abbrev float_or_crash : Option F → Outcome (Value F)
  float_or_crash none = failed crash
  float_or_crash (some x) = found (Value.float x)

module _ (R : Runtime) (C : Comparison R.F) where
  open R use {F}

  -- `_number`
  abbrev number : String → Value F → Outcome (Value F)
  number option (Value.int n) = float_or_crash (to_float R (Value.int n))
  number option (Value.float x) = found (Value.float x)
  number option v = refuse "OPTION_VALUE_INVALID" option

  abbrev pub kind_of : String → Fields F → String
  kind_of option rule = str R (
      or_else R (get "type" rule)
        (Value.text (if option == "max_output_tokens" then "integer" else "number")))

  unfoldable pub normalized_as : String → String → Value F → Outcome (Value F)
  unfolding to_float
  normalized_as kind option v =
      if kind == "integer"
      then as_integer option v
      else if kind == "number"
      then number option v
      else if kind == "string"
      then as_string option v
      else if kind == "boolean"
      then as_boolean option v
      else refuse "OPTION_CONTRACT_INVALID" option

  -- `bound is not None and a < b` refuses, with `then_` where it does not.
  abbrev pub unless_less : String → Option Bool → Outcome (Value F) → Outcome (Value F)
  unless_less option none then_ = failed crash
  unless_less option (some true) then_ = refuse "OPTION_VALUE_INVALID" option
  unless_less option (some false) then_ = then_

  unfoldable pub in_items : Value F → Items F → Bool
  in_items v nil = false
  in_items v (cons x xs) = C.equals v x || in_items v xs

  abbrev pub is_excluded : Value F → Value F → Bool
  is_excluded v (Value.list xs) = not (in_items v xs)
  is_excluded v _ = false

  unfoldable pub enumerated : String → Fields F → Value F → Outcome (Value F)
  enumerated option rule v =
      if is_excluded v (get "enum" rule) then refuse "OPTION_VALUE_INVALID" option else found v

  unfoldable pub capped : String → Fields F → Value F → Outcome (Value F)
  unfolding enumerated
  capped option rule v =
      if is_null (get "max" rule)
      then enumerated option rule v
      else unless_less option (C.less (get "max" rule) v) (enumerated option rule v)

  unfoldable pub bounded : String → Fields F → Value F → Outcome (Value F)
  unfolding capped
  bounded option rule v =
      if is_null (get "min" rule)
      then capped option rule v
      else unless_less option (C.less v (get "min" rule)) (capped option rule v)

  -- `_validate_contract_value`
  unfoldable pub validate_contract_value : String → Fields F → Value F → Outcome (Value F)
  unfolding normalized_as bounded
  validate_contract_value option rule v = do
    w ← normalized_as (kind_of option rule) option v
    bounded option rule w
