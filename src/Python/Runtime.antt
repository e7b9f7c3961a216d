-- ===== src/Python/Runtime.antt =====
-- What the interpreter supplies: IEEE floats and the printing of values. The program's numbers are
-- read and compared through these operations alone.
use model_relay.Prelude.{
  ℕ, zero, String, Bool, true, false, not, ◌||◌, Option, none, some, if◌then◌else◌,
}
use model_relay.Prelude.Int.{ℤ, pos}
use model_relay.Python.Value.{Value, Items, Fields}
use model_relay.Python.Text.{is_blank}

-- `of_int` and `of_text` are `float(x)`, with `none` for the exception; `of_nat` is the conversion
-- of an operand of a mixed operation, `ratio m n` is `m / n` of two integers, which is rounded once,
-- and `decimal m n` is the literal m / n. An operand beyond the range of floats, for which the
-- interpreter raises an `OverflowError`, is outside the model.
pub record Runtime : Type 1 where
  pub F : Type 0
  pub of_int : ℤ → Option F
  pub of_text : String → Option F
  pub of_nat : ℕ → F
  pub ratio : ℕ → ℕ → F
  pub decimal : ℕ → ℕ → F
  pub is_finite : F → Bool
  pub lt : F → F → Bool
  pub le : F → F → Bool
  pub add : F → F → F
  pub sub : F → F → F
  pub mul : F → F → F
  pub div : F → F → F
  pub round : F → ℕ → F
  pub trunc : F → Option ℤ  -- `int(x)`, `none` on an infinity or a NaN
  pub int_of_text : String → Option ℤ  -- `int(s)`
  pub repr : Value F → String  -- `str(x)` of what is no text

module _ (R : Runtime) where
  open R use {F, of_int, of_text, of_nat, is_finite, lt, le, trunc, int_of_text, repr}

  abbrev pub zero_f : F
  zero_f = of_nat 0

  -- `bool(x)`
  unfoldable pub truthy : Value F → Bool
  truthy Value.null = false
  truthy (Value.bool b) = b
  truthy (Value.int (pos zero)) = false
  truthy (Value.int _) = true
  truthy (Value.float x) = lt x zero_f || (lt zero_f x || not (le x x))
  truthy (Value.text s) = not (is_blank s)
  truthy (Value.list Items.nil) = false
  truthy (Value.list (Items.cons _ _)) = true
  truthy (Value.dict Fields.end) = false
  truthy (Value.dict (Fields.field _ _ _)) = true

  -- `x or d`
  unfoldable pub or_else : Value F → Value F → Value F
  unfolding truthy
  or_else x d = if truthy x then x else d

  -- `str(x)`
  unfoldable pub str : Value F → String
  str (Value.text s) = s
  str v = repr v

  -- `int(x)`, with `none` for the exception.
  unfoldable pub int_value : Value F → Option ℤ
  int_value (Value.bool true) = some (pos 1)
  int_value (Value.bool false) = some (pos 0)
  int_value (Value.int n) = some n
  int_value (Value.float x) = trunc x
  int_value (Value.text s) = int_of_text s
  int_value _ = none

  -- `float(x)`, with `none` for the exception.
  unfoldable pub to_float : Value F → Option F
  to_float (Value.bool true) = some (of_nat 1)
  to_float (Value.bool false) = some (of_nat 0)
  to_float (Value.int n) = of_int n
  to_float (Value.float x) = some x
  to_float (Value.text s) = of_text s
  to_float _ = none

  -- `max(a, b)` and `min(a, b)` keep the first of two equal arguments.
  unfoldable pub max_f : F → F → F
  max_f a b = if lt a b then b else a

  unfoldable pub min_f : F → F → F
  min_f a b = if lt b a then b else a
