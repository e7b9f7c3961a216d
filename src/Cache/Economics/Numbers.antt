-- ===== src/Cache/Economics/Numbers.antt =====
-- `_nonnegative`, the tests on integers, and the shape of a price decision.
use model_relay.Prelude.{ℕ, String, Bool, not, ◌||◌, ◌&&◌, Option, none, some, leb, if◌then◌else◌}
use model_relay.Python.Value.{Value, Fields}
use model_relay.Python.Runtime.{Runtime, to_float, zero_f}

-- `allow` and `reason` are in every decision.
pub record CostDecision (F : Type 0) : Type 0 where
  pub allow : Bool
  pub reason : String
  pub details : Fields F

abbrev pub decide : {F : Type 0} → Bool → String → Fields F → CostDecision F
decide allow reason details = record { allow = allow; reason = reason; details = details }

module _ (R : Runtime) where
  open R use {F, is_finite, lt, le}

  -- `amount` unless it is an infinity, a NaN or negative.
  unfoldable pub usable_amount : Option F → Option F
  usable_amount none = none
  usable_amount (some x) = if not (is_finite x) || lt x (zero_f R) then none else some x

  unfoldable pub nonnegative : Value F → Option F
  unfolding usable_amount
  nonnegative (Value.bool _) = none
  nonnegative v = usable_amount (to_float R v)

  -- `x == 0`
  abbrev pub is_zero : F → Bool
  is_zero x = le x (zero_f R) && le (zero_f R) x

  abbrev pub opt_float : Option F → Value F
  opt_float none = Value.null
  opt_float (some x) = Value.float x

-- `type(x) is int and x >= n`, with the number.
abbrev pub at_least : ℕ → Option ℕ → Option ℕ
at_least n none = none
at_least n (some m) = if leb n m then some m else none

-- `type(x) is int and x <= n`, with the number.
abbrev pub at_most : ℕ → Option ℕ → Option ℕ
at_most n none = none
at_most n (some m) = if leb m n then some m else none
