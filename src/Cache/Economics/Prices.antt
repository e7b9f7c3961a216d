-- ===== src/Cache/Economics/Prices.antt =====
-- The price schedule of a frozen policy, and the sums that app/cache/economics.py takes of it.
use model_relay.Prelude.{ℕ, String, Bool, false, not, ◌&&◌, Option, none, some, or_default, min}
use model_relay.Python.Value.{Value, Fields, get, as_dict, as_count}
use model_relay.Python.Text.{strip, upper, is_blank}
use model_relay.Python.Runtime.{Runtime, zero_f, or_else, str, min_f}
use model_relay.Cache.Economics.Numbers.{nonnegative}

-- Prices for a million tokens, the last for a minute of storage.
pub record Rates (F : Type 0) : Type 0 where
  pub input : F
  pub read : F
  pub write : F
  pub storage : F

abbrev pub price_schedule : {F : Type 0} → Fields F → Fields F
price_schedule config = as_dict (get "price_schedule" config)

-- `min(prediction.get("expected_future_reuses"), 10000)`, and 0 for what is no count.
abbrev pub future_of : {F : Type 0} → Value F → ℕ
future_of v = min (or_default 0 (as_count v)) 10000

module _ (R : Runtime) where
  open R use {F, of_nat, ratio, decimal, lt, add, sub, mul, div, round}

  unfoldable pub revision_of : Fields F → String
  revision_of prices = strip (str R (or_else R (get "price_revision" prices) (Value.text "")))

  unfoldable pub currency_of : Fields F → String
  currency_of prices = upper (strip (str R (or_else R (get "currency" prices) (Value.text ""))))

  -- `bool(currency and revision)`
  unfoldable pub is_labelled : Fields F → Bool
  is_labelled prices = not (is_blank (currency_of prices)) && not (is_blank (revision_of prices))

  abbrev pub input_rate : Fields F → Option F
  input_rate prices = nonnegative R (get "input_cost_per_million_tokens" prices)

  abbrev pub read_rate : Fields F → Option F
  read_rate prices = nonnegative R (get "cache_read_cost_per_million_tokens" prices)

  abbrev pub write_rate : Fields F → Option F
  write_rate prices = nonnegative R (get "cache_write_cost_per_million_tokens" prices)

  abbrev pub storage_rate : Fields F → Option F
  storage_rate prices = nonnegative R (get "storage_cost_per_million_tokens_minute" prices)

  -- `max_new_resource_cost`
  abbrev pub cap_of : Fields F → Option F
  cap_of config = nonnegative R (get "max_new_resource_cost" config)

  abbrev pub million : F
  million = of_nat 1_000_000

  abbrev pub creation_cost : ℕ → F → F
  creation_cost tokens rate = div (mul (of_nat tokens) rate) million

  -- `tokens * (ttl_seconds / 60) * storage_rate / 1_000_000`
  abbrev pub storage_cost : ℕ → ℕ → F → F
  storage_cost tokens ttl rate = div (mul (mul (of_nat tokens) (ratio ttl 60)) rate) million

  -- `cost > cap`, where there is a cap.
  abbrev pub exceeds : Option F → F → Bool
  exceeds none cost = false
  exceeds (some cap) cost = lt cap cost

  -- `min(margin, 5.0)`, a fifth where the policy has none.
  abbrev pub margin_of : Option F → F
  margin_of margin = min_f R (or_default (decimal 1 5) margin) (of_nat 5)

  abbrev pub is_positive : F → Bool
  is_positive x = lt (zero_f R) x

  -- `input_rate - hit_rate * (input_rate - read_rate)`
  abbrev pub blended : F → F → F → F
  blended input read hit = sub input (mul hit (sub input read))

  abbrev pub rounded : F → Value F
  rounded x = Value.float (round x 10)

  -- `prediction.get("source") or "unknown"`
  abbrev pub source_of : Fields F → Value F
  source_of prediction = or_else R (get "source" prediction) (Value.text "unknown")
