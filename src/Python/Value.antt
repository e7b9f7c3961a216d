-- ===== src/Python/Value.antt =====
-- Values of a dynamic language: what a configuration mapping, a snapshot or a usage report holds.
-- `F` is the type of floats.
use model_relay.Prelude.{
  ℕ, suc, String, ◌≡◌, refl, Bool, true, false, not, Option, none, some, List, [], ◌∷◌, ◌==◌,
  if◌then◌else◌,
}
use model_relay.Prelude.Int.{ℤ, pos}

mutual
  pub data Value (F : Type 0) : Type 0 where
    null : Value F
    bool : Bool → Value F
    int : ℤ → Value F
    float : F → Value F
    text : String → Value F
    list : Items F → Value F
    dict : Fields F → Value F

  pub data Items (F : Type 0) : Type 0 where
    nil : Items F
    cons : Value F → Items F → Items F

  pub data Fields (F : Type 0) : Type 0 where
    end : Fields F
    field : String → Value F → Fields F → Fields F

module _ {F : Type 0} where
  -- `d.get(k, default)`
  unfoldable pub get_or : Value F → String → Fields F → Value F
  get_or d k end = d
  get_or d k (field j v fs) = if j == k then v else get_or d k fs

  -- `d.get(k)`
  abbrev pub get : String → Fields F → Value F
  get = get_or Value.null

  -- `k in d`
  unfoldable pub has_key : String → Fields F → Bool
  has_key k end = false
  has_key k (field j v fs) = if j == k then true else has_key k fs

  -- `d[k] = v`, which keeps the place of a key that is there.
  unfoldable pub put : String → Value F → Fields F → Fields F
  put k v end = field k v end
  put k v (field j w fs) = let rest = put k v fs in if j == k then field j v fs else field j w rest

  -- `{**d, **e}`
  unfoldable pub merge : Fields F → Fields F → Fields F
  merge d end = d
  merge d (field k v e) = merge (put k v d) e

  -- `x is True`
  abbrev pub is_true : Value F → Bool
  is_true (Value.bool b) = b
  is_true _ = false

  abbrev pub is_false : Value F → Bool
  is_false (Value.bool b) = not b
  is_false _ = false

  -- `x is None`
  abbrev pub is_null : Value F → Bool
  is_null Value.null = true
  is_null _ = false

  -- `x if isinstance(x, dict) else {}`
  abbrev pub as_dict : Value F → Fields F
  as_dict (Value.dict d) = d
  as_dict _ = Fields.end

  abbrev pub is_dict : Value F → Bool
  is_dict (Value.dict _) = true
  is_dict _ = false

  -- `type(x) is int`, with the number.
  abbrev pub as_int : Value F → Option ℤ
  as_int (Value.int n) = some n
  as_int _ = none

  -- `type(x) is int and x >= 0`, with the number.
  abbrev pub as_count : Value F → Option ℕ
  as_count (Value.int (pos n)) = some n
  as_count _ = none

  -- `type(x) is int and x > 0`, with the number.
  abbrev pub as_positive : Value F → Option ℕ
  as_positive (Value.int (pos (suc n))) = some (suc n)
  as_positive _ = none

  -- `x == s` for a text s.
  abbrev pub is_text : String → Value F → Bool
  is_text s (Value.text t) = t == s
  is_text s _ = false

  abbrev pub nat : ℕ → Value F
  nat n = Value.int (pos n)

  unfoldable pub strings : List String → Items F
  strings [] = Items.nil
  strings (s ∷ ss) = Items.cons (Value.text s) (strings ss)

find_later :
    get {F = ℕ} "b" (put "b" Value.null (field "a" (Value.bool true) (field "b" (nat 3) end)))
    ≡ Value.null
unfolding get_or put
find_later = refl
