-- ===== src/Wire/Json.antt =====
-- `canonical_structure` and `serialize_wire` of app/core/context_normalizer.py, and the text that
-- `json.dumps` writes with `ensure_ascii=False` and the separators "," and ":". A text stands for
-- its UTF-8 bytes, and `len` counts these.
use Prim.Native.Char.{Char, code}
use Prim.Native.String.{◌++◌}
use model_relay.Prelude.{String, Bool, true, false, ◌==◌, leb, if◌then◌else◌}
use model_relay.Python.Value.{Value, Items, nil, cons, Fields, field, end, get, has_key}
use model_relay.Materials.Selector.{text_before}

-- What `json.dumps` writes of a number and of one control character.
pub record Json (F : Type 0) : Type 0 where
  pub number : Value F → String
  pub control : Char → String

-- The dictionary in the order of its keys.
unfoldable pub insert_field : {F : Type 0} → String → Value F → Fields F → Fields F
insert_field k v end = field k v end
insert_field k v (field j w fs) =
    let rest = insert_field k v fs in
    if text_before k j then field k v (field j w fs) else field j w rest

unfoldable mutual
  pub canonical_structure : {F : Type 0} → Value F → Value F
  canonical_structure (Value.dict fs) = Value.dict (canonical_fields fs)
  canonical_structure (Value.list xs) = Value.list (canonical_items xs)
  canonical_structure Value.null = Value.null
  canonical_structure (Value.bool b) = Value.bool b
  canonical_structure (Value.int n) = Value.int n
  canonical_structure (Value.float x) = Value.float x
  canonical_structure (Value.text s) = Value.text s

  pub canonical_items : {F : Type 0} → Items F → Items F
  canonical_items nil = nil
  canonical_items (cons x xs) = cons (canonical_structure x) (canonical_items xs)

  pub canonical_fields : {F : Type 0} → Fields F → Fields F
  canonical_fields end = end
  canonical_fields (field k v fs) = insert_field k (canonical_structure v) (canonical_fields fs)

-- `{key: value for key, value in d.items() if key != k}`
unfoldable pub without_key : {F : Type 0} → String → Fields F → Fields F
without_key k end = end
without_key k (field j v fs) =
    let rest = without_key k fs in if j == k then rest else field j v rest

-- The system instruction comes first.
unfoldable pub ordered_wire : {F : Type 0} → Fields F → Fields F
unfolding canonical_structure
ordered_wire payload =
    let canonical = canonical_fields payload in
    if has_key "systemInstruction" canonical
    then field "systemInstruction" (get "systemInstruction" canonical)
        (without_key "systemInstruction" canonical)
    else canonical

-- The comma before every member but the first.
abbrev pub comma : Bool → String
comma true = ""
comma false = ","

module _ {F : Type 0} (J : Json F) where
  open J use {number, control}

  abbrev escaped : Char → String
  escaped c =
      let s = String.◌∷◌ c String.[] in
      if s == "\""
      then "\\\""
      else if s == "\\"
      then "\\\\"
      else if leb 32 (code c)
      then s
      else control c

  unfoldable escape : String → String
  escape String.[] = String.[]
  escape (String.◌∷◌ c s) = escaped c ++ escape s

  unfoldable pub quoted : String → String
  unfolding escape
  quoted s = "\"" ++ (escape s ++ "\"")

  unfoldable mutual
    pub encoded : Value F → String
    encoded Value.null = "null"
    encoded (Value.bool true) = "true"
    encoded (Value.bool false) = "false"
    encoded (Value.int n) = number (Value.int n)
    encoded (Value.float x) = number (Value.float x)
    encoded (Value.text s) = quoted s
    encoded (Value.list xs) = "[" ++ (encoded_items true xs ++ "]")
    encoded (Value.dict fs) = "{" ++ (encoded_fields true fs ++ "}")

    pub encoded_items : Bool → Items F → String
    encoded_items first nil = ""
    encoded_items first (cons x xs) = comma first ++ (encoded x ++ encoded_items false xs)

    pub encoded_fields : Bool → Fields F → String
    encoded_fields first end = ""
    encoded_fields first (field k v fs) =
        comma first ++ (quoted k ++ (":" ++ (encoded v ++ encoded_fields false fs)))

  unfoldable pub serialize_wire : Fields F → String
  serialize_wire payload = encoded (Value.dict (ordered_wire payload))
