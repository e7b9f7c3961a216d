-- ===== src/Wire/Fragments.antt =====
-- `_wire_fragments` of app/core/cache_fingerprint.py: the blocks that a serialized payload is cut
-- into, at every member of its messages and parts.
pub mod Partition
use Prim.Native.String.{◌++◌ as ◌⧺◌}
use model_relay.Prelude.{
  ℕ, zero, suc, String, Bool, true, false, not, ◌&&◌, ◌||◌, ◌==◌, List, [], ◌∷◌, ◌++◌,
  if◌then◌else◌,
}
use model_relay.Python.Value.{Value, Items, nil, cons, Fields, field, end, nat, is_dict}
use model_relay.Wire.Json.{Json, quoted, encoded, comma, ordered_wire}

-- What the generator yields: punctuation and keys, or a value with its own text.
pub data Fragment (F : Type 0) : Type 0 where
  wire_structure : String → String → Fragment F
  content : String → String → Value F → Fragment F

abbrev pub raw : {F : Type 0} → Fragment F → String
raw (wire_structure path r) = r
raw (content path r v) = r

-- `s.endswith(t)`
unfoldable pub ends_with : String → String → Bool
ends_with t String.[] = t == ""
ends_with t (String.◌∷◌ c s) =
    let rest = ends_with t s in if t == String.◌∷◌ c s then true else rest

abbrev pub is_container : {F : Type 0} → Value F → Bool
is_container (Value.dict fs) = true
is_container (Value.list xs) = true
is_container v = false

abbrev pub is_split_key : String → Bool
is_split_key k =
    k == "contents" || (k == "messages" || (k == "input" || (k == "parts" || k == "content")))

-- Whole parts are the boundary.
abbrev pub is_part : String → Bool
is_part path = ends_with ".parts" path || ends_with ".content" path

abbrev pub is_first : ℕ → Bool
is_first zero = true
is_first (suc i) = false

module _ {F : Type 0} (J : Json F) where
  open J use {number}

  abbrev member : String → String → String
  member path k = path ⧺ "." ⧺ k

  abbrev element : String → ℕ → String
  element path i = path ⧺ "[" ⧺ number (nat i) ⧺ "]"

  unfoldable mutual
    pub walk : Value F → String → Bool → List (Fragment F)
    walk (Value.dict fs) path true =
        wire_structure path "{" ∷ (walk_fields fs path zero ++ (wire_structure path "}" ∷ []))
    walk (Value.list xs) path true =
        wire_structure path "[" ∷ (walk_items xs path zero ++ (wire_structure path "]" ∷ []))
    walk v path _ = content path (encoded J v) v ∷ []

    pub walk_items : Items F → String → ℕ → List (Fragment F)
    walk_items nil path i = []
    walk_items (cons x xs) path zero =
        walk x (element path zero) (is_dict x && not (is_part path)) ++ walk_items xs path 1
    walk_items (cons x xs) path (suc i) =
        wire_structure path ","
        ∷ (walk x (element path (suc i)) (is_dict x && not (is_part path))
            ++ walk_items xs path (suc (suc i)))

    pub walk_fields : Fields F → String → ℕ → List (Fragment F)
    walk_fields end path i = []
    walk_fields (field k v fs) path i =
        wire_structure path (comma (is_first i) ⧺ quoted J k ⧺ ":")
        ∷ (walk v (member path k) (is_split_key k && is_container v) ++ walk_fields fs path (suc i))

  abbrev pub wire_fragments : Fields F → List (Fragment F)
  wire_fragments payload = walk (Value.dict (ordered_wire payload)) "$" true
