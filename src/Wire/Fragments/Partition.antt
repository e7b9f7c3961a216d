-- ===== src/Wire/Fragments/Partition.antt =====
-- The blocks of app/core/cache_fingerprint.py are the serialized payload, cut without loss.
use Prim.Native.String.{◌++◌ as ◌⧺◌}
use text.Mathlib.TextLemmas.{nil-append, append-nil, append_assoc}
use model_relay.Prelude.{
  ℕ, zero, suc, String, ◌≡◌, refl, sym, Bool, true, false, List, [], ◌∷◌, ◌++◌,
}
use model_relay.Python.Value.{Value, Items, nil, cons, Fields, field, end}
use model_relay.Wire.Json.{
  Json, encoded, encoded_items, encoded_fields, serialize_wire, ordered_wire,
}
use model_relay.Wire.Fragments.{
  Fragment, raw, is_first, walk, walk_items, walk_fields, wire_fragments,
}

module _ {F : Type 0} where
  -- `b"".join(raw for …)`
  abbrev pub joined : List (Fragment F) → String
  joined [] = ""
  joined (f ∷ fs) = raw f ⧺ joined fs

  pub joined-append : (fs gs : List (Fragment F)) → joined (fs ++ gs) ≡ joined fs ⧺ joined gs
  joined-append [] gs = sym (nil-append (joined gs))
  joined-append (f ∷ fs) gs =
      rw (joined-append fs gs) (sym (append_assoc (raw f) (joined fs) (joined gs)))

module _ {F : Type 0} (J : Json F) where
  mutual
    unfolding walk encoded

    joined-walk :
        (v : Value F) (path : String) (split : Bool) → joined (walk J v path split) ≡ encoded J v
    joined-walk (Value.dict fs) path true =
        simp (joined-append, joined-walk_fields fs path 0, append-nil)
    joined-walk (Value.list xs) path true =
        simp (joined-append, joined-walk_items xs path 0, append-nil)
    joined-walk (Value.dict fs) path false = append-nil _
    joined-walk (Value.list xs) path false = append-nil _
    joined-walk Value.null path split = append-nil _
    joined-walk (Value.bool b) path split = append-nil _
    joined-walk (Value.int n) path split = append-nil _
    joined-walk (Value.float x) path split = append-nil _
    joined-walk (Value.text s) path split = append-nil _

    joined-walk_items :
        (xs : Items F) (path : String) (i : ℕ)
        → joined (walk_items J xs path i) ≡ encoded_items J (is_first i) xs
    joined-walk_items nil path i = refl
    joined-walk_items (cons x xs) path zero =
        simp (joined-append, joined-walk x, joined-walk_items xs path 1, nil-append)
    joined-walk_items (cons x xs) path (suc i) =
        simp (joined-append, joined-walk x, joined-walk_items xs path (suc (suc i)))

    joined-walk_fields :
        (fs : Fields F) (path : String) (i : ℕ)
        → joined (walk_fields J fs path i) ≡ encoded_fields J (is_first i) fs
    joined-walk_fields end path i = refl
    joined-walk_fields (field k v fs) path i =
        simp (joined-append, joined-walk v, joined-walk_fields fs path (suc i), append_assoc)

  -- The fragments of a payload, joined in their order, are the serialized payload: every byte of
  -- it, each delimiter included, stands in one fragment.
  pub joined-wire_fragments :
      (payload : Fields F) → joined (wire_fragments J payload) ≡ serialize_wire J payload
  unfolding serialize_wire
  joined-wire_fragments payload = joined-walk (Value.dict (ordered_wire payload)) "$" true
