-- ===== src/ModelOptions/Rules.antt =====
-- What a validated option of app/model_options.py satisfies, and fields under sorting and insertion.
use text.Mathlib.TextPositions.{eq_refl}
use model_relay.Prelude.{
  String, ◌≡◌, refl, sym, subst, ◌⊎◌, inl, inr, Bool, true, false, Option, none, some, ◌==◌,
  contains, eq_iff, arith, Bool-cases, if◌then◌else◌,
}
use model_relay.Python.Value.{Value, Fields, field, end, get, has_key, put, is_null}
use model_relay.Python.Runtime.{Runtime}
use model_relay.Wire.Json.{insert_field}
use model_relay.Materials.Selector.{text_before}
use model_relay.Routing.Outcome.{Outcome, found, found_injective, bind_found, branch_found}
use model_relay.ModelOptions.{
  Comparison, kind_of, normalized_as, unless_less, is_excluded, enumerated, capped, bounded,
  validate_contract_value,
}
use model_relay.ModelOptions.Payload.{keys_of}
use model_relay.ModelOptions.Contract.{sorted_fields}

-- A value within the bounds of its rule and among the values that the rule enumerates.
abbrev pub IsWithin : (R : Runtime) → Comparison R.F → Fields R.F → Value R.F → Type 0
IsWithin R C rule v =
    ((is_null (get "min" rule) ≡ true) ⊎ (C.less v (get "min" rule) ≡ some false))
    × ((is_null (get "max" rule) ≡ true) ⊎ (C.less (get "max" rule) v ≡ some false))
    × (is_excluded R C v (get "enum" rule) ≡ false)

module _ (R : Runtime) (C : Comparison R.F) where
  open R use {F}

  unless_less-found :
      (option : String) (t : Option Bool) (rest : Outcome (Value F)) {w : Value F}
      → unless_less R C option t rest ≡ found w
      → (t ≡ some false) × (rest ≡ found w)
  unless_less-found option none rest h = cc
  unless_less-found option (some true) rest h = cc
  unless_less-found option (some false) rest h = (refl, h)

  enumerated-within :
      (option : String) (rule : Fields F) (v : Value F) {w : Value F}
      → enumerated R C option rule v ≡ found w
      → (v ≡ w) × (is_excluded R C v (get "enum" rule) ≡ false)
  unfolding enumerated
  enumerated-within option rule v h =
      elim (branch_found (is_excluded R C v (get "enum" rule)) _ _ h) [
        | inl (b, k) ↦ cc
        | inr (b, k) ↦ (found_injective k, b)
      ]

  capped-within :
      (option : String) (rule : Fields F) (v : Value F) {w : Value F}
      → capped R C option rule v ≡ found w
      → (v ≡ w)
        × ((is_null (get "max" rule) ≡ true) ⊎ (C.less (get "max" rule) v ≡ some false))
        × (is_excluded R C v (get "enum" rule) ≡ false)
  unfolding capped
  capped-within option rule v h = elim (branch_found (is_null (get "max" rule)) _ _ h) [
    | inl (b, k) ↦ let e = enumerated-within option rule v k in (e.0, inl b, e.1)
    | inr (b, k) ↦
        let l = unless_less-found option _ _ k in
        let e = enumerated-within option rule v l.1 in (e.0, inr l.0, e.1)
  ]

  bounded-IsWithin :
      (option : String) (rule : Fields F) (v : Value F) {w : Value F}
      → bounded R C option rule v ≡ found w
      → (v ≡ w) × IsWithin R C rule v
  unfolding bounded
  bounded-IsWithin option rule v h = elim (branch_found (is_null (get "min" rule)) _ _ h) [
    | inl (b, k) ↦ let e = capped-within option rule v k in (e.0, (inl b, e.1, e.2))
    | inr (b, k) ↦
        let l = unless_less-found option _ _ k in
        let e = capped-within option rule v l.1 in (e.0, (inr l.0, e.1, e.2))
  ]

  pub validate_contract_value-IsWithin :
      (option : String) (rule : Fields F) (v : Value F) {w : Value F}
      → validate_contract_value R C option rule v ≡ found w
      → IsWithin R C rule w
  unfolding validate_contract_value
  validate_contract_value-IsWithin option rule v h =
      let n = bind_found (normalized_as R C (kind_of R C option rule) option v) _ h in
      let b = bounded-IsWithin option rule n.0 n.2 in rw (← b.0) b.1

module _ {F : Type 0} where
  abbrev pub AllFields : (String → Value F → Type 0) → Fields F → Type 0
  AllFields P end = Unit
  AllFields P (field k v fs) = P k v × AllFields P fs

  pub AllFields-imp :
      {P Q : String → Value F → Type 0} (fs : Fields F)
      → ((k : String) (v : Value F) → P k v → Q k v)
      → AllFields P fs
      → AllFields Q fs
  AllFields-imp end f h = tt
  AllFields-imp (field k v fs) f (p, h) = (f k v p, AllFields-imp fs f h)

  AllFields-insert_field :
      (P : String → Value F → Type 0) (k : String) (v : Value F) (fs : Fields F)
      → P k v
      → AllFields P fs
      → AllFields P (insert_field k v fs)
  unfolding insert_field
  AllFields-insert_field P k v end p h = (p, tt)
  AllFields-insert_field P k v (field j w fs) p (q, h) = elim (Bool-cases (text_before k j)) [
    | inl b ↦ rw b (p, (q, h))
    | inr b ↦ rw b (q, AllFields-insert_field P k v fs p h)
  ]

  pub AllFields-sorted_fields :
      (P : String → Value F → Type 0) (fs : Fields F)
      → AllFields P fs
      → AllFields P (sorted_fields fs)
  unfolding sorted_fields
  AllFields-sorted_fields P end h = tt
  AllFields-sorted_fields P (field k v fs) (p, h) =
      AllFields-insert_field P k v (sorted_fields fs) p (AllFields-sorted_fields P fs h)

  pub AllFields-put :
      (P : String → Value F → Type 0) (k : String) (v : Value F) (fs : Fields F)
      → P k v
      → AllFields P fs
      → AllFields P (put k v fs)
  unfolding put
  AllFields-put P k v end p h = (p, tt)
  AllFields-put P k v (field j w fs) p (q, h) = elim (Bool-cases (j == k)) [
    | inl b ↦ rw b (subst (λ x. P x v) (sym ((eq_iff j k).0 b)) p, h)
    | inr b ↦ rw b (q, AllFields-put P k v fs p h)
  ]

  has_key-insert_field :
      (s k : String) (v : Value F) (fs : Fields F)
      → has_key s (insert_field k v fs) ≡ has_key s (field k v fs)
  unfolding insert_field has_key
  has_key-insert_field s k v end = refl
  has_key-insert_field s k v (field j w fs) = elim (Bool-cases (text_before k j)) [
    | inl b ↦ rw b refl
    | inr b ↦ rw (b, has_key-insert_field s k v fs) (ground arith)
  ]

  pub has_key-sorted_fields :
      (s : String) (fs : Fields F) → has_key s (sorted_fields fs) ≡ has_key s fs
  unfolding sorted_fields has_key
  has_key-sorted_fields s end = refl
  has_key-sorted_fields s (field k v fs) =
      rw (has_key-insert_field s k v (sorted_fields fs), has_key-sorted_fields s fs) refl

  -- Every field's name is a key.
  pub contains-keys_of : (s : String) (fs : Fields F) → contains (keys_of fs) s ≡ has_key s fs
  unfolding keys_of has_key
  contains-keys_of s end = refl
  contains-keys_of s (field k v fs) = rw (contains-keys_of s fs) (ground arith)

  pub has_key-put :
      (s k : String) (v : Value F) (fs : Fields F)
      → has_key s fs ≡ true
      → has_key s (put k v fs) ≡ true
  unfolding put has_key
  has_key-put s k v end h = cc
  has_key-put s k v (field j w fs) h = elim (Bool-cases (j == k)) [
    | inl b ↦ rw b h
    | inr b ↦ rw b (kept (j == s) (has_key s fs) (has_key s (put k v fs)) h (has_key-put s k v fs))
  ]
    where
      kept :
          (a b c : Bool)
          → (if a then true else b) ≡ true
          → (b ≡ true → c ≡ true)
          → (if a then true else c) ≡ true
      kept true b c h f = refl
      kept false b c h f = f h

  -- Its own key is there.
  pub has_key-field : (k : String) (v : Value F) (fs : Fields F) → has_key k (field k v fs) ≡ true
  unfolding has_key
  has_key-field k v fs = rw (eq_refl k) refl
