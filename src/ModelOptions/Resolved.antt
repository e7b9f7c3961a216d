-- ===== src/ModelOptions/Resolved.antt =====
-- The options that `resolve_model_options` of app/model_options.py resolves under a contract.
use model_relay.Prelude.{
  String, ◌≡◌, refl, inl, inr, true, false, not, Option, List, [], ◌∷◌, ◌==◌, contains, arith,
  Bool-cases, All, if◌then◌else◌,
}
use model_relay.Python.Value.{Value, Fields, field, end, get, has_key, put, as_dict}
use model_relay.Python.Runtime.{Runtime}
use model_relay.Materials.Selector.{text_before}
use model_relay.Routing.Outcome.{found, found_injective, bind_found, branch_found}
use model_relay.Routing.Requirements.{sorted_texts, insert_text, missing_of}
use model_relay.ModelOptions.{Comparison, refuse, validate_contract_value}
use model_relay.ModelOptions.Payload.{
  keys_of, refuse_first, merge_legacy_provider_payload, level_of,
}
use model_relay.ModelOptions.Contract.{
  ResolvedModelOptions, sorted_fields, rule_of, supported_of, defaults_of, validated, with_defaults,
  effective_level, compatible, is_incompatible, is_conflicting, any_key, resolve_with_contract,
}
use model_relay.ModelOptions.Rules.{
  IsWithin, validate_contract_value-IsWithin, AllFields, AllFields-imp, AllFields-sorted_fields,
  AllFields-put, has_key-sorted_fields, contains-keys_of, has_key-put, has_key-field,
}

-- Nothing is missing where the first of what is missing would have been refused.
refused-none :
    (code : String) (ms : List String) {u : Unit {0}}
    → refuse_first code (sorted_texts ms) ≡ found u
    → ms ≡ []
unfolding sorted_texts insert_text
refused-none code [] h = refl
refused-none code (m ∷ ms) {u} h = absurd (inserted (sorted_texts ms) h)
  where
    inserted : (ts : List String) → refuse_first code (insert_text m ts) ≡ found u → ⊥
    inserted [] h = cc
    inserted (t ∷ ts) h = elim (Bool-cases (text_before t m)) [
      | inl b ↦ refused (rw b at h)
      | inr b ↦ refused (rw b at h)
    ]
      where
        refused : {n : String} → refuse {A = Unit {0}} code n ≡ found u → ⊥
        refused h = cc

missing-none :
    (xs available : List String)
    → missing_of xs available ≡ []
    → All (λ k. contains available k ≡ true) xs
unfolding missing_of
missing-none [] available h = tt
missing-none (x ∷ xs) available h = elim (Bool-cases (contains available x)) [
  | inl b ↦ (b, missing-none xs available (rw b at h))
  | inr b ↦ absurd (some_missing (rw b at h))
]
  where
    some_missing : {ys : List String} → Path (List String) (x ∷ ys) [] → ⊥
    some_missing h = cc

module _ (R : Runtime) (C : Comparison R.F) where
  open R use {F}

  named :
      (supported fs : Fields F)
      → All (λ k. contains (keys_of supported) k ≡ true) (keys_of fs)
      → AllFields (λ k v. has_key k supported ≡ true) fs
  unfolding keys_of
  named supported end h = tt
  named supported (field k v fs) (p, h) =
      (rw (contains-keys_of k supported) at p, named supported fs h)

  -- A supported option within its rule.
  abbrev IsValid : Fields F → String → Value F → Type 0
  IsValid supported k v = (has_key k supported ≡ true) × IsWithin R C (rule_of supported k) v

  validated-IsValid :
      (supported fs : Fields F) {ws : Fields F}
      → validated R C supported fs ≡ found ws
      → AllFields (λ k v. has_key k supported ≡ true) fs
      → AllFields (IsValid supported) ws
  unfolding validated
  validated-IsValid supported end h p = rw (← found_injective h) tt
  validated-IsValid supported (field k v fs) h (p, q) =
      let w = bind_found (validate_contract_value R C k (rule_of supported k) v) _ h in
      let r = bind_found (validated R C supported fs) _ w.2 in
      rw (← found_injective r.2) (
        (p, validate_contract_value-IsWithin R C k (rule_of supported k) v w.1),
        validated-IsValid supported fs r.1 q,
      )

  -- The defaults are valid too, and leave the options of the caller.
  with_defaults-IsValid :
      (supported effective ds : Fields F) {e : Fields F}
      → with_defaults R C supported effective ds ≡ found e
      → AllFields (IsValid supported) effective
      → AllFields (IsValid supported) e
        × ((s : String) → has_key s effective ≡ true → has_key s e ≡ true)
  unfolding with_defaults
  with_defaults-IsValid supported effective end h p = rw (← found_injective h) (p, λ s k. k)
  with_defaults-IsValid supported effective (field k v ds) h p =
      elim (branch_found (has_key k effective) _ _ h) [
        | inl (b, t) ↦ with_defaults-IsValid supported effective ds t p
        | inr (b, t) ↦ elim (branch_found (not (has_key k supported)) _ _ t) [
          | inl (c, u) ↦ cc
          | inr (c, u) ↦
              let w = bind_found (validate_contract_value R C k (rule_of supported k) v) _ u in
              let valid : IsValid supported k w.0 = (
                ground (arith, c),
                validate_contract_value-IsWithin R C k (rule_of supported k) v w.1,
              ) in
              let i =
                with_defaults-IsValid supported (put k w.0 effective) ds w.2
                  (AllFields-put (IsValid supported) k w.0 effective valid p) in
              (i.0, λ s z. i.1 s (has_key-put s k w.0 effective z))
        ]
      ]

  compatible-found :
      (supported : Fields F) (level : String) (effective fs : Fields F) {u : Unit {0}}
      → compatible R C supported level effective fs ≡ found u
      → AllFields (λ k v. is_incompatible R C supported level effective k ≡ false) fs
  unfolding compatible
  compatible-found supported level effective end h = tt
  compatible-found supported level effective (field k v fs) h =
      elim (branch_found (is_incompatible R C supported level effective k) _ _ h) [
        | inl (b, t) ↦ cc
        | inr (b, t) ↦ (b, compatible-found supported level effective fs t)
      ]

  any_key-sorted :
      (e : Fields F) (ss : List String) → any_key R C (sorted_fields e) ss ≡ any_key R C e ss
  any_key-sorted e [] = refl
  any_key-sorted e (s ∷ ss) = rw (has_key-sorted_fields s e, any_key-sorted e ss) refl

  conflicting-sorted :
      (e : Fields F) (v : Value F) → is_conflicting R C (sorted_fields e) v ≡ is_conflicting R C e v
  conflicting-sorted e (Value.list xs) = any_key-sorted e _
  conflicting-sorted e Value.null = refl
  conflicting-sorted e (Value.bool b) = refl
  conflicting-sorted e (Value.int n) = refl
  conflicting-sorted e (Value.float x) = refl
  conflicting-sorted e (Value.text s) = refl
  conflicting-sorted e (Value.dict d) = refl

  AllFields-both :
      (P Q : String → Value F → Type 0) (fs : Fields F)
      → AllFields P fs
      → AllFields Q fs
      → AllFields (λ k v. P k v × Q k v) fs
  AllFields-both P Q end h g = tt
  AllFields-both P Q (field k v fs) (p, h) (q, g) = ((p, q), AllFields-both P Q fs h g)

  -- The fields are keys of themselves.
  own_keys : (fs : Fields F) → AllFields (λ k v. has_key k fs ≡ true) fs
  unfolding has_key
  own_keys end = tt
  own_keys (field k v fs) =
      (has_key-field k v fs, AllFields-imp fs (λ j w h. later j h) (own_keys fs))
    where
      later : (j : String) → has_key j fs ≡ true → (if k == j then true else has_key j fs) ≡ true
      later j h = elim (Bool-cases (k == j)) [ inl b ↦ rw b refl | inr b ↦ rw b h ]

  -- Every effective option is supported, within its rule and compatible with the level and the
  -- others; the requested ones are among them.
  abbrev pub IsResolved : Fields F → ResolvedModelOptions F → Type 0
  IsResolved supported r =
      AllFields
        (λ k v.
          IsValid supported k v
          × (is_incompatible R C supported r.effective_think_level r.effective_options k ≡ false))
        r.effective_options
      × AllFields (λ k v. has_key k r.effective_options ≡ true) r.requested_options

  -- If options are resolved under a contract, each effective option is one that the contract
  -- supports, lies within the minimum and the maximum of its rule and among the values that it
  -- enumerates, is allowed at the effective thinking level and conflicts with no other effective
  -- option; and each requested option is effective.
  pub resolve_with_contract-IsResolved :
      (model : String) (options payload : Fields F) (think : Option String) (contract : Fields F)
      {r : ResolvedModelOptions F}
      → resolve_with_contract R C model options payload think contract ≡ found r
      → (supported : Fields F) × (supported_of R C (get "supported_options" contract)
          ≡ found supported)
        × IsResolved supported r
  unfolding resolve_with_contract
  resolve_with_contract-IsResolved model options payload think contract h =
      let s = bind_found (supported_of R C (get "supported_options" contract)) _ h in
      let q = bind_found (merge_legacy_provider_payload C options payload) _ s.2 in
      let d =
        bind_found
          (refuse_first "OPTION_UNSUPPORTED"
            (sorted_texts (missing_of (keys_of q.0) (keys_of s.0))))
          _ q.2 in
      let l =
        bind_found (effective_level R C model (as_dict (get "thinking" contract)) (level_of think))
          _ d.2 in
      let o = bind_found (validated R C s.0 (sorted_fields q.0)) _ l.2 in
      let f = bind_found (defaults_of R C (get "provider_defaults" contract)) _ o.2 in
      let e = bind_found (with_defaults R C s.0 o.0 (sorted_fields f.0)) _ f.2 in
      let c = bind_found (compatible R C s.0 l.0 e.0 (sorted_fields e.0)) _ e.2 in
      let supported_keys =
        named s.0 q.0
          (missing-none (keys_of q.0) (keys_of s.0) (refused-none "OPTION_UNSUPPORTED" _ d.1)) in
      let own =
        validated-IsValid s.0 (sorted_fields q.0) o.1
          (AllFields-sorted_fields (λ k v. has_key k s.0 ≡ true) q.0 supported_keys) in
      let all = with_defaults-IsValid s.0 o.0 (sorted_fields f.0) e.1 own in
      (
        s.0,
        s.1,
        rw (← found_injective c.2) (
          AllFields-both _ _ (sorted_fields e.0) (AllFields-sorted_fields (IsValid s.0) e.0 all.0) (
              AllFields-imp (sorted_fields e.0)
                (λ k v i. rw (conflicting-sorted e.0 (get "conflicts_with" (rule_of s.0 k))) i)
                (compatible-found s.0 l.0 e.0 (sorted_fields e.0) c.1)),
          AllFields-sorted_fields _ o.0 (
              AllFields-imp o.0 (λ k v i. rw (has_key-sorted_fields k e.0) (all.1 k i))
                (own_keys o.0)),
        ),
      )
