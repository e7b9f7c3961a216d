-- ===== src/Cache/Prefix/Guard.antt =====
-- What a binding of app/cache/prefix.py rests on, and which key it carries.
use model_relay.Prelude.{
  ◌≡◌, refl, sym, ap, subst, ◌⊎◌, inl, inr, Bool, true, false, ◌==◌, arith, if◌then◌else◌,
}
use model_relay.Python.Value.{Value, Fields, get, get_or, field, end, is_dict}
use model_relay.Python.Runtime.{Runtime, truthy}
use model_relay.Python.Text.{is_blank}
use model_relay.Cache.Contracts.{Result, Error, ok, raised, ok_injective, bind_ok}
use model_relay.Cache.Prefix.{
  Settings, word, physical, is_native_gemini, is_unsupported, gemini_binding, prefix_version,
  compatible_fingerprints, projected_binding, hint, is_legacy_key, is_sent, text_or_null,
  mechanism_config, derived_key, prepare_implicit_prefix_binding,
}

module _ (R : Runtime) (s : Settings R.F) where
  open R use {F}

  -- The binding of other routes, by its key.
  abbrev keyed_by : Value F → Fields F
  keyed_by v =
      field "prefix_fingerprint" (get "stable_prefix_fingerprint" s.context_plan) (
        field "prompt_cache_key" v (field "retention" (get "retention" (mechanism_config R s)) end))

  -- A validated projection, and a binding without a key.
  abbrev IsProjected : Fields F → Type 0
  IsProjected d =
      ((word R s (get "layout_version" (physical R s)) == "gemini-physical-cache-layout/9") ≡ true)
      × (truthy R (get "implicit_prefix_eligible" (physical R s)) ≡ true)
      × (is_blank (word R s (get "implicit_prefix_fingerprint" (physical R s))) ≡ false)
      × (is_dict (get "implicit_prefix_payload" (physical R s)) ≡ true)
      × (get "prompt_cache_key" d ≡ Value.null)

  -- The plan's prefix, with the session's key, the derived key, or none.
  abbrev IsKeyed : Fields F → Type 0
  IsKeyed d =
      (get "prefix_fingerprint" d ≡ get "stable_prefix_fingerprint" s.context_plan)
      × (((is_legacy_key R s ≡ true)
            × (get "prompt_cache_key" d
                ≡ text_or_null R s (word R s (get "prompt_cache_key" s.session))))
          ⊎ (((is_legacy_key R s ≡ false)
                × (is_sent R s ≡ true)
                × (get "prompt_cache_key" d ≡ Value.text (derived_key R s)))
              ⊎ ((is_legacy_key R s ≡ false)
                  × (is_sent R s ≡ false)
                  × (get "prompt_cache_key" d ≡ Value.null))))

  abbrev pub IsGuarded : Fields F → Type 0
  IsGuarded d =
      ((is_native_gemini R s ≡ true) × IsProjected d) ⊎ ((is_native_gemini R s ≡ false) × IsKeyed d)

  gemini_binding_keyless :
      (d : Fields F) → gemini_binding R s ≡ ok d → get "prompt_cache_key" d ≡ Value.null
  unfolding gemini_binding get_or
  gemini_binding_keyless d h =
      let v = bind_ok (prefix_version R s) _ h in
      let f = bind_ok (compatible_fingerprints R s) _ v.2 in
      let e : projected_binding R s v.0 f.0 ≡ d = ok_injective f.2 in
      ap (get "prompt_cache_key") (sym e)

  projected :
      (d : Fields F) → is_unsupported R s ≡ false → gemini_binding R s ≡ ok d → IsProjected d
  projected d u h = (
    ground (arith, u),
    ground (arith, u),
    ground (arith, u),
    ground (arith, u),
    gemini_binding_keyless d h,
  )

  -- Two tests in a row, and what each outcome picks.
  picked :
      (b c : Bool) (x y z : Value F)
      → ((b ≡ true) × ((if b then x else if c then y else z) ≡ x))
        ⊎ (((b ≡ false) × (c ≡ true) × ((if b then x else if c then y else z) ≡ y))
            ⊎ ((b ≡ false) × (c ≡ false) × ((if b then x else if c then y else z) ≡ z)))
  picked true c x y z = inl (refl, refl)
  picked false true x y z = inr (inl (refl, refl, refl))
  picked false false x y z = inr (inr (refl, refl, refl))

  hint-IsKeyed : (v : Value F) → hint R s ≡ v → IsKeyed (keyed_by v)
  unfolding hint get_or
  hint-IsKeyed v h =
      let p =
        picked (is_legacy_key R s) (is_sent R s)
          (text_or_null R s (word R s (get "prompt_cache_key" s.session)))
          (Value.text (derived_key R s)) Value.null in
      (refl, rw (sym h) p)

  settled :
      (n u : Bool) (e : Error) (g : Result (Fields F)) (k : Fields F) {d : Fields F}
      → (if n then if u then raised e else g else ok k) ≡ ok d
      → ((n ≡ true) × (u ≡ false) × (g ≡ ok d)) ⊎ ((n ≡ false) × (k ≡ d))
  settled true true e g k h = cc
  settled true false e g k h = inl (refl, refl, h)
  settled false u e g k h = inr (refl, ok_injective h)

  -- If `prepare_implicit_prefix_binding` returns a binding, then either the request is Gemini's
  -- native protocol, the physical projection has layout 9, is eligible, has a fingerprint and a
  -- payload, and the binding carries no prompt cache key; or it is not, and the binding has the
  -- plan's prefix fingerprint with the session's own key where the configuration names that source,
  -- else the derived key where the configuration sends one, else no key.
  pub prepare_implicit_prefix_binding-IsGuarded :
      (d : Fields F) → prepare_implicit_prefix_binding R s ≡ ok d → IsGuarded d
  unfolding prepare_implicit_prefix_binding get_or
  prepare_implicit_prefix_binding-IsGuarded d h =
      elim (settled (is_native_gemini R s) (is_unsupported R s) _ (gemini_binding R s)
        (keyed_by (hint R s)) h) [
          | inl t ↦ inl (t.0, projected d t.1 t.2)
          | inr t ↦ inr (t.0, subst IsKeyed t.1 (hint-IsKeyed (hint R s) refl))
        ]
