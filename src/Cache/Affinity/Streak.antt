-- ===== src/Cache/Affinity/Streak.antt =====
-- What a streak of warm misses rests on, in `drift_reason` of app/cache/affinity.py.
use model_relay.Prelude.{
  ℕ, zero, suc, ◌<◌, String, ◌≡◌, refl, ◌∙◌, ap, ◌⊎◌, inl, inr, Bool, true, false, ◌&&◌, Option,
  none, some, List, [], ◌∷◌, ◌==◌, ltb, length, arith, Bool-cases, if◌then◌else◌,
}
use model_relay.Python.Value.{Fields, get, get_or, is_true, is_false, is_text, nat}
use model_relay.Python.Runtime.{Runtime, str}
use model_relay.Python.Text.{lower}
use model_relay.Cache.Contracts.{Result, ok, ok_injective, bind_ok}
use model_relay.Cache.Affinity.{
  Row, Audited, Settings, mapping_or_empty, audits, is_below, is_warm, is_zero_read, is_observed,
  is_miss, misses, routed_reason, reason_of, drift_reason,
}

module _ (R : Runtime) (s : Settings R.F) where
  open R use {F}

  -- A real observation of nothing read, on a long enough prefix compared with the request before it,
  -- in time after that, and the newest of them in time before now.
  abbrev pub IsWarmMiss : Bool → Audited F → Row F → Type 0
  IsWarmMiss first a older =
      (is_true (get "implicit_active" a.audit) ≡ true)
      × (is_zero_read (get "read_tokens" a.audit) ≡ true)
      × ((diff : Fields F) × (mapping_or_empty R (get "prefix_diff" a.audit) ≡ ok diff)
          × (is_below R (get_or (nat 0) "lcp_estimated_tokens" diff) s.min_tokens ≡ ok false)
          × (is_false (get "comparable" diff) ≡ false)
          × (is_text older.id (get "compared_request_id" a.audit) ≡ true))
      × (is_warm R s.warm_seconds (s.between a.row.completed_at older.completed_at) ≡ true)
      × ((first ≡ false) ⊎ (is_warm R s.warm_seconds (s.age a.row.completed_at) ≡ true))

  abbrev pub IsStreak : Bool → ℕ → List (Audited F) → Type 0
  IsStreak first zero rows = Unit
  IsStreak first (suc n) [] = ⊥
  IsStreak first (suc n) (a ∷ []) = ⊥
  IsStreak first (suc n) (a ∷ b ∷ bs) = IsWarmMiss first a b.row × IsStreak false n (b ∷ bs)

  observed-fields :
      (audit : Fields F) (older : String)
      → is_observed R s audit older ≡ ok true
      → (diff : Fields F) × (mapping_or_empty R (get "prefix_diff" audit) ≡ ok diff)
        × (is_below R (get_or (nat 0) "lcp_estimated_tokens" diff) s.min_tokens ≡ ok false)
        × (is_false (get "comparable" diff) ≡ false)
        × (is_text older (get "compared_request_id" audit) ≡ true)
  unfolding is_observed
  observed-fields audit older h =
      let d = bind_ok (mapping_or_empty R (get "prefix_diff" audit)) _ h in
      let b = bind_ok (is_below R (get_or (nat 0) "lcp_estimated_tokens" d.0) s.min_tokens) _ d.2 in
      let t = ok_injective b.2 in
      let long : b.0 ≡ false = ground (arith, t) in
      (d.0, d.1, b.1 ∙ ap ok long, ground (arith, t), ground (arith, t))

  is_miss-IsWarmMiss :
      (first : Bool) (a : Audited F) (older : Row F)
      → is_miss R s first a older ≡ ok true
      → IsWarmMiss first a older
  unfolding is_miss
  is_miss-IsWarmMiss first a older h =
      let active =
        is_true (get "implicit_active" a.audit) && is_zero_read (get "read_tokens" a.audit) in
      elim (Bool-cases active) [
        | inl b ↦
            let o = bind_ok (is_observed R s a.audit older.id) _ (rw b at h) in
            let t = ok_injective o.2 in
            let seen : o.0 ≡ true = ground (arith, t) in
            (
              ground (arith, b),
              ground (arith, b),
              observed-fields a.audit older.id (o.1 ∙ ap ok seen),
              ground (arith, t),
              ground (arith, t),
            )
        | inr b ↦ idle (rw b at h)
      ]
    where
      idle : ok false ≡ ok true → IsWarmMiss first a older
      idle h = cc

  -- A miss, and what follows it.
  continued :
      (missed : Bool) (m rest : Result Bool)
      → m ≡ ok missed
      → (if missed then rest else ok false) ≡ ok true
      → (m ≡ ok true) × (rest ≡ ok true)
  continued true m rest h k = (h, k)
  continued false m rest h k = cc

  misses-IsStreak :
      (first : Bool) (n : ℕ) (rows : List (Audited F))
      → n < length rows
      → misses R s first n rows ≡ ok true
      → IsStreak first n rows
  unfolding misses
  misses-IsStreak first zero rows l h = tt
  misses-IsStreak first (suc n) [] l h = absurd (omega arith)
  misses-IsStreak first (suc n) (a ∷ []) l h = absurd (omega arith)
  misses-IsStreak first (suc n) (a ∷ b ∷ bs) l h =
      let m = bind_ok (is_miss R s first a b.row) _ h in
      let c = continued m.0 (is_miss R s first a b.row) _ m.1 m.2 in
      (is_miss-IsWarmMiss first a b.row c.0, misses-IsStreak false n (b ∷ bs) (omega arith) c.1)

  abbrev IsReported : Result (Option String) → Type 0
  IsReported r = r ≡ ok (some "consecutive_warm_prefix_misses")

  none_differs : IsReported (ok none) → ⊥
  none_differs h = cc

  fallback_differs : IsReported (ok (some "upstream_router_fallback")) → ⊥
  fallback_differs h = cc

  unstuck_differs : IsReported (ok (some "upstream_router_unstuck")) → ⊥
  unstuck_differs h = cc

  handle_differs : IsReported (ok (some "unexpired_handle_inaccessible")) → ⊥
  handle_differs h = cc

  reported :
      (missed : Bool)
      → IsReported (
          ok
            (if◌then◌else◌ {A = Option String} missed (some "consecutive_warm_prefix_misses") none))
      → missed ≡ true
  reported true h = refl
  reported false h = absurd (none_differs h)

  -- A test that ends the routine with another reason is false.
  passed :
      (b : Bool) (x y : Result (Option String))
      → (IsReported x → ⊥)
      → IsReported (if b then x else y)
      → (b ≡ false) × IsReported y
  passed true x y n h = absurd (n h)
  passed false x y n h = (refl, h)

  routed_reason-IsStreak :
      (audited : List (Audited F)) (headers : Fields F)
      → routed_reason R s audited headers ≡ ok (some "consecutive_warm_prefix_misses")
      → (s.consecutive < length audited) × IsStreak true s.consecutive audited
  unfolding routed_reason
  routed_reason-IsStreak audited headers h =
      let fallback = lower (str R (get "x-aihubmix-router-fallback" headers)) == "true" in
      let unstuck = lower (str R (get "x-aihubmix-router-sticky" headers)) == "false" in
      let f = passed fallback _ _ fallback_differs h in
      let u = passed unstuck _ _ unstuck_differs f.1 in
      let l = passed (ltb (length audited) (suc s.consecutive)) _ _ none_differs u.1 in
      let long : s.consecutive < length audited = ground (arith, l) in
      let m =
        bind_ok (misses R s true s.consecutive audited)
          (λ missed.
            ok (
              if◌then◌else◌ {A = Option String} missed (some "consecutive_warm_prefix_misses")
                none))
          l.1 in
      (long, misses-IsStreak true s.consecutive audited long (m.1 ∙ ap ok (reported m.0 m.2)))

  reason_of-IsStreak :
      (audited : List (Audited F))
      → reason_of R s audited ≡ ok (some "consecutive_warm_prefix_misses")
      → ((s.strategy == "STATEFUL_HANDLE_STATUS_ONLY") ≡ false)
        × (s.consecutive < length audited)
        × IsStreak true s.consecutive audited
  unfolding reason_of
  reason_of-IsStreak [] h = absurd (none_differs h)
  reason_of-IsStreak (a ∷ rest) h =
      let e = passed _ _ _ none_differs h in
      let j = passed _ _ _ handle_differs e.1 in
      let k = passed _ _ _ none_differs j.1 in
      let r = bind_ok (mapping_or_empty R (get "route" a.audit)) _ k.1 in
      let t = routed_reason-IsStreak (a ∷ rest) r.0 r.2 in (k.0, t.0, t.1)

  -- If `drift_reason` reports consecutive warm prefix misses, then the strategy is not the one that
  -- looks at handles alone, there are more answers than the streak is long, and each of the newest
  -- `consecutive` ones carries an audit of the present epoch with implicit caching active and
  -- exactly zero tokens read, on a comparable prefix of at least `min_tokens` that was compared
  -- with the answer just before it, completed within `warm_seconds` after that one, the newest also
  -- within `warm_seconds` of the clock.
  pub drift_reason-IsStreak :
      (rows : List (Row F))
      → drift_reason R s rows ≡ ok (some "consecutive_warm_prefix_misses")
      → (audited : List (Audited F)) × (audits R s.epoch rows ≡ ok audited)
        × ((s.strategy == "STATEFUL_HANDLE_STATUS_ONLY") ≡ false)
        × (s.consecutive < length audited)
        × IsStreak true s.consecutive audited
  unfolding drift_reason
  drift_reason-IsStreak rows h =
      let a = bind_ok (audits R s.epoch rows) _ h in
      let r = reason_of-IsStreak a.0 a.2 in (a.0, a.1, r.0, r.1, r.2)
