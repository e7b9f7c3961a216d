-- ===== src/Routing/Resolver/Served.antt =====
-- A route that `RouteResolver.resolve` of app/routing/route_resolver.py returns can be served.
use model_relay.Prelude.{
  String, ◌≡◌, refl, sym, subst, ◌⊎◌, inl, inr, Bool, true, ◌||◌, Option, none, some, List, [], ◌∷◌,
  All, All-imp, Bool-cases,
}
use model_relay.Python.Value.{Fields, get}
use model_relay.Python.Text.{is_blank}
use model_relay.Python.Runtime.{Runtime}
use model_relay.Routing.Outcome.{Outcome, found, found_injective, bind_found, branch_found}
use model_relay.Routing.Catalog.{
  RouteEntry, RouteCatalog, candidates, kept_entries, is_candidate, is_managed,
}
use model_relay.Routing.Requirements.{names_of, normalized}
use model_relay.Routing.Resolver.{
  Site, Verdict, qualified, rejected, Rejected, Survey, assess, survey, record_verdict, taken,
  decide,
}
use model_relay.Routing.Resolver.Binding.{
  RouteIntent, RouteBinding, provider_of, stripped, is_offering, with_offering, invalid_policy,
  bind_route, binding_of, scoped, adapted, select, resolve_among, resolve,
}
use model_relay.Routing.Resolver.Servable.{IsServable, assess-IsServable}

-- `e in es`, for the entry itself.
abbrev pub Listed : {F : Type 0} → RouteEntry F → List (RouteEntry F) → Type 0
Listed e [] = ⊥
Listed e (x ∷ xs) = (x ≡ e) ⊎ Listed e xs

module _ {F : Type 0} where
  All-Listed : (es : List (RouteEntry F)) → All (λ e. Listed e es) es
  All-Listed [] = tt
  All-Listed (e ∷ es) = (inl refl, All-imp es (λ x h. inr h) (All-Listed es))

  kept_entries-All :
      (P : RouteEntry F → Type 0) (p : RouteEntry F → Bool) (es : List (RouteEntry F))
      → All P es
      → All (λ e. P e × (p e ≡ true)) (kept_entries p es)
  unfolding kept_entries
  kept_entries-All P p [] h = tt
  kept_entries-All P p (e ∷ es) (a, h) = elim (Bool-cases (p e)) [
    | inl b ↦ rw b ((a, b), kept_entries-All P p es h)
    | inr b ↦ rw b (kept_entries-All P p es h)
  ]

  with_offering-All :
      (P : RouteEntry F → Type 0) (id : Option String) (es : List (RouteEntry F))
      → All P es
      → All P (with_offering id es)
  unfolding with_offering
  with_offering-All P none es h = h
  with_offering-All P (some id) [] h = tt
  with_offering-All P (some id) (e ∷ es) (a, h) = elim (Bool-cases (is_offering id e)) [
    | inl b ↦ rw b (a, with_offering-All P (some id) es h)
    | inr b ↦ rw b (with_offering-All P (some id) es h)
  ]

  module _ (test : RouteEntry F → Outcome Verdict) (P : RouteEntry F → Type 0) where
    -- What a survey selects is one of the entries, and qualifies.
    survey-selects :
        (cs : List (RouteEntry F)) {s : Survey F} {e : RouteEntry F}
        → survey test cs ≡ found s
        → s.selected ≡ some e
        → All P cs
        → P e × (test e ≡ found qualified)
    unfolding survey record_verdict
    survey-selects [] h k p = cc
    survey-selects (c ∷ cs) {s} {e} h k (p, ps) =
        let v = bind_found (test c) _ h in
        let r = bind_found (survey test cs) _ v.2 in
        recorded v.0 r.0 v.1 (λ o. survey-selects cs r.1 o ps) (rw (found_injective r.2) k)
      where
        recorded :
            (v : Verdict) (r : Survey F)
            → test c ≡ found v
            → (r.selected ≡ some e → P e × (test e ≡ found qualified))
            → (record_verdict c v r).selected ≡ some e
            → P e × (test e ≡ found qualified)
        recorded qualified r t later o =
            let same : c ≡ e = cc in subst (λ x. P x × (test x ≡ found qualified)) same (p, t)
        recorded (rejected reason detail) r t later o = later o

  taken-selected :
      (chosen : Option (RouteEntry F)) (rs bs : List (Rejected F)) {e : RouteEntry F}
      → taken chosen rs bs ≡ found e
      → chosen ≡ some e
  taken-selected chosen rs (b ∷ bs) h = cc
  taken-selected (some c) rs [] h = cc
  taken-selected none rs [] h = cc

-- The binding is that of a published entry for this model, which can be served and whose account is
-- known.
abbrev pub IsServed :
    (R : Runtime)
    → (String → String → Bool)
    → (S : Site R.F) → (RouteEntry R.F → RouteEntry R.F → Bool)
    → (Fields R.F → String)
    → RouteCatalog R.F
    → RouteIntent R.F
    → List String
    → RouteBinding R.F
    → Type 0
IsServed R glob S equal hash_json catalog q allowlist b =
    (e : RouteEntry R.F) × (scope : String) × (meta : Fields R.F) × Listed e catalog.entries
    × (is_candidate glob (is_managed catalog (provider_of q) (stripped q.model) S.deployment_id)
          (provider_of q) (stripped q.model) S.deployment_id e
        ≡ true)
    × IsServable R S allowlist e
    × (S.adapter e.connection_id ≡ some meta)
    × (S.account_scope e.connection_id ≡ inl scope)
    × (b ≡ binding_of R glob S equal hash_json catalog q e scope meta)

module _ (R : Runtime) (glob : String → String → Bool) (S : Site R.F)
    (equal : RouteEntry R.F → RouteEntry R.F → Bool) (hash_json : Fields R.F → String)
    (catalog : RouteCatalog R.F) (q : RouteIntent R.F) where
  open R use {F}

  -- Where an entry is bound, its adapter and its account are known.
  bound :
      (e : RouteEntry F) {b : RouteBinding F}
      → bind_route R glob S equal hash_json catalog q e ≡ found b
      → (scope : String) × (meta : Fields F) × (S.adapter e.connection_id ≡ some meta)
        × (S.account_scope e.connection_id ≡ inl scope)
        × (b ≡ binding_of R glob S equal hash_json catalog q e scope meta)
  unfolding bind_route
  bound e {b} h = of_adapter (S.adapter e.connection_id) refl h
    where
      of_scope :
          (meta : Fields F) (o : String ⊎ String)
          → S.account_scope e.connection_id ≡ o
          → scoped R glob S equal hash_json catalog q e meta o ≡ found b
          → (scope : String) × (S.account_scope e.connection_id ≡ inl scope)
            × (b ≡ binding_of R glob S equal hash_json catalog q e scope meta)
      of_scope meta (inl scope) k t = (scope, k, sym (found_injective t))
      of_scope meta (inr why) k t = cc

      of_adapter :
          (o : Option (Fields F))
          → S.adapter e.connection_id ≡ o
          → adapted R glob S equal hash_json catalog q e o ≡ found b
          → (scope : String) × (meta : Fields F) × (S.adapter e.connection_id ≡ some meta)
            × (S.account_scope e.connection_id ≡ inl scope)
            × (b ≡ binding_of R glob S equal hash_json catalog q e scope meta)
      of_adapter none k t = cc
      of_adapter (some meta) k t =
          let u = of_scope meta (S.account_scope e.connection_id) refl t in (u.0, meta, k, u.1, u.2)

  abbrev IsOffered : RouteEntry F → Type 0
  IsOffered e =
      Listed e catalog.entries
      × (is_candidate glob (is_managed catalog (provider_of q) (stripped q.model) S.deployment_id)
            (provider_of q) (stripped q.model) S.deployment_id e
          ≡ true)

  select-IsServed :
      (cs : List (RouteEntry F)) (allowlist : List String) (o : Option (RouteEntry F))
      {b : RouteBinding F}
      → select R glob S equal hash_json catalog q cs allowlist o ≡ found b
      → All IsOffered cs
      → IsServed R glob S equal hash_json catalog q allowlist b
  unfolding decide
  select-IsServed cs allowlist (some e) h p = cc
  select-IsServed cs allowlist none h p =
      let test = assess R S allowlist q.requirements (provider_of q) in
      let s = bind_found (survey test cs) _ h in
      let d = bind_found (decide equal cs s.0) _ s.2 in
      let chosen = taken-selected s.0.selected s.0.rejections _ d.1 in
      let e = survey-selects test IsOffered cs s.1 chosen p in
      let u = bound d.0 d.2 in
      (
        d.0,
        u.0,
        u.1,
        e.0.0,
        e.0.1,
        assess-IsServable R S allowlist q.requirements (provider_of q) d.0 e.1,
        u.2,
        u.3,
        u.4,
      )

  resolve_among-IsServed :
      (cs : List (RouteEntry F)) {b : RouteBinding F}
      → resolve_among R glob S equal hash_json catalog q cs ≡ found b
      → All IsOffered cs
      → (allowlist : List String) × (names_of R (get "channel_allowlist" q.requirements)
          ≡ found allowlist)
        × IsServed R glob S equal hash_json catalog q (normalized allowlist) b
  unfolding resolve_among
  resolve_among-IsServed [] h p = cc
  resolve_among-IsServed (c ∷ cs) h p =
      let n = bind_found (names_of R (get "channel_allowlist" q.requirements)) _ h in
      (n.0, n.1, select-IsServed (c ∷ cs) (normalized n.0) (invalid_policy (c ∷ cs)) n.2 p)

  -- A route that is resolved binds an entry of the catalogue for this provider, model and
  -- deployment, a managed one where the model is managed; its channel is allowed, its connection is
  -- enabled and configured, its adapter is registered, and that of files where it needs one, and
  -- the binding is made of this entry and of its account's scope.
  pub resolve-IsServed :
      {b : RouteBinding F}
      → resolve R glob S equal hash_json catalog q ≡ found b
      → (allowlist : List String) × (names_of R (get "channel_allowlist" q.requirements)
          ≡ found allowlist)
        × IsServed R glob S equal hash_json catalog q (normalized allowlist) b
  unfolding resolve candidates
  resolve-IsServed h =
      elim (branch_found (is_blank (provider_of q) || is_blank (stripped q.model)) _ _ h) [
        | inl (c, k) ↦ cc
        | inr (c, k) ↦ resolve_among-IsServed _ k (
            with_offering-All IsOffered q.offering_id _ (
              kept_entries-All (λ e. Listed e catalog.entries) _ catalog.entries
                (All-Listed catalog.entries)))
      ]
