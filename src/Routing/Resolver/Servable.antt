-- ===== src/Routing/Resolver/Servable.antt =====
-- What the tests of app/routing/route_resolver.py on one candidate establish.
use model_relay.Prelude.{
  String, ◌≡◌, ◌≢◌, ◌⊎◌, inl, inr, true, false, not, ◌&&◌, Option, none, some, or_default, List,
  contains, is_empty, arith,
}
use model_relay.Python.Value.{Fields}
use model_relay.Python.Text.{lower}
use model_relay.Python.Runtime.{Runtime}
use model_relay.Routing.Outcome.{found, bind_found, branch_found}
use model_relay.Routing.Catalog.{RouteEntry}
use model_relay.Routing.Requirements.{entry_support}
use model_relay.Routing.Resolver.{
  Site, qualified, rejected, assess, assess_connection, assess_adapter, assess_file,
  assert_adapter_contract,
}

-- What the tests on a candidate establish.
abbrev pub IsServable : (R : Runtime) → Site R.F → List String → RouteEntry R.F → Type 0
IsServable R S allowlist e =
    ((is_empty allowlist ≡ true) ⊎ (contains allowlist (lower (or_default "" e.channel_id)) ≡ true))
    × (S.is_enabled e.connection_id ≡ true)
    × ((S.configuration e.connection_id).0 ≡ true)
    × ((e.requires_file_adapter ≡ false) ⊎ (S.file_adapter e.connection_id ≢ none))

module _ (R : Runtime) (S : Site R.F) (allowlist : List String) (requirements : Fields R.F)
    (provider : String) where
  open R use {F}

  file-servable :
      (e : RouteEntry F) (meta : Option (Fields F))
      → assess_file R S provider e meta ≡ found qualified
      → (e.requires_file_adapter ≡ false) ⊎ (meta ≢ none)
  file-servable e none h = inl (ground (arith, h))
  file-servable e (some meta) h = inr (λ k. cc)

  adapter-servable :
      (e : RouteEntry F) (meta : Option (Fields F))
      → assess_adapter R S provider e meta ≡ found qualified
      → (e.requires_file_adapter ≡ false) ⊎ (S.file_adapter e.connection_id ≢ none)
  adapter-servable e none h = cc
  adapter-servable e (some meta) h =
      file-servable e (S.file_adapter e.connection_id)
        (bind_found (assert_adapter_contract R e meta) _ h).2

  not-qualified :
      {reason : String} {detail : Option String} {A : Type 0}
      → found (rejected reason detail) ≡ found qualified
      → A
  not-qualified h = cc

  connection-servable :
      (e : RouteEntry F)
      → assess_connection R S provider e ≡ found qualified
      → (S.is_enabled e.connection_id ≡ true)
        × ((S.configuration e.connection_id).0 ≡ true)
        × ((e.requires_file_adapter ≡ false) ⊎ (S.file_adapter e.connection_id ≢ none))
  connection-servable e h = elim (branch_found (not (S.is_enabled e.connection_id)) _ _ h) [
    | inl (b, k) ↦ not-qualified k
    | inr (b, k) ↦ elim (branch_found (not (S.configuration e.connection_id).0) _ _ k) [
      | inl (c, l) ↦ not-qualified l
      | inr (c, l) ↦
          (ground (arith, b), ground (arith, c), adapter-servable e (S.adapter e.connection_id) l)
    ]
  ]

  pub assess-IsServable :
      (e : RouteEntry F)
      → assess R S allowlist requirements provider e ≡ found qualified
      → IsServable R S allowlist e
  unfolding assess
  assess-IsServable e h =
      elim (branch_found
        (not (is_empty allowlist) && not (contains allowlist (lower (or_default "" e.channel_id))))
        _ _ h) [
          | inl (b, k) ↦ not-qualified k
          | inr (b, k) ↦
              let s = bind_found (entry_support R requirements e) _ k in
              elim (branch_found (not s.0.0) _ _ s.2) [
                | inl (c, l) ↦ not-qualified l
                | inr (c, l) ↦ let t = connection-servable e l in (ground (arith, b), t.0, t.1, t.2)
              ]
        ]
