-- ===== src/Cache/Resolver/Unified/Order.antt =====
-- The order of preference and the screening loop of app/cache/intent_resolver.py keep to the
-- mechanisms that they are given.
use model_relay.Prelude.{◌≡◌, subst, inl, inr, true, List, [], ◌∷◌, ◌++◌, All, Bool-cases}
use model_relay.Python.Value.{Fields, get}
use model_relay.Python.Runtime.{Runtime, truthy}
use model_relay.Cache.Contracts.{
  Mechanism, same, same→eq, has, ok, ok_injective, bind_ok, branch_ok,
}
use model_relay.Cache.Resolver.Admission.{iterate, known}
use model_relay.Cache.Resolver.Threshold.{
  Context, Outcome, Screened, accepted, refused, screen_mechanism, record_round, screen_ordered,
}
use model_relay.Cache.Resolver.Unified.{
  among, missing, order_of, mechanisms, ordered_of, preferred_order,
}

module _ (P : Mechanism → Type 0) where
  -- What holds of all holds of a member.
  pub member_of : (ms : List Mechanism) (m : Mechanism) → All P ms → has ms m ≡ true → P m
  member_of [] m h t = cc
  member_of (x ∷ ms) m (p, h) t = elim (Bool-cases (same x m)) [
    | inl e ↦ subst P (same→eq x m e) p
    | inr e ↦ member_of ms m h (rw e at t)
  ]

  append-All : (xs ys : List Mechanism) → All P xs → All P ys → All P (xs ++ ys)
  append-All [] ys h k = k
  append-All (x ∷ xs) ys (p, h) k = (p, append-All xs ys h k)

  among-All : (xs ys : List Mechanism) → All P ys → All P (among xs ys)
  unfolding among
  among-All [] ys h = tt
  among-All (x ∷ xs) ys h = elim (Bool-cases (has ys x)) [
    | inl e ↦ rw e (member_of ys x h e, among-All xs ys h)
    | inr e ↦ rw e (among-All xs ys h)
  ]

  missing-All : (xs ys : List Mechanism) → All P xs → All P (missing xs ys)
  unfolding missing
  missing-All [] ys h = tt
  missing-All (x ∷ xs) ys (p, h) = elim (Bool-cases (has ys x)) [
    | inl e ↦ rw e (missing-All xs ys h)
    | inr e ↦ rw e (p, missing-All xs ys h)
  ]

  order_of-All :
      (preferred candidates : List Mechanism)
      → All P candidates
      → All P (order_of preferred candidates)
  order_of-All preferred candidates h =
      append-All (among preferred candidates) _ (among-All preferred candidates h)
        (missing-All candidates _ h)

module _ (R : Runtime) where
  open R use {F}

  pub ordered_of-All :
      (P : Mechanism → Type 0) (policy : Fields F) (candidates : List Mechanism)
      {ordered : List Mechanism}
      → ordered_of R policy candidates ≡ ok ordered
      → All P candidates
      → All P ordered
  unfolding ordered_of preferred_order
  ordered_of-All P policy candidates h p =
      elim (branch_ok (truthy R (get "mechanism_preference" policy)) _ _ h) [
        | inl b ↦
            let s = bind_ok (iterate R (get "mechanism_preference" policy)) _ b in
            rw (← ok_injective s.2) (order_of-All P (known s.0) candidates p)
        | inr b ↦ rw (← ok_injective b) (order_of-All P candidates candidates p)
      ]

  record_round-All :
      (P : Mechanism → Type 0) (m : Mechanism) (r : Screened F) (o : Outcome F)
      → P m
      → All P (mechanisms o.eligible)
      → All P (mechanisms (record_round R m r o).eligible)
  unfolding record_round mechanisms
  record_round-All P m (refused w) o p h = h
  record_round-All P m (accepted c u) o p h = (p, h)

  nothing-All : (P : Mechanism → Type 0) → All P (mechanisms {F = F} [])
  unfolding mechanisms
  nothing-All P = tt

  pub screen_ordered-All :
      (P : Mechanism → Type 0) (x : Context F) (ms : List Mechanism) {o : Outcome F}
      → screen_ordered R x ms ≡ ok o
      → All P ms
      → All P (mechanisms o.eligible)
  unfolding screen_ordered
  screen_ordered-All P x [] h p = rw (← ok_injective h) (nothing-All P)
  screen_ordered-All P x (m ∷ ms) h (p, q) =
      let s = bind_ok (screen_mechanism R x m) _ h in
      let t = bind_ok (screen_ordered R x ms) _ s.2 in
      rw (← ok_injective t.2) (record_round-All P m s.0 t.0 p (screen_ordered-All P x ms t.1 q))
