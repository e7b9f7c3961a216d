-- ===== src/Routing/Resolver/Reference.antt =====
-- `RouteResolver.resolve` of app/routing/route_resolver.py tests every candidate and decides by
-- positions; here is the walk that stops at the first candidate that settles the route.
use model_relay.Prelude.{
  ◌≤◌, ◌<◌, ◌≡◌, refl, sym, ◌∙◌, subst, ◌⊎◌, inl, inr, String, Bool, true, false, Option, none,
  some, List, [], ◌∷◌, ◌++◌, All, All-imp, length, arith, Bool-cases, ltb, if◌then◌else◌,
}
use mathlib.Core.List.{append-nil}
use model_relay.Routing.Outcome.{Outcome, found, failed, ◌>>=◌, found_injective, bind_found}
use model_relay.Routing.Catalog.{RouteEntry}
use model_relay.Routing.Resolver.{
  Verdict, qualified, rejected, Rejected, Survey, survey, record_verdict, index_of, is_strict,
  blocking, taken, selected_index, decide, no_eligible_candidate_error, fallback_forbidden,
}
use model_relay.Routing.Resolver.Positions.{
  snoc-append, All-snoc, length-snoc, length-cons-append, everywhere, index_of-le, index_of-later,
  blocking-none, blocking-append,
}

module _ {F : Type 0} where
  -- The first candidate that qualifies is the route, and the first strict one that does not ends the
  -- search.
  abbrev settle :
      RouteEntry F → Verdict → (Rejected F → Outcome (RouteEntry F)) → Outcome (RouteEntry F)
  settle e qualified next = found e
  settle e (rejected reason detail) next =
      let r : Rejected F = record { entry = e; reason = reason; detail = detail } in
      if is_strict e then failed (fallback_forbidden r) else next r

  -- `seen` are the rejections so far.
  unfoldable pub first_route :
      (RouteEntry F → Outcome Verdict)
      → List (Rejected F)
      → List (RouteEntry F)
      → Outcome (RouteEntry F)
  first_route test seen [] = failed (no_eligible_candidate_error seen)
  first_route test seen (e ∷ es) = do
    verdict ← test e
    settle e verdict (λ r. first_route test (seen ++ (r ∷ [])) es)

  module _ (equal : RouteEntry F → RouteEntry F → Bool) where
    module _ (test : RouteEntry F → Outcome Verdict) where
      abbrev IsRejected : RouteEntry F → Type 0
      IsRejected e =
          (reason : String) × (detail : Option String) × (test e ≡ found (rejected reason detail))

      recorded-qualified :
          (c : RouteEntry F) (v : Verdict) (r : Survey F) {e : RouteEntry F}
          → test c ≡ found v
          → (r.selected ≡ some e → test e ≡ found qualified)
          → (record_verdict c v r).selected ≡ some e
          → test e ≡ found qualified
      unfolding record_verdict
      recorded-qualified c qualified r t later k = subst (λ x. test x ≡ found qualified) (cc) t
      recorded-qualified c (rejected reason detail) r t later k = later k

      -- What a survey selects has qualified.
      survey-qualified :
          (cs : List (RouteEntry F)) {s : Survey F} {e : RouteEntry F}
          → survey test cs ≡ found s
          → s.selected ≡ some e
          → test e ≡ found qualified
      unfolding survey
      survey-qualified [] h k = cc
      survey-qualified (c ∷ cs) {s} {e} h k =
          let v = bind_found (test c) _ h in
          let r = bind_found (survey test cs) _ v.2 in
          recorded-qualified c v.0 r.0 v.1 (survey-qualified cs r.1) (rw (found_injective r.2) k)

      -- Entries that are equal are tested alike, and are strict alike.
      module _ (equal_refl : (e : RouteEntry F) → equal e e ≡ true)
          (equal_tested : (a b : RouteEntry F) → equal a b ≡ true → test a ≡ test b)
          (equal_strict : (a b : RouteEntry F) → equal a b ≡ true → is_strict a ≡ is_strict b) where
        differs : (y x : RouteEntry F) → IsRejected y → test x ≡ found qualified → equal y x ≡ false
        differs y x (reason, detail, t) q = elim (Bool-cases (equal y x)) [
          | inl e ↦ absurd (absurd_of (sym t ∙ (equal_tested y x e ∙ q)))
          | inr e ↦ e
        ]
          where
            absurd_of :
                {reason : String} {detail : Option String}
                → found (rejected reason detail) ≡ found qualified
                → ⊥
            absurd_of h = cc

        after_rejected :
            (before : List (RouteEntry F)) (x : RouteEntry F) (es : List (RouteEntry F))
            → All IsRejected before
            → test x ≡ found qualified
            → length before ≤ index_of equal (before ++ es) x
        after_rejected before x es h q =
            index_of-later equal before x es (All-imp before (λ y r. differs y x r q) h)

        after_lenient :
            (before : List (RouteEntry F)) (x : RouteEntry F) (es : List (RouteEntry F))
            → All (λ y. is_strict y ≡ false) before
            → (is_strict x ≡ false) ⊎ (length before ≤ index_of equal (before ++ es) x)
        after_lenient before x es h = elim (Bool-cases (is_strict x)) [
          | inl e ↦ inr (index_of-later equal before x es (All-imp before (λ y l. unequal y l e) h))
          | inr e ↦ inl e
        ]
          where
            unequal :
                (y : RouteEntry F) → is_strict y ≡ false → is_strict x ≡ true → equal y x ≡ false
            unequal y l e = elim (Bool-cases (equal y x)) [
              | inl k ↦ cc (equal_strict y x k)
              | inr k ↦ k
            ]

        -- A strict rejection right after lenient ones stands before what is selected later.
        before_selected :
            (before : List (RouteEntry F)) (e : RouteEntry F) (es : List (RouteEntry F))
            {s : Survey F}
            → All IsRejected before
            → IsRejected e
            → survey test es ≡ found s
            → index_of equal (before ++ (e ∷ es)) e
              < selected_index equal (before ++ (e ∷ es)) s.selected
        before_selected before e es {s} h r t = chosen s.selected refl
          where
            chosen :
                (o : Option (RouteEntry F))
                → s.selected ≡ o
                → index_of equal (before ++ (e ∷ es)) e
                  < selected_index equal (before ++ (e ∷ es)) s.selected
            chosen none k = rw k (
                omega
                  (arith, index_of-le equal equal_refl before e es, length-cons-append before e es))
            chosen (some x) k =
                let l =
                  after_rejected (before ++ (e ∷ [])) x es (All-snoc IsRejected before e h r)
                    (survey-qualified es t k) in
                rw k (
                  omega (
                    arith,
                    index_of-le equal equal_refl before e es,
                    length-snoc before e,
                    rw (snoc-append before e es) at l,
                  ))

        -- The decision over a survey, where the entries before were rejected and are lenient.
        abbrev decision :
            List (RouteEntry F) → List (Rejected F) → Survey F → Outcome (RouteEntry F)
        decision cs seen s =
            taken s.selected (seen ++ s.rejections)
              (blocking equal cs (selected_index equal cs s.selected) (seen ++ s.rejections))

        abbrev as_rejected : RouteEntry F → String → Option String → Rejected F
        as_rejected e reason detail = record { entry = e; reason = reason; detail = detail }

        nothing_blocks :
            (before : List (RouteEntry F)) (e : RouteEntry F) (es : List (RouteEntry F))
            (rs : List (Rejected F))
            → All (λ y. is_strict y ≡ false) before
            → blocking equal (before ++ (e ∷ es)) (index_of equal (before ++ (e ∷ es)) e) rs ≡ []
        nothing_blocks before e es rs l =
            blocking-none equal (before ++ (e ∷ es)) _ rs
              (everywhere _ (λ r. bounded r (after_lenient before r.entry (e ∷ es) l)) rs)
          where
            bounded :
                (r : Rejected F)
                → (is_strict r.entry ≡ false)
                  ⊎ (length before ≤ index_of equal (before ++ (e ∷ es)) r.entry)
                → (is_strict r.entry ≡ false)
                  ⊎ (index_of equal (before ++ (e ∷ es)) e
                      ≤ index_of equal (before ++ (e ∷ es)) r.entry)
            bounded r (inl k) = inl k
            bounded r (inr k) = inr (omega (arith, k, index_of-le equal equal_refl before e es))

        -- One step; `later` is the claim for the entries that follow.
        decision_settles :
            (before : List (RouteEntry F)) (e : RouteEntry F) (es : List (RouteEntry F))
            (seen : List (Rejected F)) (v : Verdict) {s : Survey F}
            → All IsRejected before
            → All (λ y. is_strict y ≡ false) before
            → All (λ r. is_strict r.entry ≡ false) seen
            → test e ≡ found v
            → survey test es ≡ found s
            → ((r : Rejected F)
                → r.entry ≡ e
                → IsRejected e
                → is_strict e ≡ false
                → decision ((before ++ (e ∷ [])) ++ es) (seen ++ (r ∷ [])) s
                  ≡ first_route test (seen ++ (r ∷ [])) es)
            → decision (before ++ (e ∷ es)) seen (record_verdict e v s)
              ≡ settle e v (λ r. first_route test (seen ++ (r ∷ [])) es)
        unfolding record_verdict blocking
        decision_settles before e es seen qualified {s} h l k t u later =
            rw
              (
                blocking-append equal (before ++ (e ∷ es)) (index_of equal (before ++ (e ∷ es)) e)
                    seen s.rejections k,
                nothing_blocks before e es s.rejections l,
              )
              refl
        decision_settles before e es seen (rejected reason detail) {s} h l k t u later =
            let r = as_rejected e reason detail in
            let i = before_selected before e es h (reason, detail, t) u in
            let limit = selected_index equal (before ++ (e ∷ es)) s.selected in
            elim (Bool-cases (is_strict e)) [
              | inl b ↦
                  let j : ltb (index_of equal (before ++ (e ∷ es)) e) limit ≡ true =
                    ground (arith, i) in
                  rw
                    (
                      blocking-append equal (before ++ (e ∷ es)) limit seen (r ∷ s.rejections) k,
                      b,
                      j,
                    )
                    refl
              | inr b ↦
                  let next = later r refl (reason, detail, t) b in
                  rw b (rw (snoc-append before e es, snoc-append seen r s.rejections) at next)
            ]

        decision-first_route :
            (before es : List (RouteEntry F)) (seen : List (Rejected F)) {s : Survey F}
            → All IsRejected before
            → All (λ y. is_strict y ≡ false) before
            → All (λ r. is_strict r.entry ≡ false) seen
            → survey test es ≡ found s
            → decision (before ++ es) seen s ≡ first_route test seen es
        unfolding first_route survey
        decision-first_route before [] seen h l k u =
            rw
              (
                ← found_injective u,
                blocking-append equal (before ++ []) (length (before ++ [])) seen [] k,
              )
              (unfold blocking in rw (append-nil seen) refl)
        decision-first_route before (e ∷ es) seen h l k u =
            let v = bind_found (test e) _ u in
            let r = bind_found (survey test es) _ v.2 in
            rw (v.1, ← found_injective r.2)
              (decision_settles before e es seen v.0 h l k v.1 r.1 (λ x same q b.
                decision-first_route (before ++ (e ∷ [])) es (seen ++ (x ∷ []))
                  (All-snoc IsRejected before e h q)
                  (All-snoc (λ y. is_strict y ≡ false) before e l b)
                  (All-snoc (λ y. is_strict y.entry ≡ false) seen x k (rw same b)) r.1))

        -- If no test of a candidate raises, the decision over all of them is that of the walk which
        -- stops at the first candidate that qualifies, with it as the route, or at the first strict
        -- one that does not, with the error that forbids a fallback, and which at the end reports
        -- the rejections; equal entries are tested alike and are strict alike.
        pub decide-first_route :
            (cs : List (RouteEntry F)) {s : Survey F}
            → survey test cs ≡ found s
            → decide equal cs s ≡ first_route test [] cs
        unfolding decide
        decide-first_route cs h = decision-first_route [] cs [] tt tt tt h
