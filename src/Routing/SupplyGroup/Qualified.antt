-- ===== src/Routing/SupplyGroup/Qualified.antt =====
-- The supply that app/routing/gemini_supply_group.py gives a first request suits it.
use model_relay.Prelude.{
  String, ◌≡◌, refl, subst, ◌⊎◌, inl, inr, Bool, true, false, not, some, List, [], ◌∷◌, ◌++◌, All,
  All-imp, arith, Bool-cases, if◌then◌else◌,
}
use model_relay.Python.Value.{Value, Fields, end, get, is_text, as_dict}
use model_relay.Python.Runtime.{Runtime}
use model_relay.Routing.Outcome.{
  Outcome, found, failed, resolution, model_option, crash, found_injective, bind_found,
  branch_found,
}
use model_relay.ModelOptions.{Comparison}
use model_relay.ModelOptions.Contract.{ResolvedModelOptions}
use model_relay.ModelOptions.Legacy.{resolve_model_options, validate_structured_output_capability}
use model_relay.Routing.SupplyGroup.{
  Session, FirstRequest, native_required, prefer_chat, with_protocol, ordered, belongs, contract_of,
  check_candidate, settle_candidate, first_qualified, is_pinned, materialize_supply_group,
}

-- `c in cs`, for the candidate itself.
abbrev Frozen : {F : Type 0} → Fields F → List (Fields F) → Type 0
Frozen c [] = ⊥
Frozen c (x ∷ xs) = (x ≡ c) ⊎ Frozen c xs

module _ {F : Type 0} where
  All-Frozen : (cs : List (Fields F)) → All (λ c. Frozen c cs) cs
  All-Frozen [] = tt
  All-Frozen (c ∷ cs) = (inl refl, All-imp cs (λ x h. inr h) (All-Frozen cs))

  with_protocol-All :
      (P : Fields F → Type 0) (protocol : String) (cs : List (Fields F))
      → All P cs
      → All (λ c. P c × (is_text protocol (get "protocol" c) ≡ true)) (with_protocol protocol cs)
  unfolding with_protocol
  with_protocol-All P protocol [] h = tt
  with_protocol-All P protocol (c ∷ cs) (p, h) =
      elim (Bool-cases (is_text protocol (get "protocol" c))) [
        | inl b ↦ rw b ((p, b), with_protocol-All P protocol cs h)
        | inr b ↦ rw b (with_protocol-All P protocol cs h)
      ]

  append-All :
      (P : Fields F → Type 0) (xs ys : List (Fields F)) → All P xs → All P ys → All P (xs ++ ys)
  append-All P [] ys h k = k
  append-All P (x ∷ xs) ys (p, h) k = (p, append-All P xs ys h k)

  -- A candidate of the group whose protocol the request may take.
  abbrev IsEligible : Session F → FirstRequest F → Fields F → Type 0
  IsEligible s q c =
      Frozen c s.candidates
      × ((is_text "gemini_native" (get "protocol" c) ≡ true)
          ⊎ ((native_required s q ≡ false)
              × (is_text "chat_completions" (get "protocol" c) ≡ true)))

  ordered-IsEligible : (s : Session F) (q : FirstRequest F) → All (IsEligible s q) (ordered s q)
  ordered-IsEligible s q =
      let native =
        All-imp (with_protocol "gemini_native" s.candidates) (λ c (f, p). (f, inl p))
          (with_protocol-All (λ c. Frozen c s.candidates) "gemini_native" s.candidates
            (All-Frozen s.candidates)) in
      elim (Bool-cases (prefer_chat s q)) [
        | inl b ↦
            let text : native_required s q ≡ false = ground (arith, b) in
            rw b (
              append-All (IsEligible s q) (with_protocol "chat_completions" s.candidates) _
                (All-imp (with_protocol "chat_completions" s.candidates)
                  (λ c (f, p). (f, inr (text, p)))
                  (with_protocol-All (λ c. Frozen c s.candidates) "chat_completions" s.candidates
                    (All-Frozen s.candidates)))
                native)
        | inr b ↦ rw b native
      ]

-- It belongs to the Session's group, provider and model, and its contract admits the options and the
-- output that the request asks for.
abbrev pub IsQualified :
    (R : Runtime)
    → Comparison R.F
    → (String → String → Bool)
    → Session R.F
    → FirstRequest R.F
    → Fields R.F
    → Type 0
IsQualified R C glob s q c =
    IsEligible s q c
    × (belongs s c ≡ true)
    × ((r : ResolvedModelOptions R.F) × (resolve_model_options R C glob (some s.provider)
            (some s.model) q.options q.provider_payload q.think_level
            (as_dict (get "capability_contract" c))
          ≡ found r))
    × ((mode : String) × (validate_structured_output_capability R q.structured_output
            (as_dict (get "capability_contract" c))
          ≡ found mode))

module _ (R : Runtime) (C : Comparison R.F) (glob : String → String → Bool) (s : Session R.F)
    (q : FirstRequest R.F) where
  open R use {F}

  -- A candidate that is settled on passed the checks, or the next ones were tried.
  settled :
      (c : Fields F) (o : Outcome String) (rest : Outcome (Fields F)) {d : Fields F}
      → settle_candidate c o rest ≡ found d
      → ((c ≡ d) × ((mode : String) × (o ≡ found mode))) ⊎ (rest ≡ found d)
  settled c (found mode) rest h = inl (found_injective h, (mode, refl))
  settled c (failed (model_option code option)) rest h = inr h
  settled c (failed (resolution code connection reason)) rest h = cc
  settled c (failed crash) rest h = cc

  only_empty :
      (b : Bool) {d : Fields F} → (if b then failed crash else found end) ≡ found d → end ≡ d
  only_empty true h = cc
  only_empty false h = found_injective h

  contract_of-as_dict : (v : Value F) {d : Fields F} → contract_of R v ≡ found d → as_dict v ≡ d
  contract_of-as_dict (Value.dict d) h = found_injective h
  contract_of-as_dict Value.null h = only_empty _ h
  contract_of-as_dict (Value.bool b) h = only_empty _ h
  contract_of-as_dict (Value.int n) h = only_empty _ h
  contract_of-as_dict (Value.float x) h = only_empty _ h
  contract_of-as_dict (Value.text t) h = only_empty _ h
  contract_of-as_dict (Value.list l) h = only_empty _ h

  first_qualified-IsQualified :
      (cs : List (Fields F)) {d : Fields F}
      → first_qualified R C glob s q cs ≡ found d
      → All (IsEligible s q) cs
      → IsQualified R C glob s q d
  unfolding first_qualified check_candidate
  first_qualified-IsQualified [] h p = cc
  first_qualified-IsQualified (c ∷ cs) {d} h (p, ps) =
      elim (branch_found (not (belongs s c)) _ _ h) [
        | inl (b, k) ↦ first_qualified-IsQualified cs k ps
        | inr (b, k) ↦ elim (settled c (check_candidate R C glob s q c) _ k) [
          | inl (e, (mode, m)) ↦
              let k = bind_found (contract_of R (get "capability_contract" c)) _ m in
              let same = contract_of-as_dict (get "capability_contract" c) k.1 in
              let r =
                bind_found
                  (resolve_model_options R C glob (some s.provider) (some s.model) q.options
                    q.provider_payload q.think_level (as_dict (get "capability_contract" c)))
                  _ (rw (← same) at k.2) in
              subst (IsQualified R C glob s q) e (p, ground (arith, b), (r.0, r.1), (mode, r.2))
          | inr t ↦ first_qualified-IsQualified cs t ps
        ]
      ]

  -- If the route of a Session is not pinned and its first request materializes a supply, the supply
  -- is one of the frozen candidates, of the Session's group, provider and model, speaks the native
  -- protocol, or the chat protocol where no native one is required, and its contract admits the
  -- options and the structured output of the request.
  pub materialize_supply_group-IsQualified :
      {c : Fields F}
      → is_pinned s ≡ false
      → materialize_supply_group R C glob s q ≡ found c
      → IsQualified R C glob s q c
  unfolding materialize_supply_group
  materialize_supply_group-IsQualified free h =
      first_qualified-IsQualified (ordered s q) (rw free at h) (ordered-IsEligible s q)
