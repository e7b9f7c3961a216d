-- ===== src/Cache/Planner/Screening.antt =====
-- What `build_unified_plan` of app/cache/planner.py keeps of the eligible mechanisms.
use model_relay.Prelude.{
  ◌≡◌, refl, ◌⊎◌, inl, inr, Bool, true, false, ◌||◌, ◌&&◌, not, Option, some, List, [], ◌∷◌, ◌++◌,
  arith, String, All, All-imp, length, take, Bool-cases, is_some, eq_iff,
}
use model_relay.Python.Value.{Fields}
use model_relay.Cache.Contracts.{
  Mechanism, breakpoint, implicit_prefix, Mode, Preference, Compatibility, composite_layered, ok,
  guarded_ok, same, same→eq, has, is_controlled,
}
use model_relay.Cache.Planner.Plan.{
  Candidate, Rejection, Common, CacheConditionSet, condition_set, UnifiedPlan, Screen, find,
  put_candidate, names, is_constrained, screen_one, screen, same_texts, is_included, is_layered,
  assemble, compatibility_of, plan_of, build_unified_plan, reject, start,
}

-- `c` stands in the list.
abbrev pub Among : {F : Type 0} → Candidate F → List (Candidate F) → Type 0
Among c [] = ⊥
Among c (d ∷ ds) = (d ≡ c) ⊎ Among c ds

-- `name` is rejected for some reason.
abbrev pub is_rejected : Mechanism → List Rejection → Bool
is_rejected m [] = false
is_rejected m (r ∷ rs) = same r.mechanism m || is_rejected m rs

same_refl : (m : Mechanism) → same m m ≡ true
same_refl Mechanism.stateful_resource = refl
same_refl _ = refl

is_rejected-append :
    (m : Mechanism) (rs ts : List Rejection)
    → is_rejected m (rs ++ ts) ≡ (is_rejected m rs || is_rejected m ts)
is_rejected-append m [] ts = refl
is_rejected-append m (r ∷ rs) ts = ground (arith, is_rejected-append m rs ts)

module _ {F : Type 0} where
  put_candidate-All :
      (P : Candidate F → Type 0) (c : Candidate F) (ds : List (Candidate F))
      → P c
      → All P ds
      → All P (put_candidate c ds)
  unfolding put_candidate
  put_candidate-All P c [] p h = (p, tt)
  put_candidate-All P c (d ∷ ds) p (q, h) = elim (Bool-cases (same d.mechanism c.mechanism)) [
    | inl e ↦ rw e (p, h)
    | inr e ↦ rw e (q, put_candidate-All P c ds p h)
  ]

  has-put_candidate :
      (m : Mechanism) (c : Candidate F) (ds : List (Candidate F))
      → has (names (put_candidate c ds)) m ≡ (same c.mechanism m || has (names ds) m)
  unfolding put_candidate
  has-put_candidate m c [] = refl
  has-put_candidate m c (d ∷ ds) =
      ground (arith, has-put_candidate m c ds, same→eq d.mechanism c.mechanism)

module _ {F : Type 0} (mode : Mode) (preference : Preference) (eligible : List (Candidate F)) where
  -- A kept candidate is one of the eligible, as it was handed over, and the caller allows it.
  abbrev pub IsKept : Candidate F → Type 0
  IsKept c = Among c eligible × (is_constrained mode preference c.mechanism ≡ false)

  -- A controlled track is the recorded one.
  abbrev pub IsRecorded : Option Mechanism → Candidate F → Type 0
  IsRecorded controlled c = (is_controlled c.mechanism ≡ false) ⊎ (controlled ≡ some c.mechanism)

  -- Whatever is kept of the controlled tracks is the recorded one.
  record Inv (s : Screen F) : Type 0 where
    kept : All IsKept s.allowed
    single : All (IsRecorded s.controlled) s.allowed

  -- Where no track is recorded, no kept candidate is controlled.
  forget :
      {o : Option Mechanism} (d : Candidate F) {p : Option Mechanism}
      → IsRecorded o d
      → is_some o ≡ false
      → IsRecorded p d
  forget d f n = ground arith

  screen_one-Inv :
      (c : Candidate F) (s : Screen F)
      → Among c eligible
      → Inv s
      → Inv (screen_one mode preference c s)
  unfolding screen_one
  screen_one-Inv c s a v = elim (Bool-cases (is_constrained mode preference c.mechanism)) [
    | inl e ↦ rw e (record { kept = v.kept; single = v.single })
    | inr e ↦ elim (Bool-cases (is_controlled c.mechanism)) [
      | inr n ↦
          rw (e, n)
            (record {
              kept = put_candidate-All IsKept c _ (a, e) v.kept;
              single = put_candidate-All (IsRecorded s.controlled) c _ (inl n) v.single;
            })
      | inl y ↦ elim (Bool-cases (is_some s.controlled)) [
        | inl o ↦ rw (e, y, o) (record { kept = v.kept; single = v.single })
        | inr o ↦
            rw (e, y, o)
              (record {
                kept = put_candidate-All IsKept c _ (a, e) v.kept;
                single =
                    put_candidate-All (IsRecorded (some c.mechanism)) c _ (inr refl)
                      (All-imp _ (λ d f. forget d f o) v.single);
              })
      ]
    ]
  ]

  abbrev is_accounted : Mechanism → Screen F → Bool
  is_accounted m s = has (names s.allowed) m || is_rejected m s.rejected

  screen_one-accounts :
      (c : Candidate F) (s : Screen F)
      → is_accounted c.mechanism (screen_one mode preference c s) ≡ true
  unfolding screen_one
  screen_one-accounts c s = ground (
    arith,
    same_refl c.mechanism,
    has-put_candidate c.mechanism c s.allowed,
    is_rejected-append c.mechanism s.rejected
        (reject c.mechanism "caller_mechanism_constraint" ∷ []),
    is_rejected-append c.mechanism s.rejected
        (reject c.mechanism "controlled_track_preference" ∷ []),
  )

  screen_one-keeps_accounted :
      (m : Mechanism) (c : Candidate F) (s : Screen F)
      → is_accounted m s ≡ true
      → is_accounted m (screen_one mode preference c s) ≡ true
  unfolding screen_one
  screen_one-keeps_accounted m c s h = ground (
    arith,
    has-put_candidate m c s.allowed,
    is_rejected-append m s.rejected (reject c.mechanism "caller_mechanism_constraint" ∷ []),
    is_rejected-append m s.rejected (reject c.mechanism "controlled_track_preference" ∷ []),
  )

  screen-Inv :
      (cs : List (Candidate F)) (s : Screen F)
      → All (λ c. Among c eligible) cs
      → Inv s
      → Inv (screen mode preference cs s)
  unfolding screen
  screen-Inv [] s h v = v
  screen-Inv (c ∷ cs) s (a, h) v = screen-Inv cs _ h (screen_one-Inv c s a v)

  screen-keeps_accounted :
      (m : Mechanism) (cs : List (Candidate F)) (s : Screen F)
      → is_accounted m s ≡ true
      → is_accounted m (screen mode preference cs s) ≡ true
  unfolding screen
  screen-keeps_accounted m [] s h = h
  screen-keeps_accounted m (c ∷ cs) s h =
      screen-keeps_accounted m cs _ (screen_one-keeps_accounted m c s h)

  screen-accounts :
      (cs : List (Candidate F)) (s : Screen F)
      → All (λ c. is_accounted c.mechanism (screen mode preference cs s) ≡ true) cs
  unfolding screen
  screen-accounts [] s = tt
  screen-accounts (c ∷ cs) s = (
    screen-keeps_accounted c.mechanism cs _ (screen_one-accounts c s),
    screen-accounts cs (screen_one mode preference c s),
  )

module _ {F : Type 0} where
  All-Among : (xs : List (Candidate F)) → All (λ d. Among d xs) xs
  All-Among [] = tt
  All-Among (x ∷ xs) = (inl refl, All-imp xs (λ d a. inr a) (All-Among xs))

same_texts→eq : (xs ys : List String) → same_texts xs ys ≡ true → xs ≡ ys
unfolding same_texts
same_texts→eq [] [] h = refl
same_texts→eq [] (y ∷ ys) h = cc
same_texts→eq (x ∷ xs) [] h = cc
same_texts→eq (x ∷ xs) (y ∷ ys) h = ground (arith, eq_iff x y, same_texts→eq xs ys)

nests_of :
    {F : Type 0} (c : Compatibility) (a b : Option (Candidate F)) {inner outer : Candidate F}
    → (is_layered c && not (is_included a b)) ≡ false
    → c ≡ composite_layered
    → a ≡ some inner
    → b ≡ some outer
    → inner.coverage_segment_ids
      ≡ take (length inner.coverage_segment_ids) outer.coverage_segment_ids
unfolding is_included
nests_of c a b {inner} {outer} h l x y = same_texts→eq inner.coverage_segment_ids _ (ground arith)

module _ {F : Type 0} (profile contract : Fields F) where
  -- The two facts that a plan's existence gives.
  assemble_ok :
      (common : Common F) (s : Screen F) {p : UnifiedPlan F}
      → assemble profile contract common s ≡ ok p
      → (plan_of common (compatibility_of profile contract s.controlled) s ≡ p)
        × ((is_layered (compatibility_of profile contract s.controlled)
              && not (is_included (find breakpoint s.allowed) (find implicit_prefix s.allowed)))
            ≡ false)
  unfolding assemble
  assemble_ok common s h = guarded_ok _ _ _ h

  module _ (c : CacheConditionSet F) where
    open c use {common, eligible, rejections}

    abbrev mode : Mode
    mode = common.requested_mode

    abbrev preference : Preference
    preference = common.requested_mechanism

    abbrev pub screened : Screen F
    screened = screen mode preference eligible (start rejections)

    kept : Inv mode preference eligible screened
    kept =
        screen-Inv mode preference eligible eligible _ (All-Among eligible)
          (record { kept = tt; single = tt })

    pub facts :
        {p : UnifiedPlan F}
        → build_unified_plan (condition_set c) profile contract ≡ ok p
        → (plan_of common (compatibility_of profile contract screened.controlled) screened ≡ p)
          × ((is_layered (compatibility_of profile contract screened.controlled)
                && not (
                    is_included
                      (find breakpoint screened.allowed)
                      (find implicit_prefix screened.allowed)))
              ≡ false)
    unfolding build_unified_plan
    facts h = assemble_ok common screened h

    -- In a plan built from a condition set every candidate is one of the eligible as handed over
    -- and not excluded by the caller's constraint, every controlled candidate is the recorded
    -- controlled track, and every eligible mechanism is a candidate or is named in the rejections.
    pub build_screens :
        {p : UnifiedPlan F}
        → build_unified_plan (condition_set c) profile contract ≡ ok p
        → All (IsKept mode preference eligible) p.candidates
          × All (IsRecorded mode preference eligible p.controlled_candidate) p.candidates
          × All
              (λ d.
                has (names p.candidates) d.mechanism
                  || is_rejected d.mechanism p.candidate_rejections
                ≡ true)
              eligible
    unfolding plan_of screen
    build_screens h = rw (← (facts h).0) (
      kept.kept,
      kept.single,
      screen-accounts mode preference eligible eligible (start rejections),
    )

    -- In a plan with layered tracks that has a breakpoint and an implicit candidate, the segments
    -- that the breakpoint covers are the first segments that the implicit prefix covers, in order.
    pub build_nests :
        {p : UnifiedPlan F} {inner outer : Candidate F}
        → build_unified_plan (condition_set c) profile contract ≡ ok p
        → p.compatibility ≡ composite_layered
        → find breakpoint p.candidates ≡ some inner
        → find implicit_prefix p.candidates ≡ some outer
        → inner.coverage_segment_ids
          ≡ take (length inner.coverage_segment_ids) outer.coverage_segment_ids
    unfolding plan_of
    build_nests {p} h l b i =
        let plan : plan_of common (compatibility_of profile contract screened.controlled) screened
            ≡ p =
          (facts h).0 in
        nests_of _ _ _ (facts h).1 (rw (← plan) at l) (rw (← plan) at b) (rw (← plan) at i)
