-- ===== src/Cache/Breakpoints/Placement.antt =====
-- How many breakpoints app/cache/breakpoints.py places, and where.
use model_relay.Prelude.{
  ◌⊎◌, eq_iff, All-drop, All-contains, contains, zero, suc, ◌-◌, ◌≤◌, ◌<◌, ◌≡◌, refl, ap, String,
  Bool, true, false, Option, none, some, List, [], ◌∷◌, arith, All, length, length-last, last,
  Bool-cases, inl, inr, if◌then◌else◌,
}
use model_relay.Prelude.Int.{ℤ, pos, negsuc}
use model_relay.Python.Value.{Value, Fields, get, is_true}
use model_relay.Python.Runtime.{Runtime}
use model_relay.Cache.Contracts.{ok, ok_injective}
use model_relay.Cache.Breakpoints.{
  Segment, ContextPlan, Anchor, native, after_segment, is_provable, provable_domains,
  native_anchors, segment_anchors, native_limit, keep_last, placed, prepare_breakpoint_binding,
}

-- A block whose place the adapter can prove.
abbrev pub IsProvable : ContextPlan → String → Type 0
IsProvable plan d = (d ≡ "instructions") ⊎ ((d ≡ "history") × (0 < plan.history_version))

provable_domains-IsProvable :
    (plan : ContextPlan) (ss : List Segment) → All (IsProvable plan) (provable_domains plan ss)
unfolding provable_domains
provable_domains-IsProvable plan [] = tt
provable_domains-IsProvable plan (s ∷ ss) = elim (Bool-cases (is_provable plan s)) [
  | inl e ↦ rw e (
    ground (arith, eq_iff s.domain "instructions", eq_iff s.domain "history"),
    provable_domains-IsProvable plan ss,
  )
  | inr e ↦ rw e (provable_domains-IsProvable plan ss)
]

module _ {F : Type 0} where
  -- An anchor that its plan accounts for: a provable block, or a segment of the stable prefix.
  abbrev pub IsPlaced : ContextPlan → Bool → Anchor F → Type 0
  IsPlaced plan true (native d) = IsProvable plan d
  IsPlaced plan false (after_segment s ttl) = contains plan.stable_prefix_segment_ids s ≡ true
  IsPlaced plan _ _ = ⊥

  segment_anchors-IsPlaced :
      (plan : ContextPlan) (ttl : Value F) (ss : List String)
      → All (λ s. contains plan.stable_prefix_segment_ids s ≡ true) ss
      → All (IsPlaced plan false) (segment_anchors ttl ss)
  unfolding segment_anchors
  segment_anchors-IsPlaced plan ttl [] h = tt
  segment_anchors-IsPlaced plan ttl (s ∷ ss) (p, h) = (p, segment_anchors-IsPlaced plan ttl ss h)

native_anchors-IsPlaced :
    (F : Type 0) (plan : ContextPlan) (ds : List String)
    → All (IsProvable plan) ds
    → All (IsPlaced plan true) (native_anchors {F = F} ds)
unfolding native_anchors
native_anchors-IsPlaced F plan [] h = tt
native_anchors-IsPlaced F plan (d ∷ ds) (p, h) = (p, native_anchors-IsPlaced F plan ds h)

length-native_anchors :
    (F : Type 0) (ds : List String) → length (native_anchors {F = F} ds) ≡ length ds
unfolding native_anchors
length-native_anchors F [] = refl
length-native_anchors F (d ∷ ds) = ap suc (length-native_anchors F ds)

native_limit_bound :
    (composite : Bool) (n : ℤ) → native_limit composite n ≤ (if composite then 3 else 4)
native_limit_bound true n = omega arith
native_limit_bound false n = omega arith

module _ (R : Runtime) where
  open R use {F}

  keep_last-IsPlaced :
      (plan : ContextPlan) (n : ℤ) (anchors : List (Anchor F))
      → All (IsPlaced plan false) anchors
      → All (IsPlaced plan false) (keep_last R n anchors)
  keep_last-IsPlaced plan (pos zero) anchors h = h
  keep_last-IsPlaced plan (pos (suc n)) anchors h =
      All-drop (IsPlaced plan false) (length anchors - suc n) anchors h
  keep_last-IsPlaced plan (negsuc n) anchors h = h

  native_anchors_bound :
      (plan : ContextPlan) (composite : Bool) (n : ℤ)
      → length (
          native_anchors {F = F}
            (last (native_limit composite n) (provable_domains plan plan.segments)))
        ≤ (if composite then 3 else 4)
  native_anchors_bound plan composite n = rw length-native_anchors (
      omega (
        arith,
        length-last (native_limit composite n) (provable_domains plan plan.segments),
        native_limit_bound composite n,
      ))

  placed_lem :
      (config : Fields F) (composite : Bool) (plan : ContextPlan) (o : Option ℤ)
      {anchors : List (Anchor F)}
      → placed R config composite plan o ≡ ok anchors
      → All (IsPlaced plan (is_true (get "native_breakpoints" config))) anchors
        × ((is_true (get "native_breakpoints" config) ≡ false)
            ⊎ (length anchors ≤ (if composite then 3 else 4)))
  unfolding placed
  placed_lem config composite plan none h = cc
  placed_lem config composite plan (some n) h =
      elim (Bool-cases (is_true (get "native_breakpoints" config))) [
        | inl e ↦
            rw (e, ← ok_injective (rw e at h))
              (
                native_anchors-IsPlaced F plan _ (
                    All-drop (IsProvable plan) _ _
                      (provable_domains-IsProvable plan plan.segments)),
                inr (native_anchors_bound plan composite n),
              )
        | inr e ↦
            rw (e, ← ok_injective (rw e at h))
              (
                keep_last-IsPlaced plan n _ (
                    segment_anchors-IsPlaced plan _ _
                      (All-contains plan.stable_prefix_segment_ids)),
                inl refl,
              )
      ]

  -- Every anchor that is returned is, with native breakpoints, an instructions block or a history
  -- block of a committed history, and otherwise a segment of the stable prefix; native anchors are
  -- at most four, and at most three on layered tracks.
  pub breakpoints-IsPlaced :
      (config : Fields F) (composite : Bool) (plan : ContextPlan) {anchors : List (Anchor F)}
      → prepare_breakpoint_binding R config composite plan ≡ ok anchors
      → All (IsPlaced plan (is_true (get "native_breakpoints" config))) anchors
        × ((is_true (get "native_breakpoints" config) ≡ false)
            ⊎ (length anchors ≤ (if composite then 3 else 4)))
  unfolding prepare_breakpoint_binding
  breakpoints-IsPlaced config composite plan h = placed_lem config composite plan _ h
