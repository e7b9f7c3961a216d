-- ===== src/Cache/Resolver/Gates/Policy.antt =====
-- Which requests pass the tests of app/cache/intent_resolver.py, and which are refused.
use model_relay.Prelude.{
  String, ◌≡◌, refl, ◌⊎◌, inl, inr, Bool, true, false, not, ◌||◌, ◌&&◌, Option, none, some, List,
  ◌==◌, arith, is_empty, eq_iff, if◌then◌else◌,
}
use model_relay.Python.Value.{Fields, get}
use model_relay.Python.Runtime.{Runtime, truthy}
use model_relay.Cache.Contracts.{
  Mechanism, implicit_prefix, has, Preference, mode_is_on, mode_is_auto, is_auto, Error, Result, ok,
  raised,
}
use model_relay.Cache.Planner.Plan.{Rejection}
use model_relay.Cache.Resolver.Admission.{Supply, Admission, is_unset, is_gemini}
use model_relay.Cache.Resolver.Gates.{
  has_preferred, first_reason, is_unproved, is_denied, is_shared, admission_gate, forced_gate,
  final_refusal,
}

not-false : (b : Bool) → not b ≡ false → b ≡ true
not-false b h = ground arith

-- Five reasons and one exception, in the order of the tests.
degrade :
    (a b c d e f : Bool) (v w x y z : String) (k : Error)
    → (d ≡ true)
      ⊎ ((o : Option String) × (◌≡◌ {A = Result (Option String)}
            (if a
              then ok (some v)
              else if b
              then ok (some w)
              else if c
              then ok (some x)
              else if d
              then raised k
              else if e
              then ok (some y)
              else if f
              then ok (some z)
              else ok none)
            (ok o)))
degrade true b c d e f v w x y z k = inr (some v, refl)
degrade false true c d e f v w x y z k = inr (some w, refl)
degrade false false true d e f v w x y z k = inr (some x, refl)
degrade false false false true e f v w x y z k = inl refl
degrade false false false false true f v w x y z k = inr (some y, refl)
degrade false false false false false true v w x y z k = inr (some z, refl)
degrade false false false false false false v w x y z k = inr (none, refl)

either :
    (b : Bool) (v w : String)
    → (r : String) × (◌≡◌ {A = Result String} (if b then ok v else ok w) (ok r))
either true v w = (v, refl)
either false v w = (w, refl)

-- The tests of the end under `on`, as Booleans: watchdog, short, explicit, upgraded, unclear.
forced_end :
    (w b e u c g : Bool) (x y : String) (j k l : Error) {r : String}
    → (if w && b
        then ok x
        else if e && not (u && b)
        then raised j
        else if not (b || c) || (u && c)
        then raised k
        else if c && g
        then raised l
        else ok y)
      ≡ ok r
    → (b ≡ true) ⊎ ((c ≡ true) × (u ≡ false) × (e ≡ false) × (g ≡ false))
forced_end w b e u c g x y j k l h = ground arith

module _ (R : Runtime) where
  open R use {F}

  -- A request passes the tests after admission only if a mechanism is admitted, the preferred one
  -- where one is preferred, the admission rests on some proof, and the policy neither denies the
  -- cache, nor shares it across Sessions, nor switches it off for `auto`.
  pub admission_gate_passes :
      (s : Supply F) (preference : Preference) (policy : Fields F) (a : Admission)
      → admission_gate R s preference policy a ≡ ok none
      → (is_empty a.admitted ≡ false)
        × (is_unproved R s a ≡ false)
        × (is_denied R policy ≡ false)
        × (is_shared R policy ≡ false)
        × ((mode_is_auto s.mode ≡ false) ⊎ (truthy R (get "auto_disabled" policy) ≡ false))
        × ((is_auto preference ≡ true) ⊎ (has_preferred a.admitted preference ≡ true))
  unfolding admission_gate
  admission_gate_passes s preference policy a h = ground arith

  -- Under `auto` or `off` the only exception of the tests after admission is that of a policy that
  -- shares across Sessions, the forced test never raises, and where nothing is eligible the request
  -- gets a plan without a cache.
  pub gates_degrade :
      (s : Supply F) (preference : Preference) (policy : Fields F) (a : Admission) (watchdog : Bool)
      (ordered eligible : List Mechanism) (rejections : List Rejection)
      → mode_is_on s.mode ≡ false
      → ((is_shared R policy ≡ true)
          ⊎ ((o : Option String) × (admission_gate R s preference policy a ≡ ok o)))
        × (forced_gate R s.mode preference eligible rejections ≡ ok none)
        × ((r : String) × (final_refusal R s watchdog ordered rejections ≡ ok r))
  unfolding admission_gate forced_gate final_refusal
  gates_degrade s preference policy a watchdog ordered eligible rejections m = rw m (
    degrade (is_empty a.admitted) (is_unproved R s a) (is_denied R policy) (is_shared R policy)
        (mode_is_auto s.mode && truthy R (get "auto_disabled" policy))
        (not (is_auto preference) && not (has_preferred a.admitted preference)) _ _ _
        "auto_policy_skip" "requested_mechanism_unavailable" _,
    refl,
    either _ _ _,
  )

  -- Under `on`, where nothing is eligible, the request ends without a cache and without an
  -- exception only if the first rejection says that the prefix is too short, or, for a request
  -- without upgrade and without an explicit mechanism, that its length is uncertain, unless the
  -- implicit prefix of Gemini was among the ordered mechanisms.
  pub forced_refusal :
      (s : Supply F) (watchdog : Bool) (ordered : List Mechanism) (rejections : List Rejection)
      {r : String}
      → final_refusal R s watchdog ordered rejections ≡ ok r
      → mode_is_on s.mode ≡ true
      → (first_reason rejections ≡ "below_minimum")
        ⊎ ((first_reason rejections ≡ "context_assessment_uncertain")
            × (is_unset R s.upgrade ≡ true)
            × (s.mechanism_explicit ≡ false)
            × ((is_gemini s && has ordered implicit_prefix) ≡ false))
  unfolding final_refusal
  forced_refusal s watchdog ordered rejections h m =
      elim (forced_end watchdog (first_reason rejections == "below_minimum") s.mechanism_explicit
        (not (is_unset R s.upgrade)) (first_reason rejections == "context_assessment_uncertain")
        (is_gemini s && has ordered implicit_prefix) _ _ _ _ _ (rw m at h)) [
          | inl b ↦ inl ((eq_iff _ _).0 b)
          | inr (c, u, e, g) ↦ inr ((eq_iff _ _).0 c, not-false _ u, e, g)
        ]
