-- ===== src/Cache/Resolver/Threshold/Evidence.antt =====
-- What app/cache/intent_resolver.py knows of a mechanism that it calls eligible.
use model_relay.Prelude.{
  ℕ, ◌+◌, String, ◌≡◌, refl, ◌⊎◌, inl, inr, Bool, true, false, not, ◌&&◌, Option, none, some,
  is_some, List, [], ◌∷◌, arith, All, length, if◌then◌else◌,
}
use model_relay.Python.Value.{Fields, get, as_int, as_count, as_positive}
use model_relay.Python.Runtime.{Runtime}
use model_relay.Cache.Contracts.{Mechanism, has, ok, ok_injective, bind_ok}
use model_relay.Cache.Resolver.Threshold.{
  Context, Reading, Screened, refused, accepted, Eligible, Outcome, reaches, is_provider_managed,
  threshold_mode, cacheable_minimum, measured, is_gemini_implicit, reading_of, is_guarded, verdict,
  prepared_config, screen_mechanism, record_round, screen_ordered,
}

module _ (R : Runtime) where
  open R use {F}

  -- Why the length of the prefix is not in doubt: a trial, a threshold of the provider's own, or a
  -- lower bound that reaches the minimum.
  abbrev pub IsMet : Context F → Mechanism → Fields F → Type 0
  IsMet x m cfg =
      (has x.trials m ≡ true)
      ⊎ ((is_provider_managed (threshold_mode R cfg) ≡ true) × (is_gemini_implicit R x m ≡ false))
      ⊎ ((n : ℕ) × (as_count (cacheable_minimum R cfg) ≡ some n)
          × (reaches n (as_int (get "lower" x.assessment)) ≡ true))

  -- What stands in where it is in doubt: the guard that is checked again before dispatch, and for
  -- Gemini's implicit prefix a positive minimum.
  abbrev pub IsDeferred : Context F → Mechanism → Fields F → Type 0
  IsDeferred x m cfg =
      (is_guarded R cfg ≡ true)
      × ((is_gemini_implicit R x m ≡ false)
          ⊎ (is_some (as_positive (cacheable_minimum R cfg)) ≡ true))

  abbrev pub IsEligible : Context F → Mechanism → Fields F → Bool → Type 0
  IsEligible x m cfg u =
      (prepared_config R x m ≡ ok cfg)
      × (x.has_prefix ≡ true)
      × (((u ≡ false) × IsMet x m cfg) ⊎ ((u ≡ true) × IsDeferred x m cfg))

  measured-certain :
      (a : Fields F) (o : Option ℕ)
      → measured R a o ≡ Reading.certain
      → (n : ℕ) × (o ≡ some n) × (reaches n (as_int (get "lower" a)) ≡ true)
  unfolding measured
  measured-certain a none h = cc
  measured-certain a (some n) h = (n, refl, ground arith)

  reading_of-certain :
      (x : Context F) (m : Mechanism) (cfg : Fields F)
      → reading_of R x m cfg ≡ Reading.certain
      → (x.has_prefix ≡ true) × IsMet x m cfg
  unfolding reading_of
  reading_of-certain x m cfg h =
      ground (arith, measured-certain x.assessment (as_count (cacheable_minimum R cfg)))

  reading_of-uncertain :
      (x : Context F) (m : Mechanism) (cfg : Fields F)
      → reading_of R x m cfg ≡ Reading.uncertain
      → x.has_prefix ≡ true
  unfolding reading_of
  reading_of-uncertain x m cfg h = ground arith

  abbrev Accepted : Bool → Fields F → Reading → Fields F → Bool → Type 0
  Accepted g cfg r c u =
      (cfg ≡ c)
      × (((r ≡ Reading.certain) × (u ≡ false))
          ⊎ ((r ≡ Reading.uncertain)
              × (u ≡ true)
              × (is_guarded R cfg ≡ true)
              × ((g ≡ false) ⊎ (is_some (as_positive (cacheable_minimum R cfg)) ≡ true))))

  guarded_lem :
      (a g p : Bool) (cfg : Fields F) (v w : String) {c : Fields F} {u : Bool}
      → (if not a then refused v else if g && not p then refused w else accepted cfg true)
        ≡ accepted c u
      → (cfg ≡ c) × (u ≡ true) × (a ≡ true) × ((g ≡ false) ⊎ (p ≡ true))
  guarded_lem a g p cfg v w h = ground arith

  verdict-Accepted :
      (g : Bool) (cfg : Fields F) (r : Reading) {c : Fields F} {u : Bool}
      → verdict R g cfg r ≡ accepted c u
      → Accepted g cfg r c u
  unfolding verdict
  verdict-Accepted g cfg Reading.below h = cc
  verdict-Accepted g cfg Reading.certain h = (ground arith, inl (refl, ground arith))
  verdict-Accepted g cfg Reading.uncertain h =
      let s = guarded_lem (is_guarded R cfg) g _ cfg _ _ h in (s.0, inr (refl, s.1, s.2, s.3))

  verdict-IsEligible :
      (x : Context F) (m : Mechanism) (cfg : Fields F) (u : Bool)
      → prepared_config R x m ≡ ok cfg
      → Accepted (is_gemini_implicit R x m) cfg (reading_of R x m cfg) cfg u
      → IsEligible x m cfg u
  verdict-IsEligible x m cfg u e (_, inl (r, f)) =
      let s = reading_of-certain x m cfg r in (e, s.0, inl (f, s.1))
  verdict-IsEligible x m cfg u e (_, inr (r, f, g, p)) =
      (e, reading_of-uncertain x m cfg r, inr (f, (g, p)))

  screen_mechanism-IsEligible :
      (x : Context F) (m : Mechanism) {cfg : Fields F} {u : Bool}
      → screen_mechanism R x m ≡ ok (accepted cfg u)
      → IsEligible x m cfg u
  unfolding screen_mechanism
  screen_mechanism-IsEligible x m {cfg} {u} h =
      let s = bind_ok (prepared_config R x m) _ h in
      let v =
        verdict-Accepted (is_gemini_implicit R x m) s.0 (reading_of R x m s.0) (ok_injective s.2) in
      verdict-IsEligible x m cfg u (rw (← v.0) s.1) (rw v.0 at v)

  abbrev pub Holds : Context F → Eligible F → Type 0
  Holds x e = IsEligible x e.mechanism e.config e.uncertain

  record_round-Holds :
      (x : Context F) (m : Mechanism) (r : Screened F) (o : Outcome F)
      → screen_mechanism R x m ≡ ok r
      → All (Holds x) o.eligible
      → All (Holds x) (record_round R m r o).eligible
  unfolding record_round
  record_round-Holds x m (refused w) o e h = h
  record_round-Holds x m (accepted c u) o e h = (screen_mechanism-IsEligible x m e, h)

  length-record_round :
      (m : Mechanism) (r : Screened F) (o : Outcome F)
      → length (record_round R m r o).eligible + length (record_round R m r o).rejections
        ≡ 1 + (length o.eligible + length o.rejections)
  unfolding record_round
  length-record_round m (refused w) o = omega arith
  length-record_round m (accepted c u) o = omega arith

  -- If the loop over the ordered mechanisms ends without an exception, the eligible and the
  -- rejected ones together are as many as the ordered, and for each eligible one the prefix is not
  -- empty and its configuration is the one that the loop prepared; its length is either certain by
  -- a trial, a threshold of the provider's own or a lower bound that reaches the minimum, or it is
  -- deferred to the final guard, for Gemini's implicit prefix only with a positive minimum.
  pub screen_ordered-Holds :
      (x : Context F) (ms : List Mechanism) {o : Outcome F}
      → screen_ordered R x ms ≡ ok o
      → All (Holds x) o.eligible × (length o.eligible + length o.rejections ≡ length ms)
  unfolding screen_ordered
  screen_ordered-Holds x [] h = rw (← ok_injective h) (tt, refl)
  screen_ordered-Holds x (m ∷ ms) h =
      let s = bind_ok (screen_mechanism R x m) _ h in
      let t = bind_ok (screen_ordered R x ms) _ s.2 in
      let rest = screen_ordered-Holds x ms t.1 in
      rw (← ok_injective t.2) (
        record_round-Holds x m s.0 t.0 s.1 rest.0,
        omega (arith, length-record_round m s.0 t.0, rest.1),
      )
