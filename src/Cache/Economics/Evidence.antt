-- ===== src/Cache/Economics/Evidence.antt =====
-- What app/cache/economics.py must know before it admits a resource.
use model_relay.Prelude.{◌⊎◌, ℕ, ◌≡◌, refl, String, Bool, true, false, Option, none, some, arith}
use model_relay.Prelude.Int
use model_relay.Prelude.Int.{ℤ, pos, negsuc}
use model_relay.Python.Value.{Value, Fields, get, is_true, as_positive}
use model_relay.Python.Runtime.{Runtime}
use model_relay.Cache.Contracts.{ok}
use model_relay.Cache.Economics.Numbers.{CostDecision, nonnegative}
use model_relay.Cache.Economics.Prices.{Rates, price_schedule}
use model_relay.Cache.Economics.CurrentRead.{
  ReadRates, read_rates, is_unverified_rate, admit_read, measured_read,
  evaluate_current_read_resource,
}
use model_relay.Cache.Economics.Relative.{
  approved_margin, observed_hit_rate, measured_relative, evaluate_relative_cache_strategy,
}
use model_relay.Cache.Economics.Snapshot.{
  snapshot_rates, snapshot_hit_rate, implicit_available, screened_snapshot, priced_snapshot,
  evaluate_v65_snapshot_cost,
}

module _ (R : Runtime) where
  open R use {F}

  abbrev pub certified : Fields F → Bool
  certified config = is_true (get "certified_implicit_alternative" config)

  abbrev pub estimated_rate : Fields F → Option F
  estimated_rate config = nonnegative R (get "estimated_implicit_hit_rate" config)

  admit_read_evidence :
      (config : Fields F) (n a t : ℕ) (rates : ReadRates F) (storage : Option F) (r : Option String)
      → (admit_read R config false n a t rates storage r).allow ≡ true
      → ((certified config ≡ false) ⊎ (is_unverified_rate R (estimated_rate config) ≡ false))
  unfolding admit_read
  admit_read_evidence config n a t rates storage (some r) h = cc
  admit_read_evidence config n a t rates storage none h = ground arith

  measured_read_evidence :
      (config : Fields F) (a b c : Option ℕ) (r : Option (ReadRates F))
      → (measured_read R config false a b c r).allow ≡ true
      → (rates : ReadRates F) × (r ≡ some rates)
        × ((certified config ≡ false) ⊎ (is_unverified_rate R (estimated_rate config) ≡ false))
  unfolding measured_read
  measured_read_evidence config (some n) (some t) (some c) (some r) h =
      (r, refl, admit_read_evidence config n c t r _ _ h)
  measured_read_evidence config (some n) (some t) (some c) none h = cc
  measured_read_evidence config (some n) (some t) none r h = cc
  measured_read_evidence config (some n) none c r h = cc
  measured_read_evidence config none b c r h = cc

  -- If `evaluate_current_read_resource` allows a resource that is not forced, the prices that it
  -- needs are known, and a certified implicit alternative, if there is one, has a verified hit
  -- rate.
  pub current_read_evidence :
      (tokens ttl : Value F) (config : Fields F) (already : Value F)
      → (evaluate_current_read_resource R tokens ttl config false already).allow ≡ true
      → (rates : ReadRates F) × (read_rates R config ≡ some rates)
        × ((certified config ≡ false) ⊎ (is_unverified_rate R (estimated_rate config) ≡ false))
  unfolding evaluate_current_read_resource
  current_read_evidence tokens ttl config already =
      measured_read_evidence config (as_positive tokens) (as_positive ttl) _ _

  measured_relative_evidence :
      (config : Fields F) (enforce : Bool) (a b c : Option ℕ) (m : Option F) {d : CostDecision F}
      → measured_relative R config false enforce a b c m ≡ ok d
      → d.allow ≡ true
      → (margin : F) × (m ≡ some margin)
        × ((implicit_available R config ≡ false)
            ⊎ (is_unverified_rate R (observed_hit_rate R config) ≡ false))
  unfolding measured_relative
  measured_relative_evidence config enforce (some n) (some t) (some c) (some m) h p =
      (m, refl, ground arith)
  measured_relative_evidence config enforce (some n) (some t) (some c) none h p =
      absurd (ground arith)
  measured_relative_evidence config enforce (some n) (some t) none m h p = absurd (ground arith)
  measured_relative_evidence config enforce (some n) none c m h p = absurd (ground arith)
  measured_relative_evidence config enforce none b c m h p = absurd (ground arith)

  -- If `evaluate_relative_cache_strategy` allows a resource that is not forced, the policy repeats
  -- the approved ratios with a usable margin, and an implicit alternative, certified or on trial,
  -- if there is one, has a verified observed hit rate.
  pub relative_evidence :
      (tokens ttl : Value F) (config : Fields F) (already : Value F) (enforce : Bool)
      {d : CostDecision F}
      → evaluate_relative_cache_strategy R tokens ttl config false already enforce ≡ ok d
      → d.allow ≡ true
      → (margin : F) × (approved_margin R config ≡ some margin)
        × ((implicit_available R config ≡ false)
            ⊎ (is_unverified_rate R (observed_hit_rate R config) ≡ false))
  unfolding evaluate_relative_cache_strategy
  relative_evidence tokens ttl config already enforce =
      measured_relative_evidence config enforce (as_positive tokens) (as_positive ttl) _ _

  screened_snapshot_evidence :
      (config : Fields F) (rates : Rates F) (x y z : Option ℕ)
      → (screened_snapshot R config false rates x y z).allow ≡ true
      → y ≡ some 0
      → implicit_available R config ≡ true
      → is_unverified_rate R (snapshot_hit_rate R config) ≡ false
  unfolding screened_snapshot
  screened_snapshot_evidence config rates (some n) (some a) (some t) h e i = ground arith
  screened_snapshot_evidence config rates (some n) (some a) none h e i = cc
  screened_snapshot_evidence config rates (some n) none z h e i = cc
  screened_snapshot_evidence config rates none y z h e i = cc

  priced_snapshot_evidence :
      (config : Fields F) (tokens already ttl : ℤ) (r : Option (Rates F))
      → (priced_snapshot R config false tokens already ttl r).allow ≡ true
      → already ≡ pos 0
      → implicit_available R config ≡ true
      → (rates : Rates F) × (r ≡ some rates)
        × (is_unverified_rate R (snapshot_hit_rate R config) ≡ false)
  unfolding priced_snapshot
  priced_snapshot_evidence config tokens already ttl (some r) h z i = (
    r,
    refl,
    screened_snapshot_evidence config r (Int.nonnegative tokens) (Int.nonnegative already)
        (Int.nonnegative ttl) h (rw z) i,
  )
  priced_snapshot_evidence config tokens already ttl none h z i = cc

  -- If `evaluate_v65_snapshot_cost` allows a snapshot that is not forced, with nothing cached yet
  -- and an implicit alternative at hand, then all four prices are known and the hit rate, observed
  -- or forecast for a cold start, is verified.
  pub snapshot_evidence :
      (tokens ttl : ℤ) (config : Fields F) (already : ℤ)
      → (evaluate_v65_snapshot_cost R tokens ttl config false already).allow ≡ true
      → already ≡ pos 0
      → implicit_available R config ≡ true
      → (rates : Rates F) × (snapshot_rates R (price_schedule config) ≡ some rates)
        × (is_unverified_rate R (snapshot_hit_rate R config) ≡ false)
  unfolding evaluate_v65_snapshot_cost
  snapshot_evidence tokens ttl config already = priced_snapshot_evidence config tokens already ttl _
