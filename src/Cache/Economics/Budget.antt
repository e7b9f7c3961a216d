-- ===== src/Cache/Economics/Budget.antt =====
-- The hard limit `max_new_resource_cost` of app/cache/economics.py, under every evaluator.
use model_relay.Prelude.{ℕ, ◌<◌, ◌≡◌, refl, Bool, true, false, Option, none, some, arith, and_true}
use model_relay.Prelude.Int
use model_relay.Prelude.Int.{ℤ}
use model_relay.Python.Value.{Value, Fields, as_positive}
use model_relay.Python.Runtime.{Runtime}
use model_relay.Cache.Contracts.{ok}
use model_relay.Cache.Economics.Numbers.{CostDecision}
use model_relay.Cache.Economics.Prices.{
  Rates, price_schedule, storage_rate, cap_of, creation_cost, storage_cost,
}
use model_relay.Cache.Economics.NewResource.{
  complete_rates, overhead, measured_new, evaluate_new_resource,
}
use model_relay.Cache.Economics.CurrentRead.{
  ReadRates, read_rates, observed_storage, budget_refusal, admit_read, measured_read,
  evaluate_current_read_resource,
}
use model_relay.Cache.Economics.Relative.{
  creation_money, budget_prices, limited, compared, measured_relative,
  evaluate_relative_cache_strategy,
}
use model_relay.Cache.Economics.Snapshot.{
  snapshot_rates, snapshot_cost, compare_snapshot, screened_snapshot, priced_snapshot,
  evaluate_v65_snapshot_cost,
}

module _ (R : Runtime) where
  open R use {F, lt, le, add}

  measured_new_within :
      (config : Fields F) (forced : Bool) (a b : Option ℕ) (r : Option (Rates F)) {cap : F}
      → (measured_new R config forced a b r).allow ≡ true
      → cap_of R config ≡ some cap
      → (n t : ℕ) × (rates : Rates F) × (a ≡ some n)
        × (b ≡ some t)
        × (r ≡ some rates)
        × (lt cap (overhead R n t rates) ≡ false)
  unfolding measured_new
  measured_new_within config forced (some n) (some t) (some r) h c =
      (n, t, r, refl, refl, refl, ground arith)
  measured_new_within config forced (some n) (some t) none h c = absurd (ground arith)
  measured_new_within config forced (some n) none r h c = absurd (ground arith)
  measured_new_within config forced none b r h c = absurd (ground arith)

  -- If `evaluate_new_resource` allows a resource, forced or not, while the policy has a hard limit,
  -- then the token count and the lifetime are positive integers, the price schedule is complete,
  -- and the limit is not below the cost of creation and storage at these prices.
  pub new_resource_within :
      (tokens ttl : Value F) (config : Fields F) (forced : Bool) {cap : F}
      → (evaluate_new_resource R tokens ttl config forced).allow ≡ true
      → cap_of R config ≡ some cap
      → (n t : ℕ) × (rates : Rates F) × (as_positive tokens ≡ some n)
        × (as_positive ttl ≡ some t)
        × (complete_rates R (price_schedule config) ≡ some rates)
        × (lt cap (overhead R n t rates) ≡ false)
  unfolding evaluate_new_resource
  new_resource_within tokens ttl config forced =
      measured_new_within config forced (as_positive tokens) (as_positive ttl) _

  -- The cost of a creation at known prices, storage included.
  abbrev pub IsWithin : F → F → Option F → Type 0
  IsWithin cap creation storage = (s : F) × (storage ≡ some s) × (lt cap (add creation s) ≡ false)

  budget_refusal-none :
      (cap creation : F) (storage : Option F)
      → budget_refusal R (some cap) creation storage ≡ none
      → IsWithin cap creation storage
  budget_refusal-none cap creation none h = cc
  budget_refusal-none cap creation (some s) h = (s, refl, ground arith)

  admit_read_allowed :
      (config : Fields F) (forced : Bool) (n a t : ℕ) (rates : ReadRates F) (storage : Option F)
      (r : Option _)
      → (admit_read R config forced n a t rates storage r).allow ≡ true
      → r ≡ none
  unfolding admit_read
  admit_read_allowed config forced n a t rates storage none h = refl
  admit_read_allowed config forced n a t rates storage (some r) h = cc

  measured_read-IsWithin :
      (config : Fields F) (forced : Bool) (a b c : Option ℕ) (r : Option (ReadRates F)) {cap : F}
      → (measured_read R config forced a b c r).allow ≡ true
      → cap_of R config ≡ some cap
      → (n t : ℕ) × (rates : ReadRates F) × (a ≡ some n)
        × (b ≡ some t)
        × (r ≡ some rates)
        × IsWithin cap
            (creation_cost R n rates.create)
            (observed_storage R n t (storage_rate R (price_schedule config)))
  unfolding measured_read
  measured_read-IsWithin config forced (some n) (some t) (some c) (some r) {cap} h e = (
    n,
    t,
    r,
    refl,
    refl,
    refl,
    budget_refusal-none cap _ _ (rw e at (admit_read_allowed config forced n c t r _ _ h)),
  )
  measured_read-IsWithin config forced (some n) (some t) (some c) none h e = absurd (ground arith)
  measured_read-IsWithin config forced (some n) (some t) none r h e = absurd (ground arith)
  measured_read-IsWithin config forced (some n) none c r h e = absurd (ground arith)
  measured_read-IsWithin config forced none b c r h e = absurd (ground arith)

  -- If `evaluate_current_read_resource` allows a resource, forced or not, while the policy has a
  -- hard limit, then the prices that it needs are known, storage has a price, and the limit is not
  -- below the sum of the creation and the storage cost.
  pub current_read-IsWithin :
      (tokens ttl : Value F) (config : Fields F) (forced : Bool) (already : Value F) {cap : F}
      → (evaluate_current_read_resource R tokens ttl config forced already).allow ≡ true
      → cap_of R config ≡ some cap
      → (n t : ℕ) × (rates : ReadRates F) × (as_positive tokens ≡ some n)
        × (as_positive ttl ≡ some t)
        × (read_rates R config ≡ some rates)
        × IsWithin cap
            (creation_cost R n rates.create)
            (observed_storage R n t (storage_rate R (price_schedule config)))
  unfolding evaluate_current_read_resource
  current_read-IsWithin tokens ttl config forced already =
      measured_read-IsWithin config forced (as_positive tokens) (as_positive ttl) _ _

  limited_within :
      (config : Fields F) (forced : Bool) (n t : ℕ) (net : F) (d : Fields F) (cap : F)
      (p : Option (F × F))
      → (limited R config forced n t net d (some cap) p).allow ≡ true
      → (prices : F × F) × (p ≡ some prices)
        × (lt cap (add (creation_money R n prices.0) (storage_cost R n t prices.1)) ≡ false)
  unfolding limited
  limited_within config forced n t net d cap none h = cc
  limited_within config forced n t net d cap (some (i, s)) h = ((i, s), refl, ground arith)

  compared_within :
      (config : Fields F) (forced : Bool) (n t a : ℕ) (m : F) {cap : F}
      → (compared R config forced true n t a m).allow ≡ true
      → cap_of R config ≡ some cap
      → (prices : F × F) × (budget_prices R (price_schedule config) ≡ some prices)
        × (lt cap (add (creation_money R n prices.0) (storage_cost R n t prices.1)) ≡ false)
  unfolding compared
  compared_within config forced n t a m {cap} h e =
      limited_within config forced n t _ _ cap _ (rw e at h)

  measured_relative_within :
      (config : Fields F) (forced : Bool) (a b c : Option ℕ) (m : Option F) {cap : F}
      {d : CostDecision F}
      → measured_relative R config forced true a b c m ≡ ok d
      → d.allow ≡ true
      → cap_of R config ≡ some cap
      → (n t : ℕ) × (prices : F × F) × (a ≡ some n)
        × (b ≡ some t)
        × (budget_prices R (price_schedule config) ≡ some prices)
        × (lt cap (add (creation_money R n prices.0) (storage_cost R n t prices.1)) ≡ false)
  unfolding measured_relative
  measured_relative_within config forced (some n) (some t) (some c) (some m) h p e =
      let s = compared_within config forced n t c m (ground arith) e in
      (n, t, s.0, refl, refl, s.1, s.2)
  measured_relative_within config forced (some n) (some t) (some c) none h p e =
      absurd (ground arith)
  measured_relative_within config forced (some n) (some t) none m h p e = absurd (ground arith)
  measured_relative_within config forced (some n) none c m h p e = absurd (ground arith)
  measured_relative_within config forced none b c m h p e = absurd (ground arith)

  -- If `evaluate_relative_cache_strategy`, told to enforce the limit, allows a resource, forced or
  -- not, while the policy has a hard limit, then the input and storage prices are known and
  -- labelled, and the limit is not below the money that creation and storage cost.
  pub relative_within :
      (tokens ttl : Value F) (config : Fields F) (forced : Bool) (already : Value F) {cap : F}
      {d : CostDecision F}
      → evaluate_relative_cache_strategy R tokens ttl config forced already true ≡ ok d
      → d.allow ≡ true
      → cap_of R config ≡ some cap
      → (n t : ℕ) × (prices : F × F) × (as_positive tokens ≡ some n)
        × (as_positive ttl ≡ some t)
        × (budget_prices R (price_schedule config) ≡ some prices)
        × (lt cap (add (creation_money R n prices.0) (storage_cost R n t prices.1)) ≡ false)
  unfolding evaluate_relative_cache_strategy
  relative_within tokens ttl config forced already =
      measured_relative_within config forced (as_positive tokens) (as_positive ttl) _ _

  compared_snapshot_within :
      (config : Fields F) (forced : Bool) (n a t : ℕ) (rates : Rates F) {cap : F}
      → (compare_snapshot R config forced n a t rates).allow ≡ true
      → cap_of R config ≡ some cap
      → le (snapshot_cost R n t rates) cap ≡ true
  unfolding compare_snapshot
  compared_snapshot_within config forced n a t rates h e = (and_true _ _ (rw e at h)).1

  screened_snapshot_within :
      (config : Fields F) (forced : Bool) (rates : Rates F) (x y z : Option ℕ) {cap : F}
      → (screened_snapshot R config forced rates x y z).allow ≡ true
      → cap_of R config ≡ some cap
      → (n a t : ℕ) × (x ≡ some n)
        × (y ≡ some a)
        × (z ≡ some t)
        × (a < n)
        × (le (snapshot_cost R n t rates) cap ≡ true)
  unfolding screened_snapshot
  screened_snapshot_within config forced rates (some n) (some a) (some t) h e = (
    n,
    a,
    t,
    refl,
    refl,
    refl,
    ground arith,
    compared_snapshot_within config forced n a t rates (ground arith) e,
  )
  screened_snapshot_within config forced rates (some n) (some a) none h e = cc
  screened_snapshot_within config forced rates (some n) none z h e = cc
  screened_snapshot_within config forced rates none y z h e = cc

  priced_snapshot_within :
      (config : Fields F) (forced : Bool) (tokens already ttl : ℤ) (r : Option (Rates F)) {cap : F}
      → (priced_snapshot R config forced tokens already ttl r).allow ≡ true
      → cap_of R config ≡ some cap
      → (rates : Rates F) × (n a t : ℕ) × (r ≡ some rates)
        × (Int.nonnegative tokens ≡ some n)
        × (Int.nonnegative already ≡ some a)
        × (Int.nonnegative ttl ≡ some t)
        × (a < n)
        × (le (snapshot_cost R n t rates) cap ≡ true)
  unfolding priced_snapshot
  priced_snapshot_within config forced tokens already ttl (some rates) h e =
      let s =
        screened_snapshot_within config forced rates (Int.nonnegative tokens)
          (Int.nonnegative already) (Int.nonnegative ttl) h e in
      (rates, s.0, s.1, s.2, refl, s.3, s.4, s.5, s.6, s.7)
  priced_snapshot_within config forced tokens already ttl none h e = absurd (ground arith)

  -- If `evaluate_v65_snapshot_cost` allows a snapshot, forced or not, while the policy has a hard
  -- limit, then all four prices are known, the tokens already cached are fewer than the tokens, and
  -- the cost of writing and storing is at most the limit.
  pub snapshot_within :
      (tokens ttl : ℤ) (config : Fields F) (forced : Bool) (already : ℤ) {cap : F}
      → (evaluate_v65_snapshot_cost R tokens ttl config forced already).allow ≡ true
      → cap_of R config ≡ some cap
      → (rates : Rates F) × (n a t : ℕ) × (snapshot_rates R (price_schedule config) ≡ some rates)
        × (Int.nonnegative tokens ≡ some n)
        × (Int.nonnegative already ≡ some a)
        × (Int.nonnegative ttl ≡ some t)
        × (a < n)
        × (le (snapshot_cost R n t rates) cap ≡ true)
  unfolding evaluate_v65_snapshot_cost
  snapshot_within tokens ttl config forced already =
      priced_snapshot_within config forced tokens already ttl _
