-- ===== src/Cache/Affinity.antt =====
-- `drift_reason` of app/cache/affinity.py: whether the last answers of a Session show that it has
-- left the upstream that holds its prefix.
pub mod Streak
use model_relay.Prelude.{
  ℕ, zero, suc, ◌+◌, String, ◌≡◌, refl, ◌⊎◌, inl, inr, Bool, true, false, not, ◌||◌, ◌&&◌, Option,
  none, some, List, [], ◌∷◌, ◌==◌, leb, ltb, length, if◌then◌else◌,
}
use model_relay.Prelude.Int.{ℤ, pos, negsuc}
use model_relay.Python.Value.{
  Value, Fields, field, end, get, get_or, is_true, is_false, is_text, nat,
}
use model_relay.Python.Runtime.{Runtime, truthy, str, zero_f}
use model_relay.Python.Text.{lower}
use model_relay.Cache.Contracts.{Result, ok, raised, ◌>>=◌, value_error}

-- A row of the chain, the newest first, with its id as it prints, and its audit of this epoch.
pub record Row (F : Type 0) : Type 0 where
  pub id : String
  pub cache_usage : Value F
  pub completed_at : Value F

pub record Audited (F : Type 0) : Type 0 where
  pub row : Row F
  pub audit : Fields F

-- The keyword arguments. `between a b` is `(a - b).total_seconds()` of two printed times and `age a`
-- the same for the clock and a time, with `none` where the interpreter raises one of the exceptions
-- that the loop catches.
pub record Settings (F : Type 0) : Type 0 where
  pub epoch : ℕ
  pub min_tokens : ℕ
  pub warm_seconds : F
  pub consecutive : ℕ
  pub strategy : String
  pub between : Value F → Value F → Option F
  pub age : Value F → Option F

module _ {F : Type 0} where
  abbrev mapping : Value F → Result (Fields F)
  mapping (Value.dict d) = ok d
  mapping _ = raised value_error

  abbrev pub is_zero_read : Value F → Bool
  is_zero_read (Value.int (pos zero)) = true
  is_zero_read _ = false

  abbrev pub is_empty_audit : Fields F → Bool
  is_empty_audit end = true
  is_empty_audit (field _ _ _) = false

module _ (R : Runtime) where
  open R use {F, lt, le, of_nat}

  -- `(x or {})` where a mapping is read from it
  unfoldable pub mapping_or_empty : Value F → Result (Fields F)
  mapping_or_empty v = if truthy R v then mapping v else ok end

  -- `x == n`
  abbrev same_number : ℕ → Value F → Bool
  same_number n (Value.bool true) = leb 1 n && leb n 1
  same_number n (Value.bool false) = leb n 0
  same_number n (Value.int (pos m)) = leb m n && leb n m
  same_number n (Value.float x) = le x (of_nat n) && le (of_nat n) x
  same_number n _ = false

  -- `audit if isinstance(audit, dict) and audit.get("affinity_epoch") == epoch else {}`
  abbrev of_epoch : ℕ → Value F → Fields F
  of_epoch n (Value.dict d) = if same_number n (get "affinity_epoch" d) then d else end
  of_epoch n _ = end

  unfoldable pub audits : ℕ → List (Row F) → Result (List (Audited F))
  audits n [] = ok []
  audits n (r ∷ rs) = do
    usage ← mapping_or_empty r.cache_usage
    rest ← audits n rs
    ok (record { row = r; audit = of_epoch n (get "affinity_audit" usage) } ∷ rest)

  -- `x < n`
  abbrev pub is_below : Value F → ℕ → Result Bool
  is_below (Value.bool true) n = ok (ltb 1 n)
  is_below (Value.bool false) n = ok (ltb 0 n)
  is_below (Value.int (pos m)) n = ok (ltb m n)
  is_below (Value.int (negsuc m)) n = ok true
  is_below (Value.float x) n = ok (lt x (of_nat n))
  is_below _ n = raised value_error

  -- `0 <= x <= warm_seconds`
  abbrev pub is_warm : F → Option F → Bool
  is_warm bound none = false
  is_warm bound (some x) = le (zero_f R) x && le x bound

  module _ (s : Settings F) where
    -- The tests of one round on the audit, after the two that need no other mapping.
    unfoldable pub is_observed : Fields F → String → Result Bool
    is_observed audit older = do
      diff ← mapping_or_empty (get "prefix_diff" audit)
      short ← is_below (get_or (nat 0) "lcp_estimated_tokens" diff) s.min_tokens
      ok (
          not short
          && (not (is_false (get "comparable" diff))
              && is_text older (get "compared_request_id" audit)))

    -- One round of the loop; `first` is the loop's variable.
    unfoldable pub is_miss : Bool → Audited F → Row F → Result Bool
    is_miss first a older =
        if is_true (get "implicit_active" a.audit) && is_zero_read (get "read_tokens" a.audit)
        then (do
          observed ← is_observed a.audit older.id
          ok (
              observed
              && (is_warm s.warm_seconds (s.between a.row.completed_at older.completed_at)
                  && (not first || is_warm s.warm_seconds (s.age a.row.completed_at)))))
        else ok false

    -- The loop over the first `n` pairs of neighbours.
    unfoldable pub misses : Bool → ℕ → List (Audited F) → Result Bool
    misses first zero rows = ok true
    misses first (suc n) [] = ok true
    misses first (suc n) (a ∷ []) = ok true
    misses first (suc n) (a ∷ b ∷ bs) = do
      missed ← is_miss first a b.row
      let rest = misses false n (b ∷ bs) in if missed then rest else ok false

    -- The answers of the upstream's router, and then the streak.
    unfoldable pub routed_reason : List (Audited F) → Fields F → Result (Option String)
    unfolding misses
    routed_reason audited headers =
        if lower (str R (get "x-aihubmix-router-fallback" headers)) == "true"
        then ok (some "upstream_router_fallback")
        else if lower (str R (get "x-aihubmix-router-sticky" headers)) == "false"
        then ok (some "upstream_router_unstuck")
        else if ltb (length audited) (suc s.consecutive)
        then ok none
        else do
          missed ← misses true s.consecutive audited
          ok (if missed then some "consecutive_warm_prefix_misses" else none)

    unfoldable pub reason_of : List (Audited F) → Result (Option String)
    unfolding routed_reason
    reason_of [] = ok none
    reason_of (a ∷ rest) =
        if is_empty_audit a.audit
        then ok none
        else if is_true (get "handle_rejected_before_expiry" a.audit)
        then ok (some "unexpired_handle_inaccessible")
        else if s.strategy == "STATEFUL_HANDLE_STATUS_ONLY"
        then ok none
        else do headers ← mapping_or_empty (get "route" a.audit); routed_reason (a ∷ rest) headers

    unfoldable pub drift_reason : List (Row F) → Result (Option String)
    unfolding reason_of
    drift_reason rows = do audited ← audits s.epoch rows; reason_of audited
