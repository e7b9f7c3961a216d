-- ===== src/Wire/Prefix.antt =====
-- `compute_lcp_diff` of app/core/cache_fingerprint.py: how far two chains agree, and why no further.
pub mod Agreement
use model_relay.Prelude.{
  ℕ, zero, suc, ◌+◌, ◌-◌, min, String, Bool, true, false, not, ◌&&◌, ◌||◌, Option, none, some, List,
  [], ◌∷◌, length, leb, ltb, is_empty, if◌then◌else◌,
}
use model_relay.Wire.Chain.{Digests, Block, Segment, Entry, legacy, block}

abbrev pub chained : {H : Type 0} → Entry H → H
chained (legacy s) = s.chained_prefix_hash
chained (block b) = b.chained_prefix_hash

abbrev pub tokens : {H : Type 0} → Entry H → ℕ
tokens (legacy s) = s.cumulative
tokens (block b) = b.cumulative

-- `.get("byte_end", 0)`
abbrev pub bytes : {H : Type 0} → Entry H → ℕ
bytes (legacy s) = 0
bytes (block b) = b.byte_end

-- `.get("semantic_hash")`
abbrev semantic : {H : Type 0} → Entry H → Option H
semantic (legacy s) = none
semantic (block b) = some b.semantic_hash

-- `chain and chain[0].get("format") == "relay-physical-chain/2"`
abbrev pub is_block_chain : {H : Type 0} → List (Entry H) → Bool
is_block_chain (block b ∷ es) = true
is_block_chain es = false

-- `es[n - 1] if n else {}`
abbrev pub entry_before : {H : Type 0} → ℕ → List (Entry H) → Option (Entry H)
entry_before zero es = none
entry_before (suc n) [] = none
entry_before (suc zero) (e ∷ es) = some e
entry_before (suc (suc n)) (e ∷ es) = entry_before (suc n) es

abbrev pub entry_at : {H : Type 0} → ℕ → List (Entry H) → Option (Entry H)
entry_at n es = entry_before (suc n) es

abbrev pub value_or {ℓ κ} : {A : Type ℓ} {B : Type κ} → B → (A → B) → Option A → B
value_or b f none = b
value_or b f (some a) = f a

-- `raw_bytes`, `chained_hash`, `comparable` and `suffix` are absent from a comparison in the older
-- format.
pub record LcpDiff (H : Type 0) : Type 0 where
  pub lcp_index : ℕ
  pub lcp_estimated_tokens : ℕ
  pub first_divergence_index : Option ℕ
  pub divergence_reason : String
  pub lcp_raw_bytes : Option ℕ
  pub lcp_chained_hash : Option H
  pub comparable : Option Bool
  pub suffix_estimated_tokens : Option ℕ

module _ {F : Type 0} (D : Digests F) where
  open D use {H, same}

  -- The loop over `zip(before, current)`.
  unfoldable pub common : List (Entry H) → List (Entry H) → ℕ
  common [] ys = 0
  common (a ∷ xs) [] = 0
  common (a ∷ xs) (b ∷ ys) =
      let rest = common xs ys in if same (chained a) (chained b) then suc rest else 0

  abbrev same_count : ℕ → ℕ → Bool
  same_count m n = leb m n && leb n m

  -- `index == len(previous) == len(current)`
  abbrev pub is_identical : ℕ → List (Entry H) → List (Entry H) → Bool
  is_identical n xs ys = same_count n (length xs) && same_count (length xs) (length ys)

  abbrev is_exhausted : ℕ → List (Entry H) → List (Entry H) → Bool
  is_exhausted n xs ys = same_count n (min (length xs) (length ys))

  abbrev same_semantic : Option H → Option H → Bool
  same_semantic none none = true
  same_semantic (some a) (some b) = same a b
  same_semantic _ _ = false

  abbrev semantic_at : ℕ → List (Entry H) → Option H
  semantic_at n es = value_or none semantic (entry_at n es)

  unfoldable pub legacy_lcp_diff : List (Entry H) → List (Entry H) → LcpDiff H
  legacy_lcp_diff previous current =
      let n = common previous current in
      let identical = is_identical n previous current in
      record {
        lcp_index = n;
        lcp_estimated_tokens = value_or 0 tokens (entry_before n current);
        first_divergence_index = if identical then none else some (suc n);
        divergence_reason =
            if identical
            then "none"
            else if is_exhausted n previous current
            then "length_changed"
            else "physical_segment_changed";
        lcp_raw_bytes = none;
        lcp_chained_hash = none;
        comparable = none;
        suffix_estimated_tokens = none;
      }

  -- The reason where the chains are comparable and differ.
  abbrev pub reason_of : ℕ → List (Entry H) → List (Entry H) → String
  reason_of n before current =
      if is_exhausted n before current
      then (if ltb (length before) (length current) then "length_extended" else "length_changed")
      else if same_semantic (semantic_at n before) (semantic_at n current)
      then "wire_projection_changed"
      else "content_changed"

  unfoldable pub block_lcp_diff : Bool → List (Entry H) → List (Entry H) → LcpDiff H
  block_lcp_diff comparable before current =
      let n = common before current in
      let identical = comparable && is_identical n before current in
      let prefix = entry_before n current in
      let prefix_tokens = value_or 0 tokens prefix in
      record {
        lcp_index = n;
        lcp_estimated_tokens = prefix_tokens;
        first_divergence_index = if identical then none else some (suc n);
        divergence_reason =
            if identical
            then "none"
            else if not comparable
            then "baseline_unavailable"
            else reason_of n before current;
        lcp_raw_bytes = some (value_or 0 bytes prefix);
        lcp_chained_hash = value_or none (λ e. some (chained e)) prefix;
        comparable = some comparable;
        suffix_estimated_tokens =
            some (value_or 0 tokens (entry_before (length current) current) - prefix_tokens);
      }

  unfoldable pub compute_lcp_diff : List (Entry H) → List (Entry H) → LcpDiff H
  compute_lcp_diff previous current =
      if is_block_chain current
      then block_lcp_diff (is_block_chain previous)
          (if is_block_chain previous then previous else []) current
      else legacy_lcp_diff previous current
