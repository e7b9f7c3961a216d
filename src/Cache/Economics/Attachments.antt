-- ===== src/Cache/Economics/Attachments.antt =====
-- `stable_attachment_evidence` of app/cache/economics.py.
pub mod Laws
use model_relay.Prelude.{
  ℕ, zero, suc, ◌+◌, max, ◌≤◌, ◌≡◌, refl, ◌==◌, String, Bool, true, false, not, ◌||◌, ◌&&◌, Option,
  none, some, List, [], ◌∷◌, arith, contains, or_default, leb, length, if◌then◌else◌,
}
use model_relay.Prelude.Int.{ℤ, pos}
use model_relay.Python.Value.{
  Value, Items, nil, cons, Fields, field, end, get, is_null, is_text, as_positive,
}
use model_relay.Python.Runtime.{Runtime, or_else, str, int_value, truthy}

pub record AttachmentEvidence : Type 0 where
  pub stable_attachment_count : ℕ
  pub stable_attachment_bytes : ℕ
  pub largest_stable_attachment_bytes : ℕ
  pub large_attachment_min_bytes : ℕ
  pub large_stable_attachment_candidate : Bool

abbrev pub total : List ℕ → ℕ
total [] = 0
total (n ∷ ns) = n + total ns

abbrev pub largest : List ℕ → ℕ
largest [] = 0
largest (n ∷ ns) = max n (largest ns)

-- `x if isinstance(x, list) else []`, for a list that the caller passes.
abbrev pub items_of : {F : Type 0} → Value F → Items F
items_of (Value.list xs) = xs
items_of _ = nil

-- A size counts where it is positive.
abbrev pub with_size : Option ℤ → List ℕ → List ℕ
with_size (some (pos (suc n))) sizes = suc n ∷ sizes
with_size _ sizes = sizes

module _ (R : Runtime) where
  open R use {F}

  -- `str(d.get(key) or "")`
  abbrev pub text_of : String → Fields F → String
  text_of key d = str R (or_else R (get key d) (Value.text ""))

  -- An attachment of the Session with a content digest.
  unfoldable pub is_stable : Fields F → Bool
  is_stable segment =
      is_text "material" (get "domain" segment)
      && (is_text "session_stable" (get "stability" segment)
          && truthy R (get "canonical_content_hash" segment))

  unfoldable pub stable_sources : Items F → List String
  unfolding is_stable
  stable_sources nil = []
  stable_sources (cons (Value.dict segment) rest) =
      let others = stable_sources rest in
      if is_stable segment then text_of "source_ref" segment ∷ others else others
  stable_sources (cons _ rest) = stable_sources rest

  -- `actual_size`, or `size_bytes` where that is None.
  abbrev raw_size : Fields F → Value F
  raw_size row =
      if is_null (get "actual_size" row) then get "size_bytes" row else get "actual_size" row

  unfoldable pub stable_sizes : List String → Items F → List ℕ
  stable_sizes stable nil = []
  stable_sizes stable (cons (Value.dict row) rest) =
      let others = stable_sizes stable rest in
      if contains stable (text_of "id" row)
      then with_size (int_value R (raw_size row)) others
      else others
  stable_sizes stable (cons _ rest) = stable_sizes stable rest

  abbrev pub threshold_of : Value F → ℕ
  threshold_of large_min_bytes = or_default 1_048_576 (as_positive large_min_bytes)

  summary : ℕ → List ℕ → AttachmentEvidence
  summary threshold sizes = record {
    stable_attachment_count = length sizes;
    stable_attachment_bytes = total sizes;
    largest_stable_attachment_bytes = largest sizes;
    large_attachment_min_bytes = threshold;
    large_stable_attachment_candidate = leb threshold (total sizes);
  }

  unfoldable pub stable_attachment_evidence :
      Fields F → Items F → Value F → String → AttachmentEvidence
  unfolding summary stable_sources stable_sizes
  stable_attachment_evidence context_plan material_rows large_min_bytes context_policy =
      summary (threshold_of large_min_bytes) (
        stable_sizes
          (if context_policy == "conversation"
            then stable_sources (items_of (get "segments" context_plan))
            else [])
          material_rows)
