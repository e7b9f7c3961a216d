-- ===== src/Cache/Economics/Attachments/Laws.antt =====
-- What the attachment signal of app/cache/economics.py counts.
use model_relay.Prelude.{
  ℕ, suc, ◌≤◌, ◌≡◌, refl, String, false, ◌==◌, Option, none, some, List, [], ◌∷◌, arith, Bool-cases,
  inl, inr, contains, length, leb, or_default, ◌⊎◌,
}
use model_relay.Prelude.Int.{ℤ, pos, negsuc}
use model_relay.Python.Value.{Value, Items, nil, cons, Fields, as_positive}
use model_relay.Python.Runtime.{Runtime}
use model_relay.Cache.Economics.Attachments.{
  total, largest, with_size, stable_sizes, text_of, threshold_of, stable_attachment_evidence,
}

largest-le-total : (ns : List ℕ) → largest ns ≤ total ns
largest-le-total [] = omega arith
largest-le-total (n ∷ ns) = omega (arith, largest-le-total ns)

with_size-grows :
    (o : Option ℤ) (ns : List ℕ)
    → length ns ≤ total ns
    → length (with_size o ns) ≤ total (with_size o ns)
with_size-grows none ns h = h
with_size-grows (some (pos ℕ.zero)) ns h = h
with_size-grows (some (pos (suc n))) ns h = omega arith
with_size-grows (some (negsuc n)) ns h = h

threshold_pos : {F : Type 0} (v : Value F) → leb (or_default 1_048_576 (as_positive v)) 0 ≡ false
threshold_pos v = ground arith

below : (a b : ℕ) → (leb a b ≡ false) ⊎ (a ≤ b)
below a b = ground arith

module _ (R : Runtime) where
  open R use {F}

  stable_sizes-nil : (rows : Items F) → stable_sizes R [] rows ≡ []
  unfolding stable_sizes
  stable_sizes-nil nil = refl
  stable_sizes-nil (cons (Value.dict row) rest) = stable_sizes-nil rest
  stable_sizes-nil (cons _ rest) = stable_sizes-nil rest

  length-stable_sizes :
      (ids : List String) (rows : Items F)
      → length (stable_sizes R ids rows) ≤ total (stable_sizes R ids rows)
  unfolding stable_sizes
  length-stable_sizes ids nil = omega arith
  length-stable_sizes ids (cons (Value.dict row) rest) =
      elim (Bool-cases (contains ids (text_of R "id" row))) [
        | inl e ↦ rw e (with_size-grows _ _ (length-stable_sizes ids rest))
        | inr e ↦ rw e (length-stable_sizes ids rest)
      ]
  length-stable_sizes ids (cons _ rest) = length-stable_sizes ids rest

  -- The largest stable attachment and the number of stable attachments are at most the byte total,
  -- and a large candidate is reported only where the total reaches the threshold.
  pub attachments_bound :
      (plan : Fields F) (rows : Items F) (least : Value F) (policy : String)
      → let e = stable_attachment_evidence R plan rows least policy in
        (e.largest_stable_attachment_bytes ≤ e.stable_attachment_bytes)
        × (e.stable_attachment_count ≤ e.stable_attachment_bytes)
        × ((e.large_stable_attachment_candidate ≡ false)
            ⊎ (threshold_of R least ≤ e.stable_attachment_bytes))
  unfolding stable_attachment_evidence
  attachments_bound plan rows least policy =
      (largest-le-total _, length-stable_sizes _ rows, below _ _)

  -- Under a context policy other than `conversation` no attachment counts as stable: the byte total
  -- is zero and there is no large candidate.
  pub attachments_need_conversation :
      (plan : Fields F) (rows : Items F) (least : Value F) (policy : String)
      → (policy == "conversation") ≡ false
      → let e = stable_attachment_evidence R plan rows least policy in
        (e.stable_attachment_bytes ≡ 0) × (e.large_stable_attachment_candidate ≡ false)
  unfolding stable_attachment_evidence
  attachments_need_conversation plan rows least policy h =
      rw (h, stable_sizes-nil) (refl, threshold_pos least)
