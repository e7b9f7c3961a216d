-- ===== src/Wire/Prefix/Agreement.antt =====
-- What `compute_lcp_diff` of app/core/cache_fingerprint.py says of the bytes of two payloads.
use Prim.Native.String.{len, slice, ◌++◌ as ◌⧺◌}
use text.Mathlib.TextLemmas.{append_assoc, append-nil, nil-append}
use text.Mathlib.TextPositions.{slice-append_left, len-append}
use model_relay.Prelude.{
  ℕ, zero, suc, ◌+◌, ◌≤◌, ◌<◌, String, ◌≡◌, ◌≢◌, refl, ap, sym, ◌∙◌, ◌⊎◌, inl, inr, true, false,
  Option, none, some, List, [], ◌∷◌, length, take, drop, arith, Bool-cases, ltb,
}
use model_relay.Python.Value.{Fields}
use model_relay.Wire.Json.{Json, serialize_wire}
use model_relay.Wire.Fragments.{Fragment, raw, wire_fragments, walk}
use model_relay.Wire.Fragments.Partition.{joined, joined-wire_fragments}
use model_relay.Wire.Chain.{Digests, Material, Entry, block_of, blocks_from, physical_chain}
use model_relay.Wire.Prefix.{
  common, compute_lcp_diff, block_lcp_diff, entry_before, is_identical, bytes, value_or,
}

module _ {F : Type 0} where
  joined-split :
      (k : ℕ) (fs : List (Fragment F)) → joined (take k fs) ⧺ joined (drop k fs) ≡ joined fs
  joined-split zero fs = nil-append (joined fs)
  joined-split (suc k) [] = nil-append ""
  joined-split (suc k) (f ∷ fs) =
      append_assoc (raw f) (joined (take k fs)) (joined (drop k fs))
      ∙ ap (λ s. raw f ⧺ s) (joined-split k fs)

  -- The first fragments are a first stretch of the text.
  slice-joined :
      (k : ℕ) (fs : List (Fragment F))
      → slice (joined fs) 0 (len (joined (take k fs))) ≡ joined (take k fs)
  slice-joined k fs =
      rw (← joined-split k fs) (slice-append_left (joined (take k fs)) (joined (drop k fs)))

  take_all : (k : ℕ) (fs : List (Fragment F)) → k ≡ length fs → take k fs ≡ fs
  take_all zero [] h = refl
  take_all (suc k) (f ∷ fs) h = rw (take_all k fs (omega arith)) refl
  take_all zero (f ∷ fs) h = absurd (omega arith)
  take_all (suc k) [] h = refl

module _ {F : Type 0} (J : Json F) (D : Digests F) where
  open D use {H, same, link, of_bytes}

  common-le : (xs ys : List (Entry H)) → common D xs ys ≤ length ys
  unfolding common
  common-le [] ys = omega arith
  common-le (x ∷ xs) [] = omega arith
  common-le (x ∷ xs) (y ∷ ys) = ground (arith, common-le xs ys)

  module _ (identities : H → Option (Material F)) where
    length-blocks_from :
        (fs : List (Fragment F)) (p : H) (total offset count : ℕ)
        → length (blocks_from J D identities p total offset count fs) ≡ length fs
    unfolding blocks_from
    length-blocks_from [] p total offset count = refl
    length-blocks_from (f ∷ fs) p total offset count = ap suc (length-blocks_from fs _ _ _ _)

    -- The end of a block is the length of the text up to it.
    bytes-blocks_from :
        (k : ℕ) (fs : List (Fragment F)) (p : H) (total offset count : ℕ)
        → k < length fs
        → (e : Entry H) × (entry_before (suc k) (blocks_from J D identities p total offset count fs)
            ≡ some e)
          × (bytes e ≡ offset + len (joined (take (suc k) fs)))
    unfolding blocks_from block_of
    bytes-blocks_from zero (f ∷ fs) p total offset count h = (_, refl, rw (append-nil (raw f)) refl)
    bytes-blocks_from (suc k) (f ∷ fs) p total offset count h =
        let i =
          bytes-blocks_from k fs (link p (of_bytes (raw f))) _ (offset + len (raw f)) (suc count)
            (omega arith) in
        (i.0, i.1, rw (i.2, len-append (raw f) (joined (take (suc k) fs))) (omega arith))
    bytes-blocks_from k [] p total offset count h = absurd (omega arith)

    prefix_bytes :
        (k : ℕ) (fs : List (Fragment F)) (p : H)
        → k ≤ length fs
        → value_or 0 bytes (entry_before k (blocks_from J D identities p 0 0 0 fs))
          ≡ len (joined (take k fs))
    prefix_bytes zero fs p h = refl
    prefix_bytes (suc k) fs p h =
        let i = bytes-blocks_from k fs p 0 0 0 (omega arith) in rw (i.1, i.2) (omega arith)

  module _ (same→eq : (a b : H) → same a b ≡ true → a ≡ b)
      (link_injective : (p q a b : H) → link p a ≡ link q b → a ≡ b)
      (of_bytes_injective : (s t : String) → of_bytes s ≡ of_bytes t → s ≡ t)
      (before now : H → Option (Material F)) where
    common-joined :
        (fs gs : List (Fragment F)) (p q : H) (c o n c' o' n' : ℕ)
        → joined (
            take
              (common D (blocks_from J D before p c o n fs) (blocks_from J D now q c' o' n' gs))
              fs)
          ≡ joined (
              take
                (common D (blocks_from J D before p c o n fs) (blocks_from J D now q c' o' n' gs))
                gs)
    unfolding common blocks_from block_of
    common-joined [] gs p q c o n c' o' n' = refl
    common-joined (f ∷ fs) [] p q c o n c' o' n' = refl
    common-joined (f ∷ fs) (g ∷ gs) p q c o n c' o' n' =
        elim (Bool-cases (same (link p (of_bytes (raw f))) (link q (of_bytes (raw g))))) [
          | inl e ↦
              rw
                (
                  e,
                  of_bytes_injective (raw f) (raw g) (link_injective p q _ _ (same→eq _ _ e)),
                  common-joined fs gs _ _ _ _ _ _ _ _,
                )
                refl
          | inr e ↦ rw e refl
        ]

    -- The comparison of two lists of blocks, from any two digests of the scopes.
    blocks-agree :
        (fs gs : List (Fragment F)) (p q : H)
        → (n : ℕ) × ((block_lcp_diff D true
              (blocks_from J D before p 0 0 0 fs)
              (blocks_from J D now q 0 0 0 gs)).lcp_raw_bytes
            ≡ some n)
          × (slice (joined fs) 0 n ≡ slice (joined gs) 0 n)
    unfolding block_lcp_diff
    blocks-agree fs gs p q =
        let xs = blocks_from J D before p 0 0 0 fs in
        let ys = blocks_from J D now q 0 0 0 gs in
        let k = common D xs ys in
        let e : joined (take k fs) ≡ joined (take k gs) = common-joined fs gs p q 0 0 0 0 0 0 in
        (
          len (joined (take k gs)),
          ap some (
              prefix_bytes now k gs q (rw (← length-blocks_from now gs q 0 0 0) (common-le xs ys))),
          rw (slice-joined k gs, ← e, slice-joined k fs) refl,
        )

    -- Chains that agree throughout have the same text.
    identical-joined :
        (fs gs : List (Fragment F)) (p q : H)
        → is_identical D
            (common D (blocks_from J D before p 0 0 0 fs) (blocks_from J D now q 0 0 0 gs))
            (blocks_from J D before p 0 0 0 fs)
            (blocks_from J D now q 0 0 0 gs)
          ≡ true
        → joined fs ≡ joined gs
    identical-joined fs gs p q h =
        let xs = blocks_from J D before p 0 0 0 fs in
        let ys = blocks_from J D now q 0 0 0 gs in
        let k = common D xs ys in
        let e : joined (take k fs) ≡ joined (take k gs) = common-joined fs gs p q 0 0 0 0 0 0 in
        let l : (k ≡ length xs) × (length xs ≡ length ys) = ground (arith, h) in
        let a : k ≡ length fs = l.0 ∙ length-blocks_from before fs p 0 0 0 in
        let b : k ≡ length gs = l.0 ∙ (l.1 ∙ length-blocks_from now gs q 0 0 0) in
        ap joined (sym (take_all k fs a)) ∙ (e ∙ ap joined (take_all k gs b))

    divergence :
        (fs gs : List (Fragment F)) (p q : H)
        → ((block_lcp_diff D true
              (blocks_from J D before p 0 0 0 fs)
              (blocks_from J D now q 0 0 0 gs)).first_divergence_index
            ≢ none)
          ⊎ (joined fs ≡ joined gs)
    unfolding block_lcp_diff
    divergence fs gs p q =
        let xs = blocks_from J D before p 0 0 0 fs in
        let ys = blocks_from J D now q 0 0 0 gs in
        elim (Bool-cases (is_identical D (common D xs ys) xs ys)) [
          | inl e ↦ inr (identical-joined fs gs p q e)
          | inr e ↦ inl (rw e (λ h. cc))
        ]

    -- A chain of the present format starts with a block.
    compared :
        (old new : Fields F) (p q : H)
        → compute_lcp_diff D
            (blocks_from J D before p 0 0 0 (wire_fragments J old))
            (blocks_from J D now q 0 0 0 (wire_fragments J new))
          ≡ block_lcp_diff D true
              (blocks_from J D before p 0 0 0 (wire_fragments J old))
              (blocks_from J D now q 0 0 0 (wire_fragments J new))
    unfolding compute_lcp_diff blocks_from walk
    compared old new p q = refl

    -- With digests that distinguish what they are taken of, the comparison of the chains of two
    -- payloads, from the second version on, reports a number of bytes over which the two serialized
    -- payloads agree, and reports no divergence only of payloads that serialize alike.
    pub compute_lcp_diff-agrees :
        (old new : Fields F) (scope scope' : String) (version version' : ℕ)
        → ltb version 2 ≡ false
        → ltb version' 2 ≡ false
        → ((n : ℕ) × ((compute_lcp_diff D
                (physical_chain J D before old scope version)
                (physical_chain J D now new scope' version')).lcp_raw_bytes
              ≡ some n)
            × (slice (serialize_wire J old) 0 n ≡ slice (serialize_wire J new) 0 n))
          × (((compute_lcp_diff D
                  (physical_chain J D before old scope version)
                  (physical_chain J D now new scope' version')).first_divergence_index
                ≢ none)
              ⊎ (serialize_wire J old ≡ serialize_wire J new))
    unfolding physical_chain
    compute_lcp_diff-agrees old new scope scope' version version' v v' =
        rw
          (
            v,
            v',
            compared old new _ _,
            ← joined-wire_fragments J old,
            ← joined-wire_fragments J new,
          )
          (
            blocks-agree (wire_fragments J old) (wire_fragments J new) _ _,
            divergence (wire_fragments J old) (wire_fragments J new) _ _,
          )
