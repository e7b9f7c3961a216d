-- ===== src/Wire/Chain/Cover.antt =====
-- The blocks of `physical_chain`, app/core/cache_fingerprint.py, lie end to end over the bytes of
-- the payload, and each carries the digest of its bytes.
use Prim.Native.String.{len, slice, ◌++◌ as ◌⧺◌}
use text.Mathlib.TextLemmas.{append_assoc, append-nil, nil-append}
use text.Mathlib.TextPositions.{slice-append_middle, len-append}
use model_relay.Prelude.{
  ℕ, suc, ◌+◌, String, ◌≡◌, refl, sym, false, Option, List, [], ◌∷◌, ◌∙◌, ltb,
}
use model_relay.Python.Value.{Fields}
use model_relay.Wire.Json.{Json, serialize_wire}
use model_relay.Wire.Fragments.{Fragment, raw, wire_fragments}
use model_relay.Wire.Fragments.Partition.{joined, joined-wire_fragments}
use model_relay.Wire.Chain.{
  Digests, Material, Entry, legacy, block, block_of, blocks_from, physical_chain,
}

-- Entries that follow the position `offset`, the number `count` and the sum `total` without a gap,
-- end with the text, and hold the digests of their stretches of it.
abbrev pub Covers : {F : Type 0} → (D : Digests F) → String → ℕ → ℕ → ℕ → List (Entry D.H) → Type 0
Covers D wire offset count total [] = offset ≡ len wire
Covers D wire offset count total (legacy s ∷ es) = ⊥
Covers D wire offset count total (block b ∷ es) =
    (b.byte_start ≡ offset)
    × (b.index ≡ suc count)
    × (b.cumulative ≡ total + b.estimated)
    × (b.byte_end ≡ b.byte_start + b.raw_byte_size)
    × (b.local_physical_hash ≡ D.of_bytes (slice wire b.byte_start b.byte_end))
    × Covers D wire b.byte_end b.index b.cumulative es

module _ {F : Type 0} (J : Json F) (D : Digests F) (identities : D.H → Option (Material F)) where
  open D use {link, of_bytes}

  -- `done` is the text before the fragments that are left.
  blocks_from-Covers :
      (fs : List (Fragment F)) (wire done : String) (parent : D.H) (total count : ℕ)
      → wire ≡ done ⧺ joined fs
      → Covers D wire
          (len done)
          count
          total
          (blocks_from J D identities parent total (len done) count fs)
  unfolding blocks_from block_of
  blocks_from-Covers [] wire done parent total count e = rw (e, append-nil done) refl
  blocks_from-Covers (f ∷ fs) wire done parent total count e = (
    refl,
    refl,
    refl,
    refl,
    rw (e, slice-append_middle done (raw f) (joined fs)) refl,
    rw (← len-append done (raw f)) (
        blocks_from-Covers fs wire (done ⧺ raw f) (link parent (of_bytes (raw f))) _ (suc count)
          (e ∙ sym (append_assoc done (raw f) (joined fs)))),
  )

  -- From the second version on, the blocks of a payload's chain are numbered from one, follow each
  -- other over the serialized payload without a gap up to its end, add up their tokens, and each
  -- holds the digest of the bytes from its start to its end.
  pub physical_chain-Covers :
      (payload : Fields F) (scope : String) (version : ℕ)
      → ltb version 2 ≡ false
      → Covers D
          (serialize_wire J payload)
          0
          0
          0
          (physical_chain J D identities payload scope version)
  unfolding physical_chain
  physical_chain-Covers payload scope version new = rw new (
      blocks_from-Covers (wire_fragments J payload) (serialize_wire J payload) "" _ 0 0 (
        sym (joined-wire_fragments J payload)
        ∙ sym (nil-append (joined (wire_fragments J payload)))))
