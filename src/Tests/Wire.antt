-- ===== src/Tests/Wire.antt =====
-- app/core/cache_fingerprint.py on a conversation that grows by a turn.
use model_relay.Materials.Selector.{text_before}
use Prim.Native.String.{slice}
use model_relay.Prelude.{
  ℕ, String, ◌≡◌, ◌≢◌, refl, ap, ◌⊎◌, Bool, true, false, ◌&&◌, Option, none, some, ◌==◌, eq_iff,
  arith,
}
use model_relay.Prelude.Int.{ℤ}
use model_relay.Python.Value.{Value, nil, cons, Fields, field, end, has_key}
use model_relay.Wire.Json.{Json, serialize_wire, encoded, ordered_wire, insert_field, quoted}
use model_relay.Wire.Fragments.{wire_fragments, walk, ends_with}
use model_relay.Wire.Fragments.Partition.{joined, joined-wire_fragments}
use model_relay.Wire.Chain.{Digests, Material, physical_chain, blocks_from, block_of}
use model_relay.Wire.Chain.Cover.{Covers, physical_chain-Covers}
use model_relay.Wire.Prefix.{compute_lcp_diff, block_lcp_diff, common}
use model_relay.Wire.Prefix.Agreement.{compute_lcp_diff-agrees}

-- Digests that keep what they are taken of, where that matters.
data Digest : Type 0 where
  of_text : String → Digest
  linked : Digest → Digest → Digest
  other : Digest

abbrev same_digest : Digest → Digest → Bool
same_digest (of_text s) (of_text t) = s == t
same_digest (linked p a) (linked q b) = same_digest p q && same_digest a b
same_digest other other = true
same_digest _ _ = false

same_digest→eq : (a b : Digest) → same_digest a b ≡ true → a ≡ b
same_digest→eq (of_text s) (of_text t) h = ap of_text ((eq_iff s t).0 h)
same_digest→eq (linked p a) (linked q b) h =
    cc (same_digest→eq p q (ground arith), same_digest→eq a b (ground arith))
same_digest→eq other other h = refl
same_digest→eq (of_text s) (linked q b) h = cc
same_digest→eq (of_text s) other h = cc
same_digest→eq (linked p a) (of_text t) h = cc
same_digest→eq (linked p a) other h = cc
same_digest→eq other (of_text t) h = cc
same_digest→eq other (linked q b) h = cc

linked_injective : (p q a b : Digest) → linked p a ≡ linked q b → a ≡ b
linked_injective p q a b h = cc

of_text_injective : (s t : String) → of_text s ≡ of_text t → s ≡ t
of_text_injective s t h = cc

abbrev digests : Digests ℤ
digests = record {
  H = Digest;
  of_bytes = of_text;
  of_value = λ v. other;
  of_material = λ m. other;
  of_scope = λ s f. other;
  of_segment = λ k v. other;
  link = linked;
  same = same_digest;
}

abbrev json : Json ℤ
json = record { number = λ v. "0"; control = λ c. "" }

abbrev turn : String → Value ℤ
turn said = Value.dict (
    field "role" (Value.text "user")
      (field "parts" (Value.list (cons (Value.dict (field "text" (Value.text said) end)) nil)) end))

abbrev one_turn : Fields ℤ
one_turn = field "contents" (Value.list (cons (turn "hello") nil)) end

abbrev two_turns : Fields ℤ
two_turns = field "contents" (Value.list (cons (turn "hello") (cons (turn "again") nil))) end

abbrev no_material : Digest → Option (Material ℤ)
no_material d = none

writes :
    serialize_wire json one_turn
    ≡ "{\"contents\":[{\"parts\":[{\"text\":\"hello\"}],\"role\":\"user\"}]}"
unfolding serialize_wire encoded ordered_wire has_key insert_field quoted text_before
writes = refl

joined-wire_fragments_example :
    joined (wire_fragments json two_turns) ≡ serialize_wire json two_turns
joined-wire_fragments_example = joined-wire_fragments json two_turns

physical_chain-Covers_example :
    Covers digests
      (serialize_wire json two_turns)
      0
      0
      0
      (physical_chain json digests no_material two_turns "s" 2)
physical_chain-Covers_example = physical_chain-Covers json digests no_material two_turns "s" 2 refl

-- The second turn leaves the first 55 bytes as they were.
agrees_long :
    (compute_lcp_diff digests
      (physical_chain json digests no_material one_turn "s" 2)
      (physical_chain json digests no_material two_turns "s" 2)).lcp_raw_bytes
    ≡ some 55
unfolding compute_lcp_diff physical_chain blocks_from walk block_lcp_diff common block_of
    ordered_wire has_key insert_field quoted ends_with text_before encoded
agrees_long = refl

compute_lcp_diff-agrees_example :
    ((n : ℕ) × ((compute_lcp_diff digests
          (physical_chain json digests no_material one_turn "s" 2)
          (physical_chain json digests no_material two_turns "s" 2)).lcp_raw_bytes
        ≡ some n)
      × (slice (serialize_wire json one_turn) 0 n ≡ slice (serialize_wire json two_turns) 0 n))
    × (((compute_lcp_diff digests
            (physical_chain json digests no_material one_turn "s" 2)
            (physical_chain json digests no_material two_turns "s" 2)).first_divergence_index
          ≢ none)
        ⊎ (serialize_wire json one_turn ≡ serialize_wire json two_turns))
compute_lcp_diff-agrees_example =
    compute_lcp_diff-agrees json digests same_digest→eq linked_injective of_text_injective
      no_material no_material one_turn two_turns "s" "s" 2 2 refl refl
