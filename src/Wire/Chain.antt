-- ===== src/Wire/Chain.antt =====
-- `estimated_tokens` and `physical_chain` of app/core/cache_fingerprint.py: the blocks of a payload,
-- each with its digest, its place in the bytes and the digest of everything up to it.
pub mod Cover
use Prim.Native.String.{len}
use model_relay.Prelude.{
  ℕ, zero, suc, ◌+◌, ◌/◌, String, Bool, true, false, not, ◌&&◌, ◌||◌, ◌==◌, Option, none, some,
  List, [], ◌∷◌, ◌++◌, contains, ltb, if◌then◌else◌,
}
use model_relay.Python.Value.{Value, Items, nil, cons, Fields, field, end, get, has_key, is_null}
use model_relay.Cache.Resolver.Admission.{starts_with}
use model_relay.Wire.Json.{Json}
use model_relay.Wire.Fragments.{Fragment, wire_structure, content, raw, ends_with, wire_fragments}

-- The keys whose values are no text of the conversation.
abbrev opaque_keys : List String
opaque_keys =
    "fileData" ∷ "inlineData" ∷ "data" ∷ "file_id" ∷ "file_uri" ∷ "image_url" ∷ "signature"
    ∷ "thoughtSignature" ∷ "encrypted_content" ∷ "source" ∷ "role" ∷ "type" ∷ "id" ∷ []

unfoldable mutual
  pub estimated_tokens : {F : Type 0} → Value F → ℕ
  estimated_tokens (Value.text s) = len s / 6
  estimated_tokens (Value.list xs) = estimated_items xs
  estimated_tokens (Value.dict fs) = estimated_fields fs
  estimated_tokens _ = 0

  pub estimated_items : {F : Type 0} → Items F → ℕ
  estimated_items nil = 0
  estimated_items (cons x xs) = estimated_tokens x + estimated_items xs

  pub estimated_fields : {F : Type 0} → Fields F → ℕ
  estimated_fields end = 0
  estimated_fields (field k v fs) =
      let here = estimated_tokens v in
      let rest = estimated_fields fs in if contains opaque_keys k then rest else here + rest

pub record Material (F : Type 0) : Type 0 where
  pub material_id : String
  pub sha256 : String
  pub content_type : String
  pub projection_sha256 : Value F
  pub material_class : String

-- The digests that the program takes, by the shape of what is hashed: `of_bytes` is the SHA-256 of
-- raw bytes, and the others are `stable_hash` of a value, of a material's identity, of
-- `{"scope": …, "format": …}`, of `[kind, value]` and of `[parent, local]`.
pub record Digests (F : Type 0) : Type 1 where
  pub H : Type 0
  pub of_bytes : String → H
  pub of_value : Value F → H
  pub of_material : Material F → H
  pub of_scope : String → String → H
  pub of_segment : String → Value F → H
  pub link : H → H → H
  pub same : H → H → Bool

-- A block of the chain.
pub record Block (H : Type 0) : Type 0 where
  pub index : ℕ
  pub kind : String
  pub source_ref : Option String
  pub path : String
  pub semantic_hash : H
  pub local_physical_hash : H
  pub chained_prefix_hash : H
  pub estimated : ℕ
  pub cumulative : ℕ
  pub raw_byte_size : ℕ
  pub byte_start : ℕ
  pub byte_end : ℕ

-- An entry of the older format.
pub record Segment (H : Type 0) : Type 0 where
  pub kind : String
  pub local_physical_hash : H
  pub chained_prefix_hash : H
  pub cumulative : ℕ

pub data Entry (H : Type 0) : Type 0 where
  legacy : Segment H → Entry H
  block : Block H → Entry H

-- The keys of the older format, in its order, and then the items of the conversation.
abbrev head_keys : List String
head_keys =
    "model" ∷ "cachedContent" ∷ "previous_response_id" ∷ "systemInstruction" ∷ "system"
    ∷ "instructions" ∷ "tools" ∷ "toolConfig" ∷ "tool_choice" ∷ "thinking" ∷ "output_config"
    ∷ "generationConfig" ∷ "response_format" ∷ "text" ∷ "reasoning" ∷ "safetySettings" ∷ []

module _ {F : Type 0} where
  unfoldable head_segments : Fields F → List String → List (String × Value F)
  head_segments payload [] = []
  head_segments payload (k ∷ ks) =
      let rest = head_segments payload ks in
      if has_key k payload then (k, get k payload) ∷ rest else rest

  unfoldable item_segments : String → Items F → List (String × Value F)
  item_segments k nil = []
  item_segments k (cons x xs) = (k, x) ∷ item_segments k xs

  unfoldable body_segments : String → Value F → List (String × Value F)
  unfolding item_segments
  body_segments k Value.null = []
  body_segments k (Value.list xs) = item_segments k xs
  body_segments k v = (k, v) ∷ []

  unfoldable pub legacy_segments : Fields F → List (String × Value F)
  unfolding head_segments body_segments
  legacy_segments payload =
      head_segments payload head_keys
      ++ (body_segments "contents" (get "contents" payload)
          ++ (body_segments "messages" (get "messages" payload)
              ++ body_segments "input" (get "input" payload)))

abbrev is_system : String → Bool
is_system path =
    starts_with "$.systemInstruction" path
    || (starts_with "$.instructions" path || starts_with "$.system" path)

abbrev is_marker : String → Bool
is_marker path =
    ends_with ".role" path
    || (ends_with ".model" path
        || (ends_with ".type" path
            || (ends_with ".cachedContent" path || ends_with ".previous_response_id" path)))

-- The kind of a value that is no material.
abbrev kind_of : String → String
kind_of path =
    if is_system path
    then "sys_instr"
    else if starts_with "$.tools" path
    then "tool_schema"
    else "content"

module _ {F : Type 0} (J : Json F) (D : Digests F) where
  open D use {H, of_bytes, of_value, of_material, of_scope, of_segment, link}

  legacy_tokens : String → Value F → ℕ
  legacy_tokens k v =
      if k == "model" || (k == "cachedContent" || k == "previous_response_id")
      then 0
      else estimated_tokens v

  unfoldable pub legacy_from : H → ℕ → List (String × Value F) → List (Entry H)
  unfolding legacy_tokens
  legacy_from parent cumulative [] = []
  legacy_from parent cumulative ((k, v) ∷ rest) =
      let hash = of_segment k v in
      let total = cumulative + legacy_tokens k v in
      legacy (record {
        kind = k;
        local_physical_hash = hash;
        chained_prefix_hash = link parent hash;
        cumulative = total;
      })
      ∷ legacy_from (link parent hash) total rest

  -- `identities` finds a material by the digest of the value that projects it.
  module _ (identities : H → Option (Material F)) where
    abbrev material_of : Value F → Option (Material F)
    material_of (Value.dict fs) = identities (of_value (Value.dict fs))
    material_of v = none

    abbrev count_of : String → String → Value F → ℕ
    count_of kind path v =
        if not (kind == "wire_structure") && not (is_marker path) then estimated_tokens v else 0

    -- The kind, the reference, the semantic digest and the tokens of a fragment.
    abbrev as_content : String → Value F → Option (Material F) → String × Option String × H × ℕ
    as_content path v (some m) =
        (m.material_class, some m.material_id, of_material m, count_of m.material_class path v)
    as_content path v none = (kind_of path, none, of_value v, count_of (kind_of path) path v)

    unfoldable pub meaning : Fragment F → String × Option String × H × ℕ
    meaning (wire_structure path r) = ("wire_structure", none, of_bytes r, 0)
    meaning (content path r v) = as_content path v (material_of v)

    abbrev path_of : Fragment F → String
    path_of (wire_structure path r) = path
    path_of (content path r v) = path

    -- One round of the loop, with the loop's variables.
    unfoldable pub block_of : H → ℕ → ℕ → ℕ → Fragment F → Block H
    block_of parent cumulative offset count f = record {
      index = suc count;
      kind = (meaning f).0;
      source_ref = (meaning f).1;
      path = path_of f;
      semantic_hash = (meaning f).2;
      local_physical_hash = of_bytes (raw f);
      chained_prefix_hash = link parent (of_bytes (raw f));
      estimated = (meaning f).3;
      cumulative = cumulative + (meaning f).3;
      raw_byte_size = len (raw f);
      byte_start = offset;
      byte_end = offset + len (raw f);
    }

    unfoldable pub blocks_from : H → ℕ → ℕ → ℕ → List (Fragment F) → List (Entry H)
    blocks_from parent cumulative offset count [] = []
    blocks_from parent cumulative offset count (f ∷ fs) =
        let b = block_of parent cumulative offset count f in
        block b ∷ blocks_from b.chained_prefix_hash b.cumulative b.byte_end b.index fs

    unfoldable pub physical_chain : Fields F → String → ℕ → List (Entry H)
    physical_chain payload scope version =
        let old =
          legacy_from (of_scope scope "relay-physical-chain/1") 0 (legacy_segments payload) in
        let new =
          blocks_from (of_scope scope "relay-physical-chain/2") 0 0 0 (wire_fragments J payload) in
        if ltb version 2 then old else new
