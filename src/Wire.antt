-- ===== src/Wire.antt =====
-- app/core/context_normalizer.py and app/core/cache_fingerprint.py: the bytes of a native payload,
-- their partition into hashed blocks, and the comparison of two payloads by these blocks.
pub mod Json
pub mod Fragments
pub mod Chain
pub mod Prefix
