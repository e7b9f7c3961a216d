-- ===== src/Materials.antt =====
-- app/materials: which attachments of a request are put in the cache.
pub mod Selector
