-- ===== src/Cache/Resolver.antt =====
-- app/cache/intent_resolver.py: which mechanisms a request may use.
pub mod Admission
pub mod Threshold
pub mod Gates
pub mod Request
pub mod Resources
pub mod Unified
