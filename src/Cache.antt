-- ===== src/Cache.antt =====
-- app/cache: how a request's cache plan is frozen, priced, arbitrated and observed.
pub mod Contracts
pub mod Planner
pub mod Resolver
pub mod Economics
pub mod Breakpoints
pub mod Usage
pub mod Affinity
pub mod Prefix
