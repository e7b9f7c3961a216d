-- ===== src/Routing.antt =====
-- app/routing: the catalogue of routes, and the route that a Session or a request takes.
pub mod Outcome
pub mod Catalog
pub mod Requirements
pub mod Resolver
pub mod SupplyGroup
