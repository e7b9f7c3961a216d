-- ===== src/Tests.antt =====
-- Runs on concrete inputs, and each theorem with hypotheses at an input that meets them.
mod Fixed
mod Planner
mod Economics
mod Reports
mod Resolver
mod Request
mod Execution
mod Wire
mod Affinity
mod Prefix
mod Routing
mod Options
