-- ===== src/Cache/Planner.antt =====
-- app/cache/planner.py: the unified plan and its arbitration.
-- `allowed`, `candidates` and `assessments` are mappings over the three mechanism names.
pub mod Reasons
pub mod Plan
pub mod Arbitration
pub mod Choice
pub mod Screening
pub mod Pipeline
