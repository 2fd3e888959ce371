-- ===== src/Engine/Planning.antt =====
-- src/engine/planning: from queries to plans.
pub mod Query
