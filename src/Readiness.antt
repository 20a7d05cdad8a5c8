-- ===== src/Readiness.antt =====
-- internal/readiness/evaluator.go: classification of consumers and readiness of a migration.
pub mod Status
pub mod Classification
pub mod Apart
pub mod Classify
pub mod Gate
pub mod Evaluate
