-- ===== src/Safety.antt =====
-- internal/safety/evaluator.go: policy applied to the findings of an analysis.
pub mod Status
pub mod Mode
pub mod Action
pub mod Policy
pub mod Evaluate
