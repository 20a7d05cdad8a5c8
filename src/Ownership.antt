-- ===== src/Ownership.antt =====
-- internal/ownership: advisory evidence of who owns a consumer.
pub mod Patterns
pub mod Evidence
pub mod Rules
pub mod Metadata
pub mod Outside
pub mod Loading
pub mod Enrich
