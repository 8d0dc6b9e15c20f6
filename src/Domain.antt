-- ===== src/Domain.antt =====
-- crates/domain: the shared statuses and JSON values.
pub mod Status
pub mod Json
pub mod Plan
