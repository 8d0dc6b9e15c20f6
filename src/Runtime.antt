-- ===== src/Runtime.antt =====
-- The runtime's workers on the store: crates/runtime.
pub mod Outbox
pub mod Examples
pub mod Service
