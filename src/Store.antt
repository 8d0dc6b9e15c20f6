-- ===== src/Store.antt =====
-- crates/store-postgres: the transactions of the Postgres store.
pub mod Result
pub mod Rows
pub mod Outcome
pub mod Codecs
pub mod Outbox
pub mod Projection
pub mod Database
pub mod Fences
pub mod Candidates
pub mod Claim
pub mod Renew
pub mod Expiry
pub mod Reclaim
pub mod MergePatch
pub mod Conditions
pub mod Dependencies
pub mod Work
pub mod External
pub mod Failure
pub mod Fail
pub mod Completion
pub mod Transition
pub mod Control
pub mod Idempotency
pub mod Machine
pub mod Examples
