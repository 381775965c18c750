-- ===== src/Coordination.antt =====
-- crates/gitmesh-coordination/src/lib.rs: refs that advance by idempotent compare-and-swap
-- transactions, under a repository's policy.
pub mod Names
pub mod Update
pub mod Policy
pub mod Checkpoint
pub mod Store
pub mod Tests
