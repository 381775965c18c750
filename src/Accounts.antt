-- ===== src/Accounts.antt =====
-- crates/gitmesh-accounts/src/lib.rs: product accounts, their sessions and their repositories.
pub mod Fields
pub mod Store
pub mod Sessions
pub mod Runs
pub mod Snapshot
pub mod Tests
