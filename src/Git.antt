-- ===== src/Git.antt =====
-- crates/gitmesh-git/src/lib.rs: object identifiers.
pub mod Oid
pub mod Object
pub mod Tree
pub mod Pack
mod Tests
