-- ===== src/Git/Pack.antt =====
-- Packs of crates/gitmesh-git/src/lib.rs: the headers of entries, deltas, their resolution, and
-- whole packs.
pub mod Header
pub mod Delta
pub mod Entry
pub mod Resolve
pub mod File
