-- ===== src/Collaboration.antt =====
-- crates/gitmesh-collaboration/src/lib.rs: issues and pull requests as a log of events.
pub mod Event
pub mod Store
pub mod Snapshot
pub mod Tests
