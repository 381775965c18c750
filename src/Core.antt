-- ===== src/Core.antt =====
-- crates/gitmesh-core/src/lib.rs: hashes, typed content identifiers, protocol envelopes.
pub mod Hash
pub mod Hex
pub mod Cid
pub mod Envelope
pub mod Tests
