-- ===== src/Identity.antt =====
-- crates/gitmesh-identity/src/lib.rs: account roots, device keys and device certificates.
pub mod Certificate
pub mod Grant
pub mod GrantStore
mod Tests
