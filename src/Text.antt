-- ===== src/Text.antt =====
-- What the crates use of `str`, `String`, `u64` and `u32` of the standard library. A text is the
-- list of its UTF-8 bytes, as `str::len`, `as_bytes` and `Ord` read it.
pub mod Search
pub mod Split
pub mod Decimal
pub mod Words
pub mod Spaces
pub mod Utf8
