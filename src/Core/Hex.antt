-- ===== src/Core/Hex.antt =====
-- `hex`, `hex_nibble` and `decode_hex` of crates/gitmesh-core/src/lib.rs.
pub mod RoundTrip
pub mod Exact
use git_mesh.Prelude.{
  ℕ, ◌+◌, ◌-◌, ◌*◌, ◌/◌, ◌%◌, ◌≡◌, ◌&&◌, Option, none, some, [], ◌∷◌, ◌++◌, leb, ltb, eqb,
  if◌then◌else◌, Bytes, length, Result, ok, err, ok_or, fail_if, ◌>>=◌, ◌>>◌,
}

pub data CoreError : Type 0 where
  invalid_domain field_too_large invalid_cid : CoreError

-- One digit of `format!("{byte:02x}")`.
unfoldable pub nibble_digit : ℕ → ℕ
nibble_digit n = if ltb n 10 then b'0' + n else b'a' + (n - 10)

unfoldable pub hex : Bytes → Bytes
hex [] = []
hex (b ∷ bs) = nibble_digit (b / 16) ∷ nibble_digit (b % 16) ∷ hex bs

unfoldable pub hex_nibble : ℕ → Option ℕ
hex_nibble byte =
    if leb b'0' byte && leb byte b'9'
    then some (byte - b'0')
    else if leb b'a' byte && leb byte b'f'
    then some (byte - b'a' + 10)
    else if leb b'A' byte && leb byte b'F'
    then some (byte - b'A' + 10)
    else none

-- `(high << 4) | low`, on nibbles.
unfoldable pub decode_pair : ℕ → ℕ → Option ℕ
decode_pair h l = elim (hex_nibble h) [
  | none ↦ none
  | some high ↦ elim (hex_nibble l) [ none ↦ none | some low ↦ some (high * 16 + low) ]
]

abbrev pub cons_byte : Option ℕ → Result CoreError Bytes → Result CoreError Bytes
cons_byte none rest = err invalid_cid
cons_byte (some b) (ok bs) = ok (b ∷ bs)
cons_byte (some b) (err e) = err e

-- `chunks_exact(2)`.
unfoldable pub decode_chunks : Bytes → Result CoreError Bytes
decode_chunks [] = ok []
decode_chunks (h ∷ []) = ok []
decode_chunks (h ∷ l ∷ s) = cons_byte (decode_pair h l) (decode_chunks s)

unfoldable pub decode_hex : Bytes → Result CoreError Bytes
decode_hex value = do fail_if (eqb (length value % 2) 1) invalid_cid; decode_chunks value

-- The conversion of a vector into an array of `n` bytes.
unfoldable pub decode_fixed_hex : ℕ → Bytes → Result CoreError Bytes
decode_fixed_hex n value = do
  bytes ← decode_hex value
  if eqb (length bytes) n then ok bytes else err invalid_cid
