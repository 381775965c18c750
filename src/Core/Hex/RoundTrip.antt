-- ===== src/Core/Hex/RoundTrip.antt =====
-- Encoding and decoding of hexadecimal digits.
use git_mesh.Prelude.{
  ◌/◌, ◌%◌, ◌≤◌, ◌⊎◌, ℕ, subst, ok-injective, ◌*◌, ◌/◌, ◌%◌, ◌≡◌, ◌<◌, refl, Option, none, some, [],
  ◌∷◌, arith, Bytes, length, All, Result, ok, err,
}
use git_mesh.Core.Hex.{
  CoreError, nibble_digit, hex, hex_nibble, decode_pair, decode_chunks, decode_hex,
  decode_fixed_hex, cons_byte,
}

abbrev pub IsByte : ℕ → Type 0
IsByte b = b < 256

hex_nibble-nibble_digit : (n : ℕ) → n < 16 → hex_nibble (nibble_digit n) ≡ some n
unfolding hex_nibble nibble_digit
hex_nibble-nibble_digit n h = ground arith

hex_nibble-lt : (c : ℕ) {n : ℕ} → hex_nibble c ≡ some n → n < 16
unfolding hex_nibble
hex_nibble-lt c h = ground arith

decode_pair-nibbles :
    (b : ℕ) → b < 256 → decode_pair (nibble_digit (b / 16)) (nibble_digit (b % 16)) ≡ some b
unfolding decode_pair
decode_pair-nibbles b h =
    ground (arith, hex_nibble-nibble_digit (b / 16), hex_nibble-nibble_digit (b % 16))

pub length-hex : (bs : Bytes) → length (hex bs) ≡ 2 * length bs
unfolding hex
length-hex [] = refl
length-hex (b ∷ bs) = omega (arith, length-hex bs)

pub decode_chunks-hex : (bs : Bytes) → All IsByte bs → decode_chunks (hex bs) ≡ ok bs
unfolding hex decode_chunks
decode_chunks-hex [] h = refl
decode_chunks-hex (b ∷ bs) (h, t) = ground (arith, decode_pair-nibbles b h, decode_chunks-hex bs t)

-- Numbers below 256 are read back from their hexadecimal digits.
pub decode_hex-hex : (bs : Bytes) → All IsByte bs → decode_hex (hex bs) ≡ ok bs
unfolding decode_hex
decode_hex-hex bs h = ground (arith, length-hex bs, decode_chunks-hex bs h)

pub decode_fixed_hex-hex :
    (bs : Bytes) → All IsByte bs → decode_fixed_hex (length bs) (hex bs) ≡ ok bs
unfolding decode_fixed_hex
decode_fixed_hex-hex bs h = ground (arith, decode_hex-hex bs h)

decode_pair-lt : (c d : ℕ) (b : ℕ) → decode_pair c d ≡ some b → b < 256
unfolding decode_pair
decode_pair-lt c d b h = grind (arith, hex_nibble-lt c, hex_nibble-lt d)

cons_byte-IsByte :
    (o : Option ℕ) (r : Result CoreError Bytes) (bs : Bytes)
    → ((b : ℕ) → o ≡ some b → b < 256)
    → ((cs : Bytes) → r ≡ ok cs → All IsByte cs)
    → cons_byte o r ≡ ok bs
    → All IsByte bs
cons_byte-IsByte none r bs f g h = cc
cons_byte-IsByte (some b) (ok cs) bs f g h =
    subst (All IsByte) (ok-injective h) (f b refl, g cs refl)
cons_byte-IsByte (some b) (err e) bs f g h = cc

decode_chunks-IsByte : (s bs : Bytes) → decode_chunks s ≡ ok bs → All IsByte bs
unfolding decode_chunks
decode_chunks-IsByte [] bs h = subst (All IsByte) (ok-injective h) tt
decode_chunks-IsByte (c ∷ []) bs h = subst (All IsByte) (ok-injective h) tt
decode_chunks-IsByte (c ∷ d ∷ s) bs h =
    cons_byte-IsByte (decode_pair c d) (decode_chunks s) bs (decode_pair-lt c d)
      (decode_chunks-IsByte s) h

-- What is decoded is a string of bytes of the length that was asked for.
pub decode_fixed_hex_sound :
    (n : ℕ) (s bs : Bytes) → decode_fixed_hex n s ≡ ok bs → (length bs ≡ n) × All IsByte bs
unfolding decode_fixed_hex decode_hex
decode_fixed_hex_sound n s bs h = (ground arith, decode_chunks-IsByte s bs (ground arith))

-- The digits that `hex` writes.
abbrev pub IsLowerHex : ℕ → Type 0
IsLowerHex c = ((b'0' ≤ c) × (c ≤ b'9')) ⊎ ((b'a' ≤ c) × (c ≤ b'f'))

nibble_digit-IsLowerHex : (n : ℕ) → n < 16 → IsLowerHex (nibble_digit n)
unfolding nibble_digit
nibble_digit-IsLowerHex n h = grind arith

pub hex-IsLowerHex : (bs : Bytes) → All IsByte bs → All IsLowerHex (hex bs)
unfolding hex
hex-IsLowerHex [] h = tt
hex-IsLowerHex (b ∷ bs) (h, t) = (
  nibble_digit-IsLowerHex (b / 16) (omega arith),
  (nibble_digit-IsLowerHex (b % 16) (omega arith), hex-IsLowerHex bs t),
)
