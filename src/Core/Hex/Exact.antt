-- ===== src/Core/Hex/Exact.antt =====
-- The digits that `decode_hex` reads: those that `hex` writes, in either case.
use git_mesh.Prelude.{
  ℕ, suc, ◌+◌, ◌*◌, ◌/◌, ◌%◌, ◌≡◌, ◌≢◌, ◌<◌, refl, sym, ap, ◌∙◌, subst, arith, Option, none, some,
  [], ◌∷◌, map, Bytes, All, length, Result, ok, err, ok-injective, Option-cases, inl, inr,
}
use git_mesh.Text.Search.{Lacks, to_ascii_lowercase}
use git_mesh.Core.Hex.{
  CoreError, nibble_digit, hex, hex_nibble, decode_pair, decode_chunks, decode_hex,
  decode_fixed_hex, cons_byte,
}
use git_mesh.Core.Hex.RoundTrip.{IsByte, length-hex, hex-IsLowerHex, IsLowerHex}

abbrev pub lower : Bytes → Bytes
lower s = map to_ascii_lowercase s

hex_nibble-eq-some :
    (c n : ℕ) → hex_nibble c ≡ some n → (n < 16) × (to_ascii_lowercase c ≡ nibble_digit n)
unfolding hex_nibble nibble_digit to_ascii_lowercase
hex_nibble-eq-some c n h = ground arith

hex_nibble-digit :
    (c n : ℕ) → n < 16 → to_ascii_lowercase c ≡ nibble_digit n → hex_nibble c ≡ some n
unfolding hex_nibble nibble_digit to_ascii_lowercase
hex_nibble-digit c n h e = ground arith

nibbles : (high low b : ℕ) → low < 16 → b ≡ high * 16 + low → (b / 16 ≡ high) × (b % 16 ≡ low)
nibbles high low b h e = (omega arith, omega arith)

decode_pair-eq-some :
    (h l b : ℕ)
    → decode_pair h l ≡ some b
    → (to_ascii_lowercase h ≡ nibble_digit (b / 16))
      × (to_ascii_lowercase l ≡ nibble_digit (b % 16))
unfolding decode_pair
decode_pair-eq-some h l b e = elim (Option-cases (hex_nibble h)) [
  | inl bad ↦ absurd (ground arith)
  | inr (high, read_high) ↦ elim (Option-cases (hex_nibble l)) [
    | inl bad ↦ absurd (ground arith)
    | inr (low, read_low) ↦
        let (_, digit_high) = hex_nibble-eq-some h high read_high in
        let (small, digit_low) = hex_nibble-eq-some l low read_low in
        let (same_high, same_low) = nibbles high low b small (ground arith) in
        (digit_high ∙ ap nibble_digit (sym same_high), digit_low ∙ ap nibble_digit (sym same_low))
  ]
]

decode_pair-digits :
    (h l b : ℕ)
    → b < 256
    → to_ascii_lowercase h ≡ nibble_digit (b / 16)
    → to_ascii_lowercase l ≡ nibble_digit (b % 16)
    → decode_pair h l ≡ some b
unfolding decode_pair
decode_pair-digits h l b small high low = ground (
  arith,
  hex_nibble-digit h (b / 16) (omega arith) high,
  hex_nibble-digit l (b % 16) (omega arith) low,
)

cons_byte-eq-ok :
    (o : Option ℕ) (r : Result CoreError Bytes) (bs : Bytes)
    → cons_byte o r ≡ ok bs
    → (b : ℕ) × (cs : Bytes) × (o ≡ some b) × (r ≡ ok cs) × (bs ≡ b ∷ cs)
cons_byte-eq-ok none r bs h = cc
cons_byte-eq-ok (some b) (ok cs) bs h = (b, cs, refl, refl, sym (ok-injective h))
cons_byte-eq-ok (some b) (err e) bs h = cc

decode_chunks-eq-ok : (s bs : Bytes) → length s % 2 ≡ 0 → decode_chunks s ≡ ok bs → lower s ≡ hex bs
unfolding decode_chunks hex
decode_chunks-eq-ok [] bs even h = ap hex (ok-injective h)
decode_chunks-eq-ok (c ∷ []) bs even h = absurd (omega arith)
decode_chunks-eq-ok (c ∷ d ∷ s) bs even h =
    let (b, cs, first, rest, both) = cons_byte-eq-ok (decode_pair c d) (decode_chunks s) bs h in
    let (high, low) = decode_pair-eq-some c d b first in
    rw (both, high, low)
      (ap (λ t. nibble_digit (b / 16) ∷ nibble_digit (b % 16) ∷ t)
        (decode_chunks-eq-ok s cs (omega arith) rest))

pub decode_fixed_hex-eq-ok :
    (n : ℕ) (s bs : Bytes) → decode_fixed_hex n s ≡ ok bs → lower s ≡ hex bs
unfolding decode_fixed_hex decode_hex
decode_fixed_hex-eq-ok n s bs h = decode_chunks-eq-ok s bs (ground arith) (ground arith)

decode_chunks-digits : (s bs : Bytes) → All IsByte bs → lower s ≡ hex bs → decode_chunks s ≡ ok bs
unfolding decode_chunks hex
decode_chunks-digits [] [] v e = refl
decode_chunks-digits [] (b ∷ bs) v e = cc
decode_chunks-digits (c ∷ []) [] v e = cc
decode_chunks-digits (c ∷ []) (b ∷ bs) v e = cc
decode_chunks-digits (c ∷ d ∷ s) [] v e = cc
decode_chunks-digits (c ∷ d ∷ s) (b ∷ bs) (h, v) e =
    rw (decode_pair-digits c d b h (cc) (cc), decode_chunks-digits s bs v (cc)) refl

length-lower : (s : Bytes) → length (lower s) ≡ length s
length-lower [] = refl
length-lower (c ∷ s) = ap suc (length-lower s)

-- The digits of a string of bytes, in either case, are decoded as that string.
pub decode_fixed_hex-digits :
    (s bs : Bytes) → All IsByte bs → lower s ≡ hex bs → decode_fixed_hex (length bs) s ≡ ok bs
unfolding decode_fixed_hex decode_hex
decode_fixed_hex-digits s bs v e =
    ground (arith, decode_chunks-digits s bs v e, length-lower s, length-hex bs, ap length e)

digit-ne-colon : (c : ℕ) → IsLowerHex (to_ascii_lowercase c) → c ≢ b':'
unfolding to_ascii_lowercase
digit-ne-colon c h e = ground arith

lower-Lacks : (s : Bytes) → All IsLowerHex (lower s) → Lacks b':' s
lower-Lacks [] h = tt
lower-Lacks (c ∷ s) (h, t) = (digit-ne-colon c h, lower-Lacks s t)

pub digits-Lacks : (s bs : Bytes) → All IsByte bs → lower s ≡ hex bs → Lacks b':' s
digits-Lacks s bs v e = lower-Lacks s (subst (All IsLowerHex) (sym e) (hex-IsLowerHex bs v))
