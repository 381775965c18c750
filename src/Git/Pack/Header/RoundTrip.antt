-- ===== src/Git/Pack/Header/RoundTrip.antt =====
-- The header of a pack's entry, written and read.
use git_mesh.Prelude.{
  ℕ, zero, suc, ◌+◌, ◌*◌, ◌/◌, ◌%◌, ◌^◌, ◌≤◌, ◌<◌, ◌≡◌, refl, ap, [], ◌∷◌, ◌++◌, arith, Bytes,
  length, ok, Bool-cases, inl, inr, ltb, ltb→lt, false, ◌-◌, sym, subst, if◌then◌else◌, eqb,
}
use native.Mathlib.Nat.{div-add-mod, mul-le-mul_right}
use native.Mathlib.Numerals.{towards_suc}
use git_mesh.Git.Pack.Header.{
  header_loop, parse_pack_object_header, size_bytes, write_pack_object_header,
}

plus_zero : (s : ℕ) → s + 0 ≡ s
plus_zero s = omega arith

plus_suc : (s d : ℕ) → s + suc d ≡ suc (s + d)
plus_suc s d = omega arith

pow_suc : (s : ℕ) → 2 ^ (s + 1) ≡ 2 * 2 ^ s
pow_suc s = simp towards_suc (omega arith)

-- A shift that leaves a number below 2 ^ 64 is below 64.
shift_below : (s d : ℕ) → 2 ^ s ≤ 2 ^ (s + d)
shift_below s zero = omega (arith, ap (λ (t : ℕ). 2 ^ t) (plus_zero s))
shift_below s (suc d) =
    omega (arith, shift_below s d, pow_suc (s + d), ap (λ (t : ℕ). 2 ^ t) (plus_suc s d))

pub shift_lt : (shift n acc : ℕ) → 0 < n → acc + n * 2 ^ shift < 2 ^ 64 → shift < 64
shift_lt shift n acc h k = elim (Bool-cases (ltb shift 64)) [
  | inl small ↦ ltb→lt shift 64 small
  | inr large ↦ absurd (omega (arith, shift_below 64 (shift - 64), from_64 large, doubled))
]
  where
    from_64 : ltb shift 64 ≡ false → 2 ^ (64 + (shift - 64)) ≡ 2 ^ shift
    from_64 large = ap (λ (t : ℕ). 2 ^ t) (ground arith)

    doubled : 1 * 2 ^ shift ≤ n * 2 ^ shift
    doubled = mul-le-mul_right (2 ^ shift) h

pub shift_seven : (s : ℕ) → 2 ^ (s + 7) ≡ 128 * 2 ^ s
shift_seven s = simp towards_suc (omega arith)

pub split_size : (n s : ℕ) → n * 2 ^ s ≡ n % 128 * 2 ^ s + n / 128 * 2 ^ (s + 7)
split_size n s = omega (
  arith,
  ap (λ (t : ℕ). t * 2 ^ s) (div-add-mod n 128),
  ap (λ (t : ℕ). n / 128 * t) (shift_seven s),
)

last_round :
    (byte size shift consumed : ℕ) (rest : Bytes)
    → byte < 128
    → header_loop byte size shift consumed rest ≡ ok (size, consumed)
unfolding header_loop
last_round byte size shift consumed [] h = ground arith
last_round byte size shift consumed (b ∷ rest) h = ground arith

inner_round :
    (byte size shift consumed next : ℕ) (rest : Bytes)
    → 128 ≤ byte
    → shift < 64
    → size + next % 128 * 2 ^ shift < 2 ^ 64
    → header_loop byte size shift consumed (next ∷ rest)
      ≡ header_loop next (size + next % 128 * 2 ^ shift) (shift + 7) (suc consumed) rest
unfolding header_loop
inner_round byte size shift consumed next rest h k fits = ground arith

abbrev size_byte : ℕ → ℕ
size_byte n = if eqb (n / 128) 0 then n % 128 else n % 128 + 128

size_byte-mod : (n : ℕ) → size_byte n % 128 ≡ n % 128
size_byte-mod n = ground arith

size_bytes_zero : (fuel : ℕ) → size_bytes fuel 0 ≡ []
unfolding size_bytes
size_bytes_zero zero = refl
size_bytes_zero (suc fuel) = refl

size_bytes_more :
    (fuel n : ℕ) → 0 < n → size_bytes (suc fuel) n ≡ size_byte n ∷ size_bytes fuel (n / 128)
unfolding size_bytes
size_bytes_more fuel n h = ground arith

-- What the loop reads when a number is still to come, behind a byte that says so.
abbrev Reads : ℕ → ℕ → ℕ → ℕ → ℕ → ℕ → Bytes → Type 0
Reads fuel n byte size shift consumed rest =
    header_loop byte size shift consumed (size_bytes fuel n ++ rest)
    ≡ ok (size + n * 2 ^ shift, consumed + length (size_bytes fuel n))

loop_end :
    (fuel n byte size shift consumed : ℕ) (rest : Bytes)
    → n ≡ 0
    → byte < 128
    → Reads fuel n byte size shift consumed rest
loop_end fuel n byte size shift consumed rest h small =
    subst (λ n. Reads fuel n byte size shift consumed rest) (sym h)
      (rw (size_bytes_zero fuel) (ground (arith, last_round byte size shift consumed rest small)))

header_loop-size_bytes :
    (fuel n byte size shift consumed : ℕ) (rest : Bytes)
    → n < 128 ^ fuel
    → (n ≡ 0 → byte < 128)
    → (0 < n → 128 ≤ byte)
    → size + n * 2 ^ shift < 2 ^ 64
    → Reads fuel n byte size shift consumed rest
header_loop-size_bytes zero n byte size shift consumed rest below last more fits =
    loop_end zero n byte size shift consumed rest (omega arith) (last (omega arith))
header_loop-size_bytes (suc fuel) n byte size shift consumed rest below last more fits =
    elim (Bool-cases (ltb 0 n)) [
      | inr empty ↦
          loop_end (suc fuel) n byte size shift consumed rest (ground arith) (last (ground arith))
      | inl some_left ↦ rw (size_bytes_more fuel n (ltb→lt 0 n some_left)) (
          ground (
            arith,
            inner_round byte size shift consumed (size_byte n) (size_bytes fuel (n / 128) ++ rest),
            more (ltb→lt 0 n some_left),
            shift_lt shift n size (ltb→lt 0 n some_left) fits,
            size_byte-mod n,
            split_size n shift,
            header_loop-size_bytes fuel (n / 128) (size_byte n) (size + n % 128 * 2 ^ shift)
                (shift + 7) (suc consumed) rest,
          ))
    ]

abbrev first_byte : ℕ → ℕ → ℕ
first_byte kind size =
    if eqb (size / 16) 0 then kind % 8 * 16 + size % 16 else kind % 8 * 16 + size % 16 + 128

first_byte-mod : (kind size : ℕ) → kind < 8 → first_byte kind size % 16 ≡ size % 16
first_byte-mod kind size h = ground arith

first_byte-kind : (kind size : ℕ) → kind < 8 → first_byte kind size / 16 % 8 ≡ kind
first_byte-kind kind size h = ground arith

first_byte_last : (kind size : ℕ) → kind < 8 → size / 16 ≡ 0 → first_byte kind size < 128
first_byte_last kind size h e = ground arith

first_byte_more : (kind size : ℕ) → 0 < size / 16 → 128 ≤ first_byte kind size
first_byte_more kind size e = ground arith

pub parse_pack_object_header-write_pack_object_header :
    (kind size : ℕ) (rest : Bytes)
    → kind < 8
    → size < 2 ^ 64
    → parse_pack_object_header (write_pack_object_header kind size ++ rest)
      ≡ ok (kind, size, length (write_pack_object_header kind size))
unfolding parse_pack_object_header write_pack_object_header
parse_pack_object_header-write_pack_object_header kind size rest k h = ground (
  arith,
  header_loop-size_bytes 9 (size / 16) (first_byte kind size) (first_byte kind size % 16) 4 1 rest
      (omega arith) (first_byte_last kind size k) (first_byte_more kind size),
  first_byte-mod kind size k,
  first_byte-kind kind size k,
)

pub write_pack_object_header_nonempty :
    (kind size : ℕ) → 0 < length (write_pack_object_header kind size)
unfolding write_pack_object_header
write_pack_object_header_nonempty kind size = omega arith
