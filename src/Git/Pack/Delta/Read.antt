-- ===== src/Git/Pack/Delta/Read.antt =====
-- `read_delta_varint` and the numbers of a copy in `apply_pack_delta`, crates/gitmesh-git/src/lib.rs:
-- the bytes that they are read from.
use git_mesh.Prelude.{
  ℕ, zero, suc, ◌+◌, ◌*◌, ◌/◌, ◌%◌, ◌^◌, ◌≤◌, ◌<◌, ◌≡◌, refl, ap, ◌∙◌, arith, Option, none, some,
  List, [], ◌∷◌, ◌++◌, Bytes, All, length, leb, eqb, ok, ok-injective, >>=-eq-ok, ok_or,
  checked_add, checked_shl, Bool-cases, inl, inr,
}
use git_mesh.Git.Object.{invalid_pack_delta}
use git_mesh.Git.Pack.Delta.{copy_byte, copy_number, read_delta_varint, varint_loop}
use git_mesh.Git.Pack.Header.RoundTrip.{shift_seven}
use git_mesh.Git.Pack.Delta.Spelling.{groups_value, IsLength, number, given, presence, Flags}

-- What `copy_number` reads from the bit `bit` and the place `place` on.
abbrev pub IsNumber : ℕ → ℕ → ℕ → ℕ → ℕ → Bytes → ℕ → Bytes → Type 0
IsNumber count command bit place value bytes next rest =
    (ds : List (Option ℕ)) × (length ds ≡ count)
    × Flags command bit ds
    × (bytes ≡ given ds ++ rest)
    × (next ≡ value + 256 ^ place * number ds)

abbrev IsDigit : ℕ → ℕ → ℕ → ℕ → Bytes → ℕ → Bytes → Type 0
IsDigit command bit place value bytes next rest =
    (d : Option ℕ) × (command / 2 ^ bit % 2 ≡ presence d)
    × (bytes ≡ given (d ∷ []) ++ rest)
    × (next ≡ value + 256 ^ place * number (d ∷ []))

copy_byte-eq-ok :
    (command bit place value : ℕ) (bytes : Bytes) {next : ℕ} {rest : Bytes}
    → copy_byte command bit place value bytes ≡ ok (next, rest)
    → IsDigit command bit place value bytes next rest
unfolding copy_byte
copy_byte-eq-ok command bit place value [] h = (none, ground arith, ground arith, ground arith)
copy_byte-eq-ok command bit place value (b ∷ bytes) h =
    elim (Bool-cases (eqb (command / 2 ^ bit % 2) 1)) [
      | inl on ↦ (some b, ground arith, ground arith, ground arith)
      | inr off ↦ (none, ground arith, ground arith, ground arith)
    ]

given-append :
    (d : Option ℕ) (ds : List (Option ℕ)) (rest : Bytes)
    → given (d ∷ []) ++ (given ds ++ rest) ≡ given (d ∷ ds) ++ rest
given-append none ds rest = refl
given-append (some b) ds rest = refl

scaled : (k p v : ℕ) → k * p * v ≡ p * (k * v)
scaled k p v = grind arith

next_power : (place : ℕ) → 256 ^ suc place ≡ 256 * 256 ^ place
next_power place = omega arith

scale : (place v : ℕ) → 256 ^ suc place * v ≡ 256 ^ place * (256 * v)
scale place v = ap (λ (t : ℕ). t * v) (next_power place) ∙ scaled 256 (256 ^ place) v

number_step :
    (value place : ℕ) (d : Option ℕ) (ds : List (Option ℕ))
    → value + 256 ^ place * number (d ∷ []) + 256 ^ suc place * number ds
      ≡ value + 256 ^ place * number (d ∷ ds)
number_step value place none ds = omega (arith, scale place (number ds))
number_step value place (some b) ds = grind (arith, scale place (number ds))

pub copy_number-eq-ok :
    (count command bit place value : ℕ) (bytes : Bytes) {next : ℕ} {rest : Bytes}
    → copy_number count command bit place value bytes ≡ ok (next, rest)
    → IsNumber count command bit place value bytes next rest
unfolding copy_number
copy_number-eq-ok zero command bit place value bytes h =
    ([], refl, tt, ap (λ p. p.1) (ok-injective h), ground arith)
copy_number-eq-ok (suc count) command bit place value bytes h =
    let ((next, rest), first, later) = >>=-eq-ok (copy_byte command bit place value bytes) _ h in
    let (d, bit_d, front, step) = copy_byte-eq-ok command bit place value bytes first in
    let (ds, same_count, flags, behind, total) =
      copy_number-eq-ok count command (suc bit) (suc place) next rest later in
    (
      d ∷ ds,
      ap suc same_count,
      (bit_d, flags),
      front ∙ ap (λ s. given (d ∷ []) ++ s) behind ∙ given-append d ds _,
      total ∙ ap (λ n. n + 256 ^ suc place * number ds) step ∙ number_step value place d ds,
    )

-- A length that is read from the shift `shift` on, behind groups that make `value`.
abbrev IsLengthFrom : ℕ → ℕ → ℕ → Bytes → Bytes → Type 0
IsLengthFrom value shift n bytes rest =
    (groups : Bytes) × (last : ℕ) × All (λ g. 128 ≤ g) groups
    × (last < 128)
    × (bytes ≡ groups ++ (last ∷ rest))
    × (n ≡ (value + 2 ^ shift * groups_value groups last) % 2 ^ 64)

reduced : (value a b : ℕ) → (value + a % 2 ^ 64 + b) % 2 ^ 64 ≡ (value + (a + b)) % 2 ^ 64
reduced value a b = omega arith

scale_group :
    (shift byte v : ℕ) → byte * 2 ^ shift + 2 ^ (shift + 7) * v ≡ 2 ^ shift * (byte + 128 * v)
scale_group shift byte v =
    ap (λ (t : ℕ). byte * 2 ^ shift + t * v) (shift_seven shift) ∙ scaled_sum (2 ^ shift) byte v
  where
    scaled_sum : (p b w : ℕ) → b * p + 128 * p * w ≡ p * (b + 128 * w)
    scaled_sum p b w = grind arith

last_value :
    (value a sum : ℕ) → sum ≡ value + a % 2 ^ 64 → sum < 2 ^ 64 → sum ≡ (value + a) % 2 ^ 64
last_value value a sum step below = omega arith

low_group : (byte p : ℕ) → byte < 128 → byte % 128 * p ≡ p * byte
low_group byte p low = ap (λ (t : ℕ). t * p) same ∙ grind arith
  where
    same : byte % 128 ≡ byte
    same = omega arith

-- The groups behind one that has the high bit.
inner_group :
    (value shift byte sum n : ℕ) (bytes rest : Bytes)
    → 128 ≤ byte
    → sum ≡ value + byte % 128 * 2 ^ shift % 2 ^ 64
    → IsLengthFrom sum (shift + 7) n bytes rest
    → IsLengthFrom value shift n (byte ∷ bytes) rest
inner_group value shift byte sum n bytes rest high step (groups, last, highs, low, text, total) = (
  byte ∷ groups,
  last,
  (high, highs),
  low,
  ap (λ s. byte ∷ s) text,
  total
      ∙ ap (λ a. (a + 2 ^ (shift + 7) * groups_value groups last) % 2 ^ 64) step
      ∙ reduced value (byte % 128 * 2 ^ shift) (2 ^ (shift + 7) * groups_value groups last)
      ∙ ap (λ a. (value + a) % 2 ^ 64) (scale_group shift (byte % 128) (groups_value groups last)),
)

varint_loop-eq-ok :
    (value shift : ℕ) (bytes : Bytes) {n : ℕ} {rest : Bytes}
    → varint_loop value shift bytes ≡ ok (n, rest)
    → IsLengthFrom value shift n bytes rest
unfolding varint_loop
varint_loop-eq-ok value shift [] h = cc
varint_loop-eq-ok value shift (byte ∷ bytes) {n} {rest} h =
    let (bits, shifted, h1) =
      >>=-eq-ok (ok_or (checked_shl (byte % 128) shift) invalid_pack_delta) _ h in
    let (sum, added, h2) = >>=-eq-ok (ok_or (checked_add value bits) invalid_pack_delta) _ h1 in
    let step : sum ≡ value + byte % 128 * 2 ^ shift % 2 ^ 64 = ground arith in
    elim (Bool-cases (leb 128 byte)) [
      | inl high ↦
          inner_group value shift byte sum n bytes rest (ground arith) step
            (varint_loop-eq-ok sum (shift + 7) bytes (ground arith))
      | inr low ↦ (
        [],
        byte,
        tt,
        ground arith,
        ground arith,
        (ground arith)
            ∙ last_value value (byte % 128 * 2 ^ shift) sum step (ground arith)
            ∙ ap (λ a. (value + a) % 2 ^ 64) (low_group byte (2 ^ shift) (ground arith)),
      )
    ]

pub read_delta_varint-IsLength :
    (bytes : Bytes) (n : ℕ) (rest : Bytes)
    → read_delta_varint bytes ≡ ok (n, rest)
    → IsLength n bytes rest
unfolding read_delta_varint
read_delta_varint-IsLength bytes n rest h =
    let (groups, last, highs, low, text, total) = varint_loop-eq-ok 0 0 bytes h in
    (groups, last, highs, low, text, total ∙ omega arith)
