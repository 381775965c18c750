-- ===== src/Git/Pack/Delta/Copy.antt =====
-- The bytes of a copy's offset and size, written and read.
use git_mesh.Prelude.{
  ℕ, suc, ◌+◌, ◌*◌, ◌/◌, ◌%◌, ◌^◌, ◌≡◌, ◌≤◌, ◌<◌, refl, ap, ◌∙◌, arith, [], ◌∷◌, ◌++◌, Bytes,
  length, take, drop, eqb, ok, if◌then◌else◌, ◌>>=◌,
}
use git_mesh.Git.Pack.Delta.{copy_byte, copy_number, copy_size, copy_range, copy_command}
use git_mesh.Git.Pack.Delta.Spec.{DeltaOp, copy, insert}

-- A byte of a number is written unless it is 0, and the command has a bit for it.
abbrev pub flag : ℕ → ℕ
flag v = if eqb v 0 then 0 else 1

abbrev pub shown : ℕ → Bytes
shown v = if eqb v 0 then [] else v ∷ []

copy_byte-shown :
    (command bit place value v : ℕ) (rest : Bytes)
    → command / 2 ^ bit % 2 ≡ flag v
    → copy_byte command bit place value (shown v ++ rest) ≡ ok (value + v * 256 ^ place, rest)
unfolding copy_byte
copy_byte-shown command bit place value v rest h = ground arith

abbrev pub copy_flags : ℕ → ℕ → ℕ → ℕ → ℕ → ℕ → ℕ → ℕ
copy_flags o0 o1 o2 o3 s0 s1 s2 =
    128
    + flag o0
    + 2 * flag o1
    + 4 * flag o2
    + 8 * flag o3
    + 16 * flag s0
    + 32 * flag s1
    + 64 * flag s2

copy_number-shown :
    (count command bit place value v : ℕ) (rest : Bytes)
    → command / 2 ^ bit % 2 ≡ flag v
    → copy_number (suc count) command bit place value (shown v ++ rest)
      ≡ copy_number count command (suc bit) (suc place) (value + v * 256 ^ place) rest
unfolding copy_number
copy_number-shown count command bit place value v rest h =
    rw (copy_byte-shown command bit place value v rest h)

copy_number_end :
    (command bit place value : ℕ) (rest : Bytes)
    → copy_number 0 command bit place value rest ≡ ok (value, rest)
unfolding copy_number
copy_number_end command bit place value rest = refl

copy_number_offset :
    (command o0 o1 o2 o3 : ℕ) (rest : Bytes)
    → command % 2 ≡ flag o0
    → command / 2 % 2 ≡ flag o1
    → command / 4 % 2 ≡ flag o2
    → command / 8 % 2 ≡ flag o3
    → copy_number 4 command 0 0 0 (shown o0 ++ (shown o1 ++ (shown o2 ++ (shown o3 ++ rest))))
      ≡ ok (o0 + o1 * 256 + o2 * 65536 + o3 * 16777216, rest)
copy_number_offset command o0 o1 o2 o3 rest h0 h1 h2 h3 =
    copy_number-shown 3 command 0 0 0 o0 _ (omega (arith, h0))
    ∙ copy_number-shown 2 command 1 1 _ o1 _ h1
    ∙ copy_number-shown 1 command 2 2 _ o2 _ h2
    ∙ copy_number-shown 0 command 3 3 _ o3 _ h3
    ∙ copy_number_end command 4 4 _ rest
    ∙ ap (λ n. ok (n, rest)) (omega arith)

copy_number_size :
    (command s0 s1 s2 : ℕ) (rest : Bytes)
    → command / 16 % 2 ≡ flag s0
    → command / 32 % 2 ≡ flag s1
    → command / 64 % 2 ≡ flag s2
    → copy_number 3 command 4 0 0 (shown s0 ++ (shown s1 ++ (shown s2 ++ rest)))
      ≡ ok (s0 + s1 * 256 + s2 * 65536, rest)
copy_number_size command s0 s1 s2 rest h0 h1 h2 =
    copy_number-shown 2 command 4 0 _ s0 _ h0
    ∙ copy_number-shown 1 command 5 1 _ s1 _ h1
    ∙ copy_number-shown 0 command 6 2 _ s2 _ h2
    ∙ copy_number_end command 7 3 _ rest
    ∙ ap (λ n. ok (n, rest)) (omega arith)

-- The command of an operation, in front of those that follow it.
abbrev pub put_op : DeltaOp → Bytes → Bytes
put_op (copy offset size) rest =
    copy_flags (offset % 256) (offset / 256 % 256) (offset / 65536 % 256) (offset / 16777216)
      (size % 256) (size / 256 % 256) (size / 65536)
    ∷ (shown (offset % 256)
        ++ (shown (offset / 256 % 256)
            ++ (shown (offset / 65536 % 256)
                ++ (shown (offset / 16777216)
                    ++ (shown (size % 256)
                        ++ (shown (size / 256 % 256) ++ (shown (size / 65536) ++ rest)))))))
put_op (insert s) rest = length s ∷ (s ++ rest)

-- An offset has four bytes and a size has three.
abbrev pub Fits : DeltaOp → Type 0
Fits (copy offset size) = (offset < 2 ^ 32) × (size < 2 ^ 24)
Fits (insert s) = Unit

pub copy_range-take :
    (base : Bytes) (offset size : ℕ)
    → offset + size ≤ length base
    → offset + size < 2 ^ 64
    → copy_range base offset size ≡ ok (take size (drop offset base))
unfolding copy_range
copy_range-take base offset size h k = ground arith

flag-le : (v : ℕ) → flag v ≤ 1
flag-le v = ground arith

abbrev FlagBits : ℕ → ℕ → ℕ → ℕ → ℕ → ℕ → ℕ → ℕ → Type 0
FlagBits command a b c d e f g =
    (command % 2 ≡ a)
    × (command / 2 % 2 ≡ b)
    × (command / 4 % 2 ≡ c)
    × (command / 8 % 2 ≡ d)
    × (command / 16 % 2 ≡ e)
    × (command / 32 % 2 ≡ f)
    × (command / 64 % 2 ≡ g)

bits_of_sum :
    (a b c d e f g : ℕ)
    → a ≤ 1
    → b ≤ 1
    → c ≤ 1
    → d ≤ 1
    → e ≤ 1
    → f ≤ 1
    → g ≤ 1
    → FlagBits (128 + a + 2 * b + 4 * c + 8 * d + 16 * e + 32 * f + 64 * g) a b c d e f g
bits_of_sum a b c d e f g ha hb hc hd he hf hg =
    (omega arith, omega arith, omega arith, omega arith, omega arith, omega arith, omega arith)

pub copy_command-flags :
    (base : Bytes) (o0 o1 o2 o3 s0 s1 s2 : ℕ) (rest : Bytes)
    → copy_command base (copy_flags o0 o1 o2 o3 s0 s1 s2) (
        shown o0
        ++ (shown o1 ++ (shown o2 ++ (shown o3 ++ (shown s0 ++ (shown s1 ++ (shown s2 ++ rest)))))))
      ≡ (copy_range base
            (o0 + o1 * 256 + o2 * 65536 + o3 * 16777216)
            (copy_size (s0 + s1 * 256 + s2 * 65536))
          >>= λ copied. ok (copied, rest))
unfolding copy_command
copy_command-flags base o0 o1 o2 o3 s0 s1 s2 rest =
    let (b0, b1, b2, b3, b4, b5, b6) =
      bits_of_sum (flag o0) (flag o1) (flag o2) (flag o3) (flag s0) (flag s1) (flag s2) (flag-le o0)
        (flag-le o1) (flag-le o2) (flag-le o3) (flag-le s0) (flag-le s1) (flag-le s2) in
    rw (
      copy_number_offset (copy_flags o0 o1 o2 o3 s0 s1 s2) o0 o1 o2 o3
          (shown s0 ++ (shown s1 ++ (shown s2 ++ rest))) b0 b1 b2 b3,
      copy_number_size (copy_flags o0 o1 o2 o3 s0 s1 s2) s0 s1 s2 rest b4 b5 b6,
    )

pub four_bytes :
    (n : ℕ) → n % 256 + n / 256 % 256 * 256 + n / 65536 % 256 * 65536 + n / 16777216 * 16777216 ≡ n
four_bytes n = omega arith

pub three_bytes : (n : ℕ) → n % 256 + n / 256 % 256 * 256 + n / 65536 * 65536 ≡ n
three_bytes n = omega arith

pub copy_size_some : (n : ℕ) → 0 < n → copy_size n ≡ n
copy_size_some n h = ground arith
