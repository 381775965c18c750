-- ===== src/Git/Pack/Delta/Lengths.antt =====
-- The lengths in front of a delta, written and read.
use git_mesh.Prelude.{
  ℕ, zero, suc, ◌+◌, ◌*◌, ◌/◌, ◌%◌, ◌^◌, ◌≡◌, ◌<◌, ap, ◌∙◌, arith, [], ◌∷◌, ◌++◌, Bytes, ltb, ok,
  if◌then◌else◌, Bool-cases, inl, inr, ltb→lt,
}
use git_mesh.Git.Pack.Delta.{read_delta_varint, varint_loop}
use git_mesh.Git.Pack.Header.RoundTrip.{shift_lt, split_size}

abbrev pub varint_bytes : ℕ → ℕ → Bytes
varint_bytes zero n = []
varint_bytes (suc fuel) n =
    let rest = varint_bytes fuel (n / 128) in if ltb n 128 then n ∷ [] else (n % 128 + 128) ∷ rest

last_group :
    (n value shift : ℕ) (rest : Bytes)
    → n < 128
    → shift < 64
    → value + n * 2 ^ shift < 2 ^ 64
    → varint_loop value shift (n ∷ rest) ≡ ok (value + n * 2 ^ shift, rest)
unfolding varint_loop
last_group n value shift rest small low fits = ground arith

inner_group :
    (group value shift : ℕ) (rest : Bytes)
    → group < 128
    → shift < 64
    → value + group * 2 ^ shift < 2 ^ 64
    → varint_loop value shift ((group + 128) ∷ rest)
      ≡ varint_loop (value + group * 2 ^ shift) (shift + 7) rest
unfolding varint_loop
inner_group group value shift rest small low fits = ground arith

varint_loop-varint_bytes :
    (fuel n value shift : ℕ) (rest : Bytes)
    → n < 128 ^ fuel
    → 0 < fuel
    → shift < 64
    → value + n * 2 ^ shift < 2 ^ 64
    → varint_loop value shift (varint_bytes fuel n ++ rest) ≡ ok (value + n * 2 ^ shift, rest)
unfolding varint_loop
varint_loop-varint_bytes zero n value shift rest below some low fits = absurd (omega arith)
varint_loop-varint_bytes (suc fuel) n value shift rest below some low fits =
    elim (Bool-cases (ltb n 128)) [
      | inl small ↦ rw small (last_group n value shift rest (ltb→lt n 128 small) low fits)
      | inr large ↦ rw large (
          inner_group (n % 128) value shift (varint_bytes fuel (n / 128) ++ rest) (omega arith) low
            (omega (arith, split_size n shift))
          ∙ varint_loop-varint_bytes fuel (n / 128) (value + n % 128 * 2 ^ shift) (shift + 7) rest
              (omega arith) (ground arith)
              (shift_lt (shift + 7) (n / 128) (value + n % 128 * 2 ^ shift) (ground arith)
                (omega (arith, split_size n shift)))
              (omega (arith, split_size n shift))
          ∙ ap (λ v. ok (v, rest)) (omega (arith, split_size n shift)))
    ]

pub read_delta_varint-varint_bytes :
    (n : ℕ) (rest : Bytes)
    → n < 2 ^ 64
    → read_delta_varint (varint_bytes 10 n ++ rest) ≡ ok (n, rest)
unfolding read_delta_varint
read_delta_varint-varint_bytes n rest h =
    varint_loop-varint_bytes 10 n 0 0 rest (omega arith) (omega arith) (omega arith) (omega arith)
    ∙ ap (λ m. ok (m, rest)) (omega arith)
