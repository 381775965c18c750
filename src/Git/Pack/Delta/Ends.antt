-- ===== src/Git/Pack/Delta/Ends.antt =====
-- The loop of `apply_pack_delta` ends, and what is refused is refused as `InvalidPackDelta`.
use git_mesh.Prelude.{
  ℕ, zero, suc, ◌+◌, ◌-◌, ◌*◌, ◌%◌, ◌^◌, ◌≡◌, ◌≤◌, ◌⊎◌, arith, [], ◌∷◌, ◌++◌, Bytes, length, ltb,
  eqb, not, Result, Result-cases, ok, err, FailsOnly, >>=-FailsOnly, fail_if, inl, inr, ◌>>=◌, ◌>>◌,
}
use git_mesh.Git.Object.{GitError, invalid_pack_delta, panicked}
use git_mesh.Git.Pack.Delta.{
  copy_byte, copy_number, copy_size, copy_range, copy_command, insert_command, delta_command,
  delta_loop, read_delta_varint, varint_loop, apply_pack_delta,
}
use git_mesh.Git.Pack.Delta.Sound.{delta_command_shorter}

abbrev Refuses {ℓ} : {A : Type ℓ} → Result GitError A → Type ℓ
Refuses r = FailsOnly invalid_pack_delta r

copy_byte-Refuses :
    (command bit place value : ℕ) (bytes : Bytes)
    → Refuses (copy_byte command bit place value bytes)
unfolding copy_byte
copy_byte-Refuses command bit place value [] e h = ground arith
copy_byte-Refuses command bit place value (b ∷ bytes) e h = ground arith

copy_number-Refuses :
    (count command bit place value : ℕ) (bytes : Bytes)
    → Refuses (copy_number count command bit place value bytes)
unfolding copy_number
copy_number-Refuses zero command bit place value bytes = λ e h. cc
copy_number-Refuses (suc count) command bit place value bytes =
    >>=-FailsOnly _ _ _ (copy_byte-Refuses command bit place value bytes)
      (λ r _. copy_number-Refuses count command (suc bit) (suc place) r.0 r.1)

copy_range-Refuses : (base : Bytes) (offset size : ℕ) → Refuses (copy_range base offset size)
unfolding copy_range
copy_range-Refuses base offset size e h = ground arith

copy_command-Refuses :
    (base : Bytes) (command : ℕ) (bytes : Bytes) → Refuses (copy_command base command bytes)
unfolding copy_command
copy_command-Refuses base command bytes =
    >>=-FailsOnly _ (copy_number 4 command 0 0 0 bytes) _
      (copy_number-Refuses 4 command 0 0 0 bytes)
      (λ r _.
        >>=-FailsOnly _ (copy_number 3 command 4 0 0 r.1) _
          (copy_number-Refuses 3 command 4 0 0 r.1)
          (λ d _.
            >>=-FailsOnly _ (copy_range base r.0 (copy_size d.0)) _
              (copy_range-Refuses base r.0 (copy_size d.0)) (λ c _ e h. cc)))

insert_command-Refuses : (size : ℕ) (bytes : Bytes) → Refuses (insert_command size bytes)
unfolding insert_command
insert_command-Refuses size bytes e h = ground arith

delta_command-Refuses :
    (base : Bytes) (command : ℕ) (bytes : Bytes) → Refuses (delta_command base command bytes)
unfolding delta_command
delta_command-Refuses base command bytes e h =
    ground
      (arith, copy_command-Refuses base command bytes e, insert_command-Refuses command bytes e)

delta_loop-Refuses :
    (fuel : ℕ) (base out bytes : Bytes)
    → length bytes ≤ fuel
    → Refuses (delta_loop fuel base out bytes)
unfolding delta_loop
delta_loop-Refuses fuel base out [] h = λ e k. cc
delta_loop-Refuses zero base out (c ∷ bytes) h = absurd (omega arith)
delta_loop-Refuses (suc fuel) base out (c ∷ bytes) h =
    >>=-FailsOnly _ _ _ (delta_command-Refuses base c bytes) (λ r done.
      delta_loop-Refuses fuel base (out ++ r.0) r.1
        (omega (arith, delta_command_shorter base c bytes done)))

varint_loop-Refuses : (value shift : ℕ) (bytes : Bytes) → Refuses (varint_loop value shift bytes)
unfolding varint_loop
varint_loop-Refuses value shift [] e h = cc
varint_loop-Refuses value shift (byte ∷ rest) e h =
    ground (arith, varint_loop-Refuses (value + byte % 128 * 2 ^ shift % 2 ^ 64) (shift + 7) rest e)

read_delta_varint-Refuses : (bytes : Bytes) → Refuses (read_delta_varint bytes)
unfolding read_delta_varint
read_delta_varint-Refuses bytes = varint_loop-Refuses 0 0 bytes

-- What follows the two lengths.
abbrev patched : Bytes → ℕ → Bytes → Result GitError Bytes
patched base target_len commands = do
  fail_if (ltb (2 ^ 63 - 1) target_len) panicked
  out ← delta_loop (length commands) base [] commands
  fail_if (not (eqb (length out) target_len)) invalid_pack_delta
  ok out

Known : GitError → Type 0
Known e = (e ≡ invalid_pack_delta) ⊎ (e ≡ panicked)

patched-eq-err :
    (base : Bytes) (target_len : ℕ) (commands : Bytes) (e : GitError)
    → patched base target_len commands ≡ err e
    → Known e
unfolding Known
patched-eq-err base target_len commands e h =
    ground (arith, delta_loop-Refuses (length commands) base [] commands (omega arith) e)

pub apply_pack_delta-eq-err :
    (base delta : Bytes) (e : GitError)
    → apply_pack_delta base delta ≡ err e
    → (e ≡ invalid_pack_delta) ⊎ (e ≡ panicked)
unfolding apply_pack_delta Known
apply_pack_delta-eq-err base delta e h = elim (Result-cases (read_delta_varint delta)) [
  | inr (c, bad) ↦ ground (arith, read_delta_varint-Refuses delta c)
  | inl (source, read) ↦ elim (Result-cases (read_delta_varint source.1)) [
    | inr (c, bad) ↦ ground (arith, read_delta_varint-Refuses source.1 c)
    | inl (target, read') ↦ ground (arith, patched-eq-err base target.0 target.1 e)
  ]
]
