-- ===== src/Git/Pack/Delta/Sound.antt =====
-- `apply_pack_delta` of crates/gitmesh-git/src/lib.rs, beside the text of the delta that it reads.
use git_mesh.Prelude.{
  ℕ, zero, suc, ◌+◌, ◌-◌, ◌^◌, ◌≡◌, ◌≤◌, ◌<◌, refl, sym, ap, ◌∙◌, subst, arith, List, [], ◌∷◌, ◌++◌,
  map, append_assoc, append-nil, Bytes, All, length, length-append, take, drop, length-take,
  take-append_drop, ltb, leb, eqb, ok, ok-injective, >>=-eq-ok, fail_if-eq-ok, require-eq-ok,
  eqb→eq, inl, inr, Bool-cases,
}
use git_mesh.Git.Object.{invalid_pack_delta, panicked}
use git_mesh.Git.Pack.Delta.{
  copy_number, copy_size, copy_range, copy_command, insert_command, delta_command, delta_loop,
  read_delta_varint, apply_pack_delta,
}
use git_mesh.Git.Pack.Delta.Spec.{op_bytes, patch}
use git_mesh.Git.Pack.Delta.Spelling.{
  given, number, size_of, DeltaCommand, copying, inserting, operation, command_bytes,
  commands_bytes, IsCommand, IsLength, IsPatch,
}
use git_mesh.Git.Pack.Delta.Read.{copy_number-eq-ok, read_delta_varint-IsLength}

-- The command byte and what follows it spell a command, with `rest` behind it.
abbrev Spells : Bytes → ℕ → Bytes → Bytes → Bytes → Type 0
Spells base command bytes out rest =
    (c : DeltaCommand) × IsCommand base c
    × (command ∷ bytes ≡ command_bytes c ++ rest)
    × (out ≡ op_bytes base (operation c))

copy_range-eq-ok :
    (base : Bytes) (offset size : ℕ) {out : Bytes}
    → copy_range base offset size ≡ ok out
    → (offset + size ≤ length base) × (out ≡ take size (drop offset base))
unfolding copy_range
copy_range-eq-ok base offset size h = ground arith

copy_size-eq-size_of : (declared : ℕ) → copy_size declared ≡ size_of declared
copy_size-eq-size_of zero = refl
copy_size-eq-size_of (suc n) = ground arith

size_of_positive : (declared : ℕ) → 0 < size_of declared
size_of_positive zero = omega arith
size_of_positive (suc n) = omega arith

copy_command-eq-ok :
    (base : Bytes) (command : ℕ) (bytes : Bytes) {out rest : Bytes}
    → 128 ≤ command
    → copy_command base command bytes ≡ ok (out, rest)
    → Spells base command bytes out rest
unfolding copy_command
copy_command-eq-ok base command bytes high h =
    let ((offset, after_offset), at_offset, h1) =
      >>=-eq-ok (copy_number 4 command 0 0 0 bytes) _ h in
    let ((declared, rest), at_size, h2) =
      >>=-eq-ok (copy_number 3 command 4 0 0 after_offset) _ h1 in
    let (copied, at_range, h3) = >>=-eq-ok (copy_range base offset (copy_size declared)) _ h2 in
    let (os, four, offset_flags, offset_text, offset_value) =
      copy_number-eq-ok 4 command 0 0 0 bytes at_offset in
    let (ss, three, size_flags, size_text, size_value) =
      copy_number-eq-ok 3 command 4 0 0 after_offset at_size in
    let same_offset : offset ≡ number os = omega arith in
    let same_size : copy_size declared ≡ size_of (number ss) =
      copy_size-eq-size_of declared ∙ ap size_of (omega arith) in
    let (within, same) =
      copy_range-eq-ok base (number os) (size_of (number ss))
        (rw (← same_offset, ← same_size) at_range) in
    let e = ok-injective h3 in
    (
      copying command os ss,
      ((high, four, three, offset_flags, size_flags), (size_of_positive (number ss), within)),
      ap (λ s. command ∷ s)
          (offset_text
            ∙ ap (λ s. given os ++ s) (size_text ∙ ap (λ p. given ss ++ p.1) e)
            ∙ sym (append_assoc (given os) (given ss) _)),
      sym (ap (λ p. p.0) e) ∙ same,
    )

insert_command-eq-ok :
    (base : Bytes) (size : ℕ) (bytes : Bytes) {out rest : Bytes}
    → 0 < size
    → size < 128
    → insert_command size bytes ≡ ok (out, rest)
    → Spells base size bytes out rest
unfolding insert_command
insert_command-eq-ok base size bytes more small h =
    let (within, done) = fail_if-eq-ok (ltb (length bytes) size) invalid_pack_delta _ h in
    let taken : length (take size bytes) ≡ size = length-take size bytes (ground arith) in
    let e = ok-injective done in
    (
      inserting (take size bytes),
      (tt, (omega arith, omega arith)),
      ap (λ n. n ∷ bytes) (sym taken)
          ∙ ap (λ s. length (take size bytes) ∷ s)
              (sym (take-append_drop size bytes) ∙ ap (λ p. take size bytes ++ p.1) e),
      sym (ap (λ p. p.0) e),
    )

delta_command-eq-ok :
    (base : Bytes) (command : ℕ) (bytes : Bytes) {out rest : Bytes}
    → delta_command base command bytes ≡ ok (out, rest)
    → Spells base command bytes out rest
unfolding delta_command
delta_command-eq-ok base command bytes h = elim (Bool-cases (leb 128 command)) [
  | inl copies ↦ copy_command-eq-ok base command bytes (ground arith) (ground arith)
  | inr inserts ↦ elim (Bool-cases (eqb command 0)) [
    | inl none_left ↦ absurd (ground arith)
    | inr more ↦
        insert_command-eq-ok base command bytes (ground arith) (ground arith) (ground arith)
  ]
]

command_bytes_some :
    (c : DeltaCommand) (rest : Bytes) → length rest < length (command_bytes c ++ rest)
command_bytes_some (copying flags os ss) rest =
    omega (arith, length-append (given os ++ given ss) rest)
command_bytes_some (inserting s) rest = omega (arith, length-append s rest)

-- Of the bytes behind a command, those behind its operands are not more.
pub delta_command_shorter :
    (base : Bytes) (command : ℕ) (bytes : Bytes) {out rest : Bytes}
    → delta_command base command bytes ≡ ok (out, rest)
    → length rest ≤ length bytes
delta_command_shorter base command bytes h =
    let (c, _, text, _) = delta_command-eq-ok base command bytes h in
    omega (arith, command_bytes_some c _, ap length text)

-- The commands that `bytes` spells make what `out` has behind `front`.
abbrev SpellsAll : Bytes → Bytes → Bytes → Bytes → Type 0
SpellsAll base front bytes out =
    (commands : List DeltaCommand) × All (IsCommand base) commands
    × (bytes ≡ commands_bytes commands)
    × (out ≡ front ++ patch base (map operation commands))

delta_loop-eq-ok :
    (fuel : ℕ) (base front bytes : Bytes) {out : Bytes}
    → delta_loop fuel base front bytes ≡ ok out
    → SpellsAll base front bytes out
unfolding delta_loop
delta_loop-eq-ok fuel base front [] h =
    ([], tt, refl, sym (ok-injective h) ∙ sym (append-nil front))
delta_loop-eq-ok zero base front (c ∷ bytes) h = cc
delta_loop-eq-ok (suc fuel) base front (c ∷ bytes) h =
    let ((appended, later), first, rest) = >>=-eq-ok (delta_command base c bytes) _ h in
    let (command, valid, text, same) = delta_command-eq-ok base c bytes first in
    let (commands, all_valid, texts, whole) =
      delta_loop-eq-ok fuel base (front ++ appended) later rest in
    (
      command ∷ commands,
      (valid, all_valid),
      text ∙ ap (λ s. command_bytes command ++ s) texts,
      whole
          ∙ append_assoc front appended (patch base (map operation commands))
          ∙ ap (λ s. front ++ (s ++ patch base (map operation commands))) same,
    )

-- A delta that is accepted is the length of the base, the length of the result and a list of
-- commands, and nothing behind them; each length, in groups of seven bits, is taken modulo 2 ^
-- 64. A copy is a byte whose low seven bits say which of the four bytes of an offset and the
-- three of a size follow; what is left out counts as 0, and a size of 0 as 65536. An insertion
-- is its length, from 1 to 127, and its bytes. Every copy lies within the base, and the result
-- is what the commands append one after the other.
pub apply_pack_delta-eq-ok :
    (base delta out : Bytes) → apply_pack_delta base delta ≡ ok out → IsPatch base delta out
unfolding apply_pack_delta
apply_pack_delta-eq-ok base delta out h =
    let ((source_len, after_source), source, h1) = >>=-eq-ok (read_delta_varint delta) _ h in
    let (source_fits, h2) = require-eq-ok (eqb source_len (length base)) invalid_pack_delta _ h1 in
    let ((target_len, text), target, h3) = >>=-eq-ok (read_delta_varint after_source) _ h2 in
    let (_, h4) = fail_if-eq-ok (ltb (2 ^ 63 - 1) target_len) panicked _ h3 in
    let (made, looped, h5) = >>=-eq-ok (delta_loop (length text) base [] text) _ h4 in
    let (target_fits, done) =
      require-eq-ok (eqb (length made) target_len) invalid_pack_delta _ h5 in
    let (commands, valid, texts, same) = delta_loop-eq-ok (length text) base [] text looped in
    let made_out = ok-injective done in
    (
      after_source,
      commands,
      subst (λ n. IsLength n delta after_source) (eqb→eq source_len (length base) source_fits)
          (read_delta_varint-IsLength delta source_len after_source source),
      subst (λ n. IsLength n after_source (commands_bytes commands))
          (sym (eqb→eq (length made) target_len target_fits) ∙ ap length made_out)
          (subst (IsLength target_len after_source) texts
            (read_delta_varint-IsLength after_source target_len text target)),
      valid,
      sym made_out ∙ same,
    )
