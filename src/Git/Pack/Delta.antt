-- ===== src/Git/Pack/Delta.antt =====
-- `read_delta_varint` and `apply_pack_delta` of crates/gitmesh-git/src/lib.rs. The bytes of a delta
-- that its cursor has not reached are a list.
pub mod Spec
pub mod Spelling
pub mod Read
pub mod Sound
pub mod Ends
pub mod Lengths
pub mod Copy
pub mod Complete
use git_mesh.Prelude.{
  ℕ, zero, suc, ◌+◌, ◌-◌, ◌*◌, ◌/◌, ◌%◌, ◌^◌, [], ◌∷◌, ◌++◌, Bytes, length, take, drop, ltb, leb,
  eqb, not, Result, ok, err, ok_or, fail_if, if◌then◌else◌, ◌>>=◌, ◌>>◌, checked_add, checked_shl,
}
use git_mesh.Git.Object.{GitError, invalid_pack_delta, panicked, out_of_fuel}

unfoldable pub varint_loop : ℕ → ℕ → Bytes → Result GitError (ℕ × Bytes)
varint_loop value shift [] = err invalid_pack_delta
varint_loop value shift (byte ∷ rest) = do
  bits ← ok_or (checked_shl (byte % 128) shift) invalid_pack_delta
  sum ← ok_or (checked_add value bits) invalid_pack_delta
  if leb 128 byte then varint_loop sum (shift + 7) rest else ok (sum, rest)

unfoldable pub read_delta_varint : Bytes → Result GitError (ℕ × Bytes)
unfolding varint_loop
read_delta_varint bytes = varint_loop 0 0 bytes

-- One round of the `for` loops of a copy: the bit of the command says whether a byte follows. The
-- bytes of a number do not overlap, so that `|=` adds.
unfoldable pub copy_byte : ℕ → ℕ → ℕ → ℕ → Bytes → Result GitError (ℕ × Bytes)
copy_byte command bit place value bytes =
    if eqb (command / 2 ^ bit % 2) 1
    then (elim bytes [
      | [] ↦ err invalid_pack_delta
      | byte ∷ rest ↦ ok (value + byte * 256 ^ place, rest)
    ])
    else ok (value, bytes)

-- The `for` loop over `count` places, the first of which has bit `bit`.
unfoldable pub copy_number : ℕ → ℕ → ℕ → ℕ → ℕ → Bytes → Result GitError (ℕ × Bytes)
unfolding copy_byte
copy_number zero command bit place value bytes = ok (value, bytes)
copy_number (suc count) command bit place value bytes = do
  (next, rest) ← copy_byte command bit place value bytes
  copy_number count command (suc bit) (suc place) next rest

-- A size of nothing stands for 0x10000.
abbrev pub copy_size : ℕ → ℕ
copy_size declared = if eqb declared 0 then 65536 else declared

unfoldable pub copy_range : Bytes → ℕ → ℕ → Result GitError Bytes
copy_range base offset size = do
  end ← ok_or (checked_add offset size) invalid_pack_delta
  fail_if (ltb (length base) end) invalid_pack_delta
  ok (take size (drop offset base))

-- The bytes that a command appends, and the commands behind it.
unfoldable pub copy_command : Bytes → ℕ → Bytes → Result GitError (Bytes × Bytes)
unfolding copy_number copy_range
copy_command base command bytes = do
  (offset, after_offset) ← copy_number 4 command 0 0 0 bytes
  (declared, rest) ← copy_number 3 command 4 0 0 after_offset
  copied ← copy_range base offset (copy_size declared)
  ok (copied, rest)

-- The cursor of a slice stays far below 2 ^ 64, so that `checked_add` does not fail here.
unfoldable pub insert_command : ℕ → Bytes → Result GitError (Bytes × Bytes)
insert_command size bytes = do
  fail_if (ltb (length bytes) size) invalid_pack_delta
  ok (take size bytes, drop size bytes)

unfoldable pub delta_command : Bytes → ℕ → Bytes → Result GitError (Bytes × Bytes)
unfolding copy_command insert_command
delta_command base command bytes =
    if leb 128 command
    then copy_command base command bytes
    else if not (eqb command 0)
    then insert_command command bytes
    else err invalid_pack_delta

unfoldable pub delta_loop : ℕ → Bytes → Bytes → Bytes → Result GitError Bytes
delta_loop fuel base out [] = ok out
delta_loop zero base out (command ∷ rest) = err out_of_fuel
delta_loop (suc fuel) base out (command ∷ rest) = do
  (bytes, later) ← delta_command base command rest
  delta_loop fuel base (out ++ bytes) later

-- `Vec::with_capacity` panics past `isize::MAX`; each command takes a byte at least.
unfoldable pub apply_pack_delta : Bytes → Bytes → Result GitError Bytes
unfolding delta_loop
apply_pack_delta base delta = do
  (source_len, after_source) ← read_delta_varint delta
  fail_if (not (eqb source_len (length base))) invalid_pack_delta
  (target_len, commands) ← read_delta_varint after_source
  fail_if (ltb (2 ^ 63 - 1) target_len) panicked
  out ← delta_loop (length commands) base [] commands
  fail_if (not (eqb (length out) target_len)) invalid_pack_delta
  ok out
