-- ===== src/Git/Pack/Header.antt =====
-- The headers of a pack's entries: `parse_pack_object_header`, `write_pack_object_header`,
-- `parse_ofs_delta_base_offset`, `parse_ref_delta_base_oid` and `read_be_u32` of
-- crates/gitmesh-git/src/lib.rs. Masks and shifts of a byte are written as `%` and `/`.
pub mod RoundTrip
use git_mesh.Prelude.{
  ℕ, zero, suc, ◌+◌, ◌-◌, ◌*◌, ◌/◌, ◌%◌, ◌^◌, [], ◌∷◌, Bytes, length, take, ltb, leb, eqb, Result,
  ok, err, ok_or, fail_if, if◌then◌else◌, ◌>>=◌, ◌>>◌, checked_add, checked_sub, checked_shl,
}
use git_mesh.Git.Oid.{GitSha1Oid}
use git_mesh.Git.Object.{GitError, malformed_pack, invalid_length, invalid_pack_delta}

unfoldable pub read_be_u32 : Bytes → Result GitError ℕ
read_be_u32 (a ∷ b ∷ c ∷ d ∷ []) = ok (((a * 256 + b) * 256 + c) * 256 + d)
read_be_u32 _ = err malformed_pack

-- The `while` loop: `byte` is the last one read.
unfoldable pub header_loop : ℕ → ℕ → ℕ → ℕ → Bytes → Result GitError (ℕ × ℕ)
header_loop byte size shift consumed [] =
    if leb 128 byte then err malformed_pack else ok (size, consumed)
header_loop byte size shift consumed (next ∷ rest) =
    if leb 128 byte
    then (do
      bits ← ok_or (checked_shl (next % 128) shift) invalid_length
      sum ← ok_or (checked_add size bits) invalid_length
      header_loop next sum (shift + 7) (suc consumed) rest)
    else ok (size, consumed)

-- The kind, the size, and the bytes taken.
unfoldable pub parse_pack_object_header : Bytes → Result GitError (ℕ × ℕ × ℕ)
unfolding header_loop
parse_pack_object_header [] = err malformed_pack
parse_pack_object_header (first ∷ rest) = do
  (size, consumed) ← header_loop first (first % 16) 4 1 rest
  ok (first / 16 % 8, size, consumed)

-- The `while` loop, with a round for each seven bits.
unfoldable pub size_bytes : ℕ → ℕ → Bytes
size_bytes zero size = []
size_bytes (suc fuel) size =
    let rest = size_bytes fuel (size / 128) in
    if eqb size 0
    then []
    else if eqb (size / 128) 0
    then size % 128 ∷ rest
    else (size % 128 + 128) ∷ rest

-- A `usize` has nine groups of seven bits above its lowest four.
unfoldable pub write_pack_object_header : ℕ → ℕ → Bytes
unfolding size_bytes
write_pack_object_header kind size =
    let byte = kind % 8 * 16 + size % 16 in
    (if eqb (size / 16) 0 then byte else byte + 128) ∷ size_bytes 9 (size / 16)

unfoldable pub offset_loop : ℕ → ℕ → ℕ → Bytes → Result GitError (ℕ × ℕ)
offset_loop byte value consumed [] =
    if leb 128 byte then err malformed_pack else ok (value, consumed)
offset_loop byte value consumed (next ∷ rest) =
    if leb 128 byte
    then (do
      above ← ok_or (checked_add value 1) invalid_pack_delta
      shifted ← ok_or (checked_shl above 7) invalid_pack_delta
      sum ← ok_or (checked_add shifted (next % 128)) invalid_pack_delta
      offset_loop next sum (suc consumed) rest)
    else ok (value, consumed)

unfoldable pub parse_ofs_delta_base_offset : Bytes → ℕ → Result GitError (ℕ × ℕ)
unfolding offset_loop
parse_ofs_delta_base_offset [] object_offset = err malformed_pack
parse_ofs_delta_base_offset (first ∷ rest) object_offset = do
  (value, consumed) ← offset_loop first (first % 128) 1 rest
  base_offset ← ok_or (checked_sub object_offset value) invalid_pack_delta
  ok (base_offset, consumed)

unfoldable pub parse_ref_delta_base_oid : Bytes → Result GitError GitSha1Oid
parse_ref_delta_base_oid bytes = do
  fail_if (ltb (length bytes) 20) malformed_pack
  ok (record { digest = take 20 bytes })
