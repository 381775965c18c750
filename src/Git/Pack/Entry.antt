-- ===== src/Git/Pack/Entry.antt =====
-- `PackEntry`, `PackDeltaBase`, `full_object_kind`, `pack_kind_code`, `inflate_pack_object` and the
-- body of the loop of `parse_packfile`, of crates/gitmesh-git/src/lib.rs.
use git_mesh.Prelude.{
  ℕ, ◌+◌, Option, none, some, Bytes, length, drop, eqb, not, Result, ok, err, ok_or, fail_if,
  if◌then◌else◌, ◌>>=◌, ◌>>◌,
}
use git_mesh.Git.Oid.{GitSha1Oid}
use git_mesh.Git.Object.{
  GitError, length_mismatch, pack_object_decode, unsupported_pack_object_type, GitObjectKind, blob,
  tree, commit, tag, Zlib,
}
use git_mesh.Git.Pack.Header.{
  parse_pack_object_header, parse_ofs_delta_base_offset, parse_ref_delta_base_oid,
}

pub data PackDeltaBase : Type 0 where
  offset_base : ℕ → PackDeltaBase
  oid_base : GitSha1Oid → PackDeltaBase

pub record PackEntry : Type 0 where
  pub offset : ℕ
  pub kind : ℕ
  pub payload : Bytes
  pub base : Option PackDeltaBase

unfoldable pub full_object_kind : ℕ → Result GitError GitObjectKind
full_object_kind kind =
    if eqb kind 1
    then ok commit
    else if eqb kind 2
    then ok tree
    else if eqb kind 3
    then ok blob
    else if eqb kind 4
    then ok tag
    else err (unsupported_pack_object_type kind)

unfoldable pub pack_kind_code : GitObjectKind → ℕ
pack_kind_code commit = 1
pack_kind_code tree = 2
pack_kind_code blob = 3
pack_kind_code tag = 4

-- The base of an entry, and the bytes that it takes.
unfoldable pub parse_base : ℕ → Bytes → ℕ → Result GitError (Option PackDeltaBase × ℕ)
parse_base kind bytes object_start =
    if eqb kind 6
    then (do
      (base_offset, consumed) ← parse_ofs_delta_base_offset bytes object_start
      ok (some (offset_base base_offset), consumed))
    else if eqb kind 7
    then (do base_oid ← parse_ref_delta_base_oid bytes; ok (some (oid_base base_oid), 20))
    else ok (none, 0)

module _ (z : Zlib) where
  unfoldable pub inflate_pack_object : Bytes → Result GitError (Bytes × ℕ)
  inflate_pack_object bytes = do
    (payload, consumed) ← ok_or (z.inflate bytes) pack_object_decode
    fail_if (eqb consumed 0) pack_object_decode
    ok (payload, consumed)

  -- The entry at the cursor, and the bytes that it takes.
  unfoldable pub parse_pack_entry : ℕ → Bytes → Result GitError (PackEntry × ℕ)
  unfolding parse_base inflate_pack_object
  parse_pack_entry object_start bytes = do
    (kind, size, header_len) ← parse_pack_object_header bytes
    (base, base_len) ← parse_base kind (drop header_len bytes) object_start
    (payload, consumed) ← inflate_pack_object (drop (header_len + base_len) bytes)
    fail_if (not (eqb (length payload) size)) (length_mismatch size (length payload))
    ok (
      record { offset = object_start; kind = kind; payload = payload; base = base },
      header_len + base_len + consumed,
    )
