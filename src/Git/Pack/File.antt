-- ===== src/Git/Pack/File.antt =====
-- `GitPackfile`, `parse_packfile` and `write_packfile` of crates/gitmesh-git/src/lib.rs.
pub mod RoundTrip
use git_mesh.Prelude.{
  ℕ, zero, suc, ◌+◌, ◌-◌, ◌/◌, ◌%◌, ◌^◌, ◌&&◌, List, [], ◌∷◌, ◌++◌, Bytes, codes, length, take,
  drop, ltb, leb, eqb, is_empty, not, Result, ok, err, fail_if, if◌then◌else◌, ◌>>=◌, ◌>>◌,
}
use git_mesh.Prelude.Order.{◌==◌, nat_ord, list_ord}
use git_mesh.Git.Object.{
  GitError, malformed_pack, pack_checksum_mismatch, unsupported_pack_version, pack_trailing_bytes,
  pack_object_count_overflow, GitObject, Sha1, Zlib,
}
use git_mesh.Git.Pack.Header.{read_be_u32, write_pack_object_header}
use git_mesh.Git.Pack.Entry.{PackEntry, parse_pack_entry, pack_kind_code}
use git_mesh.Git.Pack.Resolve.{resolve_pack_entries}

pub record GitPackfile : Type 0 where
  pub version : ℕ
  pub objects : List GitObject

-- `u32::to_be_bytes`.
unfoldable pub be_u32 : ℕ → Bytes
be_u32 n = n / 16777216 % 256 ∷ n / 65536 % 256 ∷ n / 256 % 256 ∷ n % 256 ∷ []

module _ (z : Zlib) where
  -- `count` entries, the first of which begins at the cursor, and the bytes behind them.
  unfoldable pub parse_entries : ℕ → ℕ → Bytes → Result GitError (List PackEntry × Bytes)
  parse_entries zero cursor bytes = ok ([], bytes)
  parse_entries (suc count) cursor bytes = do
    (entry, taken) ← parse_pack_entry z cursor bytes
    (entries, rest) ← parse_entries count (cursor + taken) (drop taken bytes)
    ok (entry ∷ entries, rest)

  unfoldable pub write_entries : List GitObject → Bytes
  write_entries [] = []
  write_entries (object ∷ objects) =
      write_pack_object_header (pack_kind_code object.kind) (length object.payload)
      ++ (z.deflate object.payload ++ write_entries objects)

  module _ (h : Sha1) where
    unfoldable pub parse_packfile : Bytes → Result GitError GitPackfile
    unfolding parse_entries
    parse_packfile bytes = do
      fail_if (ltb (length bytes) 32) malformed_pack
      fail_if (not (take 4 bytes == codes "PACK")) malformed_pack
      let end = length bytes - 20
      fail_if (not (drop end bytes == h.digest_of (take end bytes))) pack_checksum_mismatch
      version ← read_be_u32 (take 4 (drop 4 bytes))
      fail_if (not (eqb version 2) && not (eqb version 3)) (unsupported_pack_version version)
      count ← read_be_u32 (take 4 (drop 8 bytes))
      (entries, rest) ← parse_entries count 12 (drop 12 (take end bytes))
      fail_if (not (is_empty rest)) pack_trailing_bytes
      objects ← resolve_pack_entries h entries
      ok (record { version = version; objects = objects })

    -- Writes to a vector do not fail.
    unfoldable pub write_packfile : List GitObject → Result GitError Bytes
    unfolding be_u32 write_entries
    write_packfile objects = do
      fail_if (leb (2 ^ 32) (length objects)) pack_object_count_overflow
      let bytes = codes "PACK" ++ (be_u32 2 ++ (be_u32 (length objects) ++ write_entries objects))
      ok (bytes ++ h.digest_of bytes)
