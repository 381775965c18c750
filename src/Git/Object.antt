-- ===== src/Git/Object.antt =====
-- `GitObjectKind`, `GitObject`, canonical and loose objects of crates/gitmesh-git/src/lib.rs.
-- SHA-1 and zlib are parameters. A `usize` has 64 bits.
pub mod RoundTrip
use git_mesh.Prelude.{
  ℕ, ◌≡◌, ◌≤◌, ◌<◌, Bool, ◌&&◌, ◌||◌, not, Option, none, some, [], ◌∷◌, ◌++◌, Bytes, All, codes,
  length, ltb, eqb, is_empty, Result, ok, err, ok_or, fail_if, if◌then◌else◌, ◌>>=◌, ◌>>◌,
}
use git_mesh.Prelude.Order.{◌==◌, nat_ord, list_ord}
use git_mesh.Text.Search.{cut, starts_with}
use git_mesh.Text.Decimal.{decimal, scan, max_u64}
use git_mesh.Core.Hex.RoundTrip.{IsByte}
use git_mesh.Git.Oid.{GitSha1Oid}

-- `panicked` and `out_of_fuel` are no errors of the code: it panics, or a loop of the model has
-- run out of rounds.
pub data GitError : Type 0 where
  unknown_object_kind missing_header_terminator malformed_header invalid_length : GitError
  length_mismatch : ℕ → ℕ → GitError
  invalid_oid missing_commit_tree malformed_tree unsupported_tree_mode : GitError
  loose_object_decode malformed_pack pack_checksum_mismatch : GitError
  unsupported_pack_version unsupported_pack_object_type : ℕ → GitError
  invalid_pack_delta pack_object_decode pack_object_encode pack_trailing_bytes : GitError
  pack_object_count_overflow panicked out_of_fuel : GitError

-- `sha1::Sha1::digest`: any function into 20 bytes.
pub record Sha1 : Type 0 where
  pub digest_of : Bytes → Bytes
  pub length-digest_of : (s : Bytes) → length (digest_of s) ≡ 20
  pub digest_of-IsByte : (s : Bytes) → All IsByte (digest_of s)

-- zlib of `flate2`: `inflate` reads one stream from the front of its input, and answers with the
-- bytes that it holds and how many it took, which are no more than there are; a stream that `deflate` writes is read back, whatever
-- follows it, and is not empty.
pub record Zlib : Type 0 where
  pub inflate : Bytes → Option (Bytes × ℕ)
  pub deflate : Bytes → Bytes
  pub inflate-deflate :
      (s rest : Bytes) → inflate (deflate s ++ rest) ≡ some (s, length (deflate s))
  pub inflate-le : (s p : Bytes) (n : ℕ) → inflate s ≡ some (p, n) → n ≤ length s
  pub deflate_nonempty : (s : Bytes) → 0 < length (deflate s)

pub data GitObjectKind : Type 0 where
  blob tree commit tag : GitObjectKind

unfoldable pub kind_bytes : GitObjectKind → Bytes
kind_bytes blob = codes "blob"
kind_bytes tree = codes "tree"
kind_bytes commit = codes "commit"
kind_bytes tag = codes "tag"

unfoldable pub parse_kind : Bytes → Result GitError GitObjectKind
parse_kind bytes =
    if bytes == codes "blob"
    then ok blob
    else if bytes == codes "tree"
    then ok tree
    else if bytes == codes "commit"
    then ok commit
    else if bytes == codes "tag"
    then ok tag
    else err unknown_object_kind

pub record GitObject : Type 0 where
  pub kind : GitObjectKind
  pub payload : Bytes

unfoldable pub canonical_object_bytes : GitObjectKind → Bytes → Bytes
unfolding kind_bytes
canonical_object_bytes kind payload =
    kind_bytes kind ++ b' ' ∷ (decimal (length payload) ++ 0 ∷ payload)

unfoldable pub parse_ascii_usize : Bytes → Result GitError ℕ
parse_ascii_usize bytes = do
  fail_if (is_empty bytes || (ltb 1 (length bytes) && starts_with (codes "0") bytes)) invalid_length
  ok_or (scan max_u64 0 bytes) invalid_length

unfoldable pub parse_canonical_object : Bytes → Result GitError GitObject
unfolding parse_kind parse_ascii_usize
parse_canonical_object bytes = do
  (header, payload) ← ok_or (cut 0 bytes) missing_header_terminator
  (kind_text, length_text) ← ok_or (cut b' ' header) malformed_header
  kind ← parse_kind kind_text
  declared ← parse_ascii_usize length_text
  fail_if (not (eqb declared (length payload))) (length_mismatch declared (length payload))
  ok (record { kind = kind; payload = payload })

module _ (z : Zlib) where
  unfoldable pub parse_loose_object : Bytes → Result GitError GitObject
  parse_loose_object bytes = do
    (canonical, _) ← ok_or (z.inflate bytes) loose_object_decode
    parse_canonical_object canonical

module _ (h : Sha1) where
  unfoldable pub sha1_oid_for_canonical_bytes : Bytes → GitSha1Oid
  sha1_oid_for_canonical_bytes bytes = record { digest = h.digest_of bytes }

  unfoldable pub sha1_oid : GitObject → GitSha1Oid
  unfolding sha1_oid_for_canonical_bytes
  sha1_oid o = sha1_oid_for_canonical_bytes (canonical_object_bytes o.kind o.payload)
