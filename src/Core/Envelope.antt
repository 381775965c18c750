-- ===== src/Core/Envelope.antt =====
-- `ProtocolEnvelope`, `validate_domain`, `put_string` and `put_bytes` of
-- crates/gitmesh-core/src/lib.rs.
pub mod Injective
use git_mesh.Prelude.{
  ℕ, ◌≡◌, Bool, not, ◌||◌, ◌≤◌, [], ◌∷◌, ◌++◌, leb, eqb, if◌then◌else◌, Bytes, codes, length, every,
  Result, ok, err, fail_if, ◌>>=◌, ◌>>◌,
}
use git_mesh.Text.Search.{starts_with, is_ascii_alphanumeric}
use git_mesh.Text.Decimal.{max_u32}
use git_mesh.Text.Words.{be_bytes}
use git_mesh.Core.Hash.{Blake3}
use git_mesh.Core.Hex.{CoreError, invalid_domain, field_too_large}
use git_mesh.Core.Cid.{
  Cid, HashAlgorithm, blake3_256, protocol_object, encrypted_segment, shard, algorithm_code,
  protocol_version,
}
use git_mesh.Core.Cid

unfoldable pub is_domain_byte : ℕ → Bool
is_domain_byte byte = is_ascii_alphanumeric byte || eqb byte b'.' || eqb byte b'-' || eqb byte b'_'

unfoldable pub validate_domain : Bytes → Result CoreError (Unit {0})
validate_domain domain = do
  fail_if (not (starts_with (codes "gitmesh.") domain)) invalid_domain
  fail_if (not (every is_domain_byte domain)) invalid_domain
  ok tt

-- What `put_bytes` appends: the length in 32 bits, which it must fit, and the bytes.
unfoldable pub put_bytes : Bytes → Result CoreError Bytes
put_bytes value =
    if leb (length value) max_u32
    then ok (be_bytes 4 (length value) ++ value)
    else err field_too_large

unfoldable pub put_string : Bytes → Result CoreError Bytes
put_string value = put_bytes value

pub record ProtocolEnvelope : Type 0 where
  pub domain : Bytes
  pub version : ℕ
  pub hash_algorithm : HashAlgorithm
  pub body : Bytes

unfoldable pub new : Bytes → Bytes → Result CoreError ProtocolEnvelope
new domain body = do
  validate_domain domain
  ok (record {
    domain = domain;
    version = protocol_version;
    hash_algorithm = blake3_256;
    body = body;
  })

unfoldable pub canonical_bytes : ProtocolEnvelope → Result CoreError Bytes
canonical_bytes e = do
  validate_domain e.domain
  domain ← put_string e.domain
  body ← put_bytes e.body
  ok (
      codes "gitmesh-envelope-v0"
      ++ (domain
          ++ (be_bytes 4 e.version ++ (be_bytes 2 (algorithm_code e.hash_algorithm) ++ body))))

unfoldable pub envelope_cid : Blake3 → ProtocolEnvelope → Result CoreError Cid
envelope_cid h e = do
  bytes ← canonical_bytes e
  ok (Cid.new h protocol_object e.hash_algorithm bytes)

unfoldable pub encrypted_segment_cid : Blake3 → Bytes → Cid
encrypted_segment_cid h ciphertext = Cid.new h encrypted_segment blake3_256 ciphertext

unfoldable pub shard_transcript : Cid → ℕ → Bytes → Bytes
shard_transcript segment_cid shard_index bytes =
    codes "gitmesh.v0.shard"
    ++ (segment_cid.digest ++ (be_bytes 8 shard_index ++ (be_bytes 8 (length bytes) ++ bytes)))

unfoldable pub shard_cid : Blake3 → Cid → ℕ → Bytes → Cid
shard_cid h segment_cid shard_index bytes =
    Cid.new h shard blake3_256 (shard_transcript segment_cid shard_index bytes)
