-- ===== src/Identity/Grant.antt =====
-- `RepoKeyGrant` of crates/gitmesh-identity/src/lib.rs: a repository key, wrapped for one device
-- and signed by an account.
pub mod Keys
pub mod Wire
use git_mesh.Prelude.{
  ℕ, Bool, not, ◌||◌, List, [], ◌∷◌, ◌++◌, Bytes, codes, length, eqb, is_empty, Result, ok, err,
  ok_or, fail_if, map_err, if◌then◌else◌, ◌>>=◌, ◌>>◌,
}
use git_mesh.Prelude.Order.{◌==◌, nat_ord, list_ord}
use git_mesh.Text.Words.{be_bytes}
use git_mesh.Text.Split.{join}
use git_mesh.Text.Spaces.{has_whitespace}
use git_mesh.Text.Decimal.{decimal}
use git_mesh.Text.Decimal
use git_mesh.Core.Hash.{Blake3}
use git_mesh.Core.Hex
use git_mesh.Core.Hex.{hex}
use git_mesh.Core.Cid
use git_mesh.Core.Cid.{
  Cid, CidKind, protocol_object, HashAlgorithm, blake3_256, kind_code, algorithm_code, to_text,
  from_text, cid_ord,
}
use git_mesh.Crypto.{AeadAlgorithm, xchacha20_poly1305}
use git_mesh.Identity.Certificate.{
  IdentityError, invalid_key, identity_mismatch, invalid_signature, invalid_repo_id,
  invalid_grant_store, Ed25519, id_from_verifying_key,
}

unfoldable pub put_transcript_field : Bytes → Bytes
put_transcript_field value = be_bytes 8 (length value) ++ value

-- Tabs and ends of lines are white space.
unfoldable pub validate_repo_id_text : Bytes → Result IdentityError (Unit {0})
validate_repo_id_text value = fail_if (is_empty value || has_whitespace value) invalid_repo_id

unfoldable pub aead_code : AeadAlgorithm → ℕ
aead_code xchacha20_poly1305 = 1

unfoldable pub encode_aead_algorithm : AeadAlgorithm → Bytes
encode_aead_algorithm xchacha20_poly1305 = codes "xchacha20poly1305"

unfoldable pub parse_aead_algorithm : Bytes → Result IdentityError AeadAlgorithm
parse_aead_algorithm value =
    if value == codes "xchacha20poly1305" then ok xchacha20_poly1305 else err invalid_grant_store

unfoldable pub parse_u64 : Bytes → Result IdentityError ℕ
parse_u64 value = ok_or (Decimal.parse_u64 value) invalid_grant_store

unfoldable pub parse_protocol_cid : Bytes → Result IdentityError Cid
parse_protocol_cid value = do
  cid ← map_err (from_text value) (λ _. invalid_grant_store)
  fail_if
      (not (eqb (kind_code cid.kind) (kind_code protocol_object))
        || not (eqb (algorithm_code cid.hash_algorithm) (algorithm_code blake3_256)))
      invalid_grant_store
  ok cid

-- The crate has its own copies of these two, with its own error.
unfoldable pub decode_hex : Bytes → Result IdentityError Bytes
decode_hex value = map_err (Hex.decode_hex value) (λ _. invalid_grant_store)

unfoldable pub decode_fixed_hex : ℕ → Bytes → Result IdentityError Bytes
unfolding decode_hex
decode_fixed_hex n value = do
  bytes ← decode_hex value
  fail_if (not (eqb (length bytes) n)) invalid_grant_store
  ok bytes

pub record RepoKeyGrant : Type 0 where
  pub repo_id : Bytes
  pub epoch : ℕ
  pub account_id : Cid
  pub recipient_device_id : Cid
  pub recipient_device_verifying_key : Bytes
  pub wrapping_algorithm : AeadAlgorithm
  pub wrapping_nonce : Bytes
  pub wrapped_key_ciphertext : Bytes
  pub signer_account_verifying_key : Bytes
  pub signature : Bytes

unfoldable pub signing_transcript : RepoKeyGrant → Bytes
unfolding put_transcript_field aead_code
signing_transcript g =
    codes "gitmesh.v0.repo-key-grant"
    ++ (put_transcript_field g.repo_id
        ++ (be_bytes 8 g.epoch
            ++ (put_transcript_field (to_text g.account_id)
                ++ (put_transcript_field (to_text g.recipient_device_id)
                    ++ (put_transcript_field g.recipient_device_verifying_key
                        ++ (be_bytes 2 (aead_code g.wrapping_algorithm)
                            ++ (put_transcript_field g.wrapping_nonce
                                ++ (put_transcript_field g.wrapped_key_ciphertext
                                    ++ put_transcript_field g.signer_account_verifying_key))))))))

unfoldable pub grant_id : Blake3 → RepoKeyGrant → Cid
unfolding signing_transcript
grant_id h g = Cid.new h protocol_object blake3_256 (signing_transcript g ++ g.signature)

-- The fields of a grant's line, and of its wire string.
unfoldable pub grant_fields : RepoKeyGrant → List Bytes
unfolding encode_aead_algorithm
grant_fields g =
    g.repo_id
    ∷ decimal g.epoch
    ∷ to_text g.account_id
    ∷ to_text g.recipient_device_id
    ∷ hex g.recipient_device_verifying_key
    ∷ encode_aead_algorithm g.wrapping_algorithm
    ∷ hex g.wrapping_nonce
    ∷ hex g.wrapped_key_ciphertext
    ∷ hex g.signer_account_verifying_key
    ∷ hex g.signature
    ∷ []

unfoldable pub parse_fields : List Bytes → Result IdentityError RepoKeyGrant
unfolding parse_u64 parse_protocol_cid decode_hex decode_fixed_hex parse_aead_algorithm
parse_fields (f0 ∷ f1 ∷ f2 ∷ f3 ∷ f4 ∷ f5 ∷ f6 ∷ f7 ∷ f8 ∷ f9 ∷ []) = do
  epoch ← parse_u64 f1
  account_id ← parse_protocol_cid f2
  device_id ← parse_protocol_cid f3
  device_key ← decode_fixed_hex 32 f4
  algorithm ← parse_aead_algorithm f5
  nonce ← decode_fixed_hex 24 f6
  ciphertext ← decode_hex f7
  signer_key ← decode_fixed_hex 32 f8
  signature ← decode_fixed_hex 64 f9
  ok (record {
    repo_id = f0;
    epoch = epoch;
    account_id = account_id;
    recipient_device_id = device_id;
    recipient_device_verifying_key = device_key;
    wrapping_algorithm = algorithm;
    wrapping_nonce = nonce;
    wrapped_key_ciphertext = ciphertext;
    signer_account_verifying_key = signer_key;
    signature = signature;
  })
parse_fields _ = err invalid_grant_store

module _ (h : Blake3) (e : Ed25519) where
  unfoldable pub verify : RepoKeyGrant → Result IdentityError (Unit {0})
  unfolding validate_repo_id_text signing_transcript
  verify g = do
    validate_repo_id_text g.repo_id
    fail_if (not (e.is_key g.signer_account_verifying_key)) invalid_key
    fail_if (not (g.account_id == id_from_verifying_key h g.signer_account_verifying_key))
        identity_mismatch
    fail_if (not (e.is_key g.recipient_device_verifying_key)) invalid_key
    fail_if
        (not (g.recipient_device_id == id_from_verifying_key h g.recipient_device_verifying_key))
        identity_mismatch
    fail_if (not (e.verifies g.signer_account_verifying_key (signing_transcript g) g.signature))
        invalid_signature
    ok tt

  unfoldable pub to_wire_string : RepoKeyGrant → Result IdentityError Bytes
  unfolding verify grant_fields
  to_wire_string g = do verify g; ok (join b' ' (grant_fields g))

  unfoldable pub from_wire_fields : List Bytes → Result IdentityError RepoKeyGrant
  unfolding verify parse_fields
  from_wire_fields fields = do grant ← parse_fields fields; verify grant; ok grant
