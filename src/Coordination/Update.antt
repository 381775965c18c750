-- ===== src/Coordination/Update.antt =====
-- `RefUpdate`, its fingerprint and its signing transcript, and the texts of optional values, of
-- crates/gitmesh-coordination/src/lib.rs.
pub mod Signed
use git_mesh.Prelude.{
  ℕ, ◌+◌, ◌≡◌, Bool, true, false, not, [], ◌∷◌, ◌++◌, Option, none, some, Bytes, codes, length,
  Result, ok, err, ok_or, if◌then◌else◌, ◌>>=◌, ◌>>◌,
}
use git_mesh.Prelude.Order.{◌==◌, nat_ord, list_ord}
use git_mesh.Text.Decimal.{decimal}
use git_mesh.Text.Words.{be_bytes}
use git_mesh.Core.Hash.{Blake3}
use git_mesh.Core.Cid
use git_mesh.Core.Cid.{Cid, protocol_object, blake3_256, to_text}
use git_mesh.Git.Oid.{GitSha1Oid, oid_hex, oid_from_text}
use git_mesh.Coordination.Names.{RefName, TransactionId, CoordinationError, invalid_snapshot}

unfoldable pub repo_id : Blake3 → Bytes → Cid
repo_id h seed = Cid.new h protocol_object blake3_256 seed

pub record RefUpdate : Type 0 where
  pub repo_id : Cid
  pub ref_name : RefName
  pub expected_old_oid : Option GitSha1Oid
  pub new_oid : Option GitSha1Oid
  pub force : Bool
  pub policy_epoch : ℕ
  pub transaction_id : TransactionId
  pub signer : Bytes

-- The `Debug` of `GitSha1Oid` inside the derived one of `Option`.
unfoldable pub debug_optional_oid : Option GitSha1Oid → Bytes
debug_optional_oid none = codes "None"
debug_optional_oid (some oid) = codes "Some(GitSha1Oid(\"" ++ (oid_hex oid ++ codes "\"))")

unfoldable pub format_bool : Bool → Bytes
format_bool value = if value then codes "true" else codes "false"

unfoldable pub parse_bool : Bytes → Result CoordinationError Bool
parse_bool value =
    if value == codes "true"
    then ok true
    else if value == codes "false"
    then ok false
    else err invalid_snapshot

unfoldable pub format_optional_oid : Option GitSha1Oid → Bytes
format_optional_oid none = codes "none"
format_optional_oid (some oid) = oid_hex oid

unfoldable pub parse_optional_oid : Bytes → Result CoordinationError (Option GitSha1Oid)
parse_optional_oid value =
    if value == codes "none"
    then ok none
    else do oid ← ok_or (oid_from_text value) invalid_snapshot; ok (some oid)

unfoldable pub format_optional_cid : Option Cid → Bytes
format_optional_cid none = codes "none"
format_optional_cid (some cid) = to_text cid

unfoldable pub operation_fingerprint : RefUpdate → Bytes
operation_fingerprint u =
    to_text u.repo_id
    ++ (b':'
        ∷ (u.ref_name
            ++ (b':'
                ∷ (debug_optional_oid u.expected_old_oid
                    ++ (b':'
                        ∷ (debug_optional_oid u.new_oid
                            ++ (b':'
                                ∷ (format_bool u.force
                                    ++ (b':'
                                        ∷ (decimal u.policy_epoch ++ (b':' ∷ u.signer)))))))))))

-- What `put_transcript_field` appends; the length is cast to 64 bits.
unfoldable pub put_transcript_field : Bytes → Bytes
put_transcript_field value = be_bytes 8 (length value) ++ value

abbrev pub bool_byte : Bool → ℕ
bool_byte true = 1
bool_byte false = 0

unfoldable pub signing_transcript : RefUpdate → Bytes
signing_transcript u =
    codes "gitmesh.v0.ref-update"
    ++ (put_transcript_field (to_text u.repo_id)
        ++ (put_transcript_field u.ref_name
            ++ (put_transcript_field (format_optional_oid u.expected_old_oid)
                ++ (put_transcript_field (format_optional_oid u.new_oid)
                    ++ (bool_byte u.force
                        ∷ (be_bytes 8 u.policy_epoch
                            ++ (put_transcript_field u.transaction_id
                                ++ put_transcript_field u.signer)))))))
