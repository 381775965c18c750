-- ===== src/Coordination/Names.antt =====
-- `RefName`, `TransactionId`, `CoordinationError` and the checks of names of
-- crates/gitmesh-coordination/src/lib.rs. The newtypes of a text are that text.
use git_mesh.Prelude.{
  ℕ, Bool, not, ◌||◌, leb, eqb, Bytes, codes, any, every, is_empty, Result, ok, fail_if, ◌>>◌,
}
use git_mesh.Text.Search.{starts_with, ends_with, contains_text, has_byte, is_ascii_alphanumeric}
use git_mesh.Text.Split.{split}
use git_mesh.Identity.Certificate.{IdentityError}

pub data CoordinationError : Type 0 where
  invalid_ref_name invalid_transaction_id invalid_snapshot signer_mismatch : CoordinationError
  checkpoint_signer_mismatch unsigned_ref_update_denied : CoordinationError
  ref_update_not_authorized protected_ref_denied : CoordinationError
  stale_policy_epoch : ℕ → ℕ → CoordinationError
  identity : IdentityError → CoordinationError
  io : Bytes → CoordinationError

abbrev pub RefName : Type 0
RefName = Bytes

abbrev pub TransactionId : Type 0
TransactionId = Bytes

-- `~`, `^`, `:`, `?`, `*`, `[`, the backslash, the space and the control bytes below it.
unfoldable pub is_ref_byte_forbidden : ℕ → Bool
is_ref_byte_forbidden byte =
    leb byte 0x20
    || eqb byte b'~'
    || eqb byte b'^'
    || eqb byte b':'
    || eqb byte b'?'
    || eqb byte b'*'
    || eqb byte 0x5b
    || eqb byte 0x5c

unfoldable pub is_part_forbidden : Bytes → Bool
is_part_forbidden part = is_empty part || ends_with (codes ".lock") part

unfoldable pub validate_ref_name : Bytes → Result CoordinationError (Unit {0})
validate_ref_name value = do
  fail_if
      (not (starts_with (codes "refs/") value)
        || ends_with (codes "/") value
        || contains_text (codes "..") value)
      invalid_ref_name
  fail_if (any is_ref_byte_forbidden value) invalid_ref_name
  fail_if (any is_part_forbidden (split b'/' value)) invalid_ref_name
  ok tt

unfoldable pub ref_name : Bytes → Result CoordinationError RefName
ref_name value = do validate_ref_name value; ok value

unfoldable pub is_transaction_byte : ℕ → Bool
is_transaction_byte byte = is_ascii_alphanumeric byte || eqb byte b'-' || eqb byte b'_'

unfoldable pub transaction_id : Bytes → Result CoordinationError TransactionId
transaction_id value = do
  fail_if (is_empty value || not (every is_transaction_byte value)) invalid_transaction_id
  ok value

unfoldable pub validate_snapshot_field : Bytes → Result CoordinationError (Unit {0})
validate_snapshot_field value = do
  fail_if (has_byte 9 value || has_byte 10 value || has_byte 13 value) invalid_snapshot
  ok tt

unfoldable pub snapshot_field : Bytes → Result CoordinationError Bytes
snapshot_field value = do validate_snapshot_field value; ok value
