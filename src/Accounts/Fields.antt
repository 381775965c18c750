-- ===== src/Accounts/Fields.antt =====
-- `Username`, `AccountError` and the checks of fields of crates/gitmesh-accounts/src/lib.rs.
use git_mesh.Prelude.{
  ℕ, Bool, not, ◌||◌, map, Bytes, codes, length, every, is_empty, ltb, eqb, Result, ok, ok_or,
  fail_if, ◌>>◌,
}
use git_mesh.Text.Search.{
  starts_with, ends_with, has_byte, is_ascii_alphanumeric, to_ascii_lowercase,
}
use git_mesh.Text.Spaces.{has_whitespace}
use git_mesh.Text.Decimal

pub data AccountError : Type 0 where
  invalid_username username_already_exists account_already_exists : AccountError
  account_not_found invalid_profile_field invalid_session invalid_session_ttl : AccountError
  repository_already_exists invalid_repository_name invalid_snapshot : AccountError
  invalid_timestamp : AccountError
  io : Bytes → AccountError

abbrev pub Username : Type 0
Username = Bytes

unfoldable pub is_username_byte : ℕ → Bool
is_username_byte byte = is_ascii_alphanumeric byte || eqb byte b'-'

unfoldable pub validate_username : Bytes → Result AccountError (Unit {0})
validate_username value = do
  fail_if
      (ltb (length value) 2
        || ltb 39 (length value)
        || starts_with (codes "-") value
        || ends_with (codes "-") value
        || not (every is_username_byte value))
      invalid_username
  ok tt

-- `Username::new`.
unfoldable pub username : Bytes → Result AccountError Username
username value = do validate_username value; ok (map to_ascii_lowercase value)

unfoldable pub is_repository_byte : ℕ → Bool
is_repository_byte byte =
    is_ascii_alphanumeric byte || eqb byte b'-' || eqb byte b'_' || eqb byte b'.'

unfoldable pub validate_repository_name : Bytes → Result AccountError (Unit {0})
validate_repository_name value = do
  fail_if
      (is_empty value
        || ltb 100 (length value)
        || starts_with (codes ".") value
        || ends_with (codes ".") value
        || not (every is_repository_byte value))
      invalid_repository_name
  ok tt

-- A tab, a newline or a carriage return.
unfoldable pub breaks_line : Bytes → Bool
breaks_line value = has_byte 9 value || has_byte 10 value || has_byte 13 value

unfoldable pub validate_profile_field : Bytes → ℕ → Result AccountError (Unit {0})
validate_profile_field value max_len = do
  fail_if (ltb max_len (length value) || breaks_line value) invalid_profile_field
  ok tt

unfoldable pub validate_uri_field : Bytes → Result AccountError (Unit {0})
validate_uri_field value = do
  fail_if (ltb 512 (length value) || breaks_line value) invalid_profile_field
  ok tt

unfoldable pub validate_snapshot_field : Bytes → Result AccountError (Unit {0})
validate_snapshot_field value = do fail_if (breaks_line value) invalid_snapshot; ok tt

unfoldable pub validate_token_field : Bytes → Result AccountError (Unit {0})
validate_token_field value = do
  fail_if (is_empty value || has_whitespace value) invalid_snapshot
  ok tt

unfoldable pub parse_u64 : Bytes → Result AccountError ℕ
parse_u64 value = ok_or (Decimal.parse_u64 value) invalid_snapshot
