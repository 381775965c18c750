-- ===== src/Accounts/Tests.antt =====
-- The theorems on accounts at a concrete store.
use git_mesh.Prelude.{
  ℕ, ◌+◌, ◌≡◌, refl, none, some, List, [], ◌∷◌, ◌++◌, arith, Bytes, codes, ltb, ok, err,
  if◌then◌else◌, ◌>>◌,
}
use git_mesh.Prelude.Order.{◌==◌, nat_ord, list_ord, option_ord}
use git_mesh.SortedMap.{get, insert, contains_key}
use git_mesh.Text.Search.{has_byte}
use git_mesh.Text.Spaces.{has_whitespace}
use git_mesh.Core.Cid.{to_text}
use git_mesh.Core.Tests.{sum_hash, sample_cid, repeat, sum_hash-IsByte}
use git_mesh.Accounts.Fields.{
  invalid_session, invalid_profile_field, validate_profile_field, validate_uri_field,
  validate_token_field, breaks_line,
}
use git_mesh.Accounts.Store.{
  AccountSession, AccountStore, AccountProfile, NewAccountProfile, ProfileUpdate, empty_store,
  create_profile, update_profile, profile, profile_by_account_id,
}
use git_mesh.Accounts.Store.Invariant.{IsConsistent}
use git_mesh.Accounts.Store.Profiles.{profile-create_profile, update_profile_partial}
use git_mesh.Accounts.Sessions.{
  new_session, session_token, issue_session, add_session, authenticate_session, revoke_session,
  hash_session_token, with_session, revoked,
}
use git_mesh.Accounts.Sessions.Lifecycle.{authenticate-issue, authenticate-revoke}
use git_mesh.SnapshotText.{line}
use git_mesh.Accounts.Snapshot.{snapshot_header, from_snapshot}
use git_mesh.Accounts.Snapshot.Consistent.{from_snapshot-IsConsistent}
use git_mesh.Accounts.Runs.{Operation, creates, updates, issues, run, run-IsConsistent}

abbrev name : Bytes
name = codes "farzeen"

abbrev new_account : NewAccountProfile
new_account = record {
  username = name;
  account_id = sample_cid;
  display_name = codes "Farzeen";
  bio = codes "building";
  avatar_uri = codes "asset:pic";
}

abbrev stored : AccountProfile
stored = record {
  username = name;
  account_id = to_text sample_cid;
  display_name = codes "Farzeen";
  bio = codes "building";
  avatar_uri = codes "asset:pic";
  created_at_unix = 10;
  updated_at_unix = 10;
}

abbrev one_profile : AccountStore
one_profile = record empty_store {
  profiles = (name, stored) ∷ [];
  account_index = (to_text sample_cid, name) ∷ [];
}

created : create_profile new_account 10 empty_store ≡ ok (one_profile, stored)
unfolding create_profile validate_profile_field validate_uri_field breaks_line has_byte contains_key
    get insert
created = refl

profile-create_profile_example :
    (profile name empty_store ≡ none)
    × (profile_by_account_id (to_text sample_cid) one_profile ≡ some stored)
    × (profile (codes "nobody") one_profile
        ≡ (if codes "nobody" == name then some stored else profile (codes "nobody") empty_store))
profile-create_profile_example =
    profile-create_profile new_account 10 empty_store one_profile stored (codes "nobody") created

abbrev long_bio : ProfileUpdate
long_bio = record {
  display_name = some (codes "Renamed");
  bio = some (repeat 513 b'x');
  avatar_uri = none;
}

renamed : validate_profile_field (codes "Renamed") 96 ≡ ok tt
unfolding validate_profile_field breaks_line has_byte
renamed = refl

found : get name one_profile.profiles ≡ some stored
unfolding get
found = refl

update_profile_partial_example :
    ((update_profile name long_bio 20 one_profile).1 ≡ err invalid_profile_field)
    × (profile name (update_profile name long_bio 20 one_profile).0
        ≡ some (record stored { display_name = codes "Renamed" }))
update_profile_partial_example =
    update_profile_partial name long_bio (codes "Renamed") (repeat 513 b'x') 20 one_profile stored
      found refl renamed refl (omega arith)

abbrev random : Bytes
random = repeat 32 7

abbrev session : AccountSession
session = new_session sum_hash name none 60 100 random

abbrev signed_in : AccountStore
signed_in = add_session session one_profile

issued_session :
    issue_session sum_hash name none 60 100 random one_profile
    ≡ ok (signed_in, record { token = session_token random; session = session })
unfolding issue_session contains_key get
issued_session = refl

authenticate-issue_example :
    authenticate_session sum_hash (session_token random) 159 signed_in
    ≡ (if ltb 159 (100 + 60) then ok session else err invalid_session)
authenticate-issue_example =
    authenticate-issue sum_hash name none 60 100 random one_profile signed_in
      (record { token = session_token random; session = session }) 159 refl
      (sum_hash-IsByte 32 7 (omega arith)) issued_session

abbrev old_session : AccountSession
old_session = record {
  session_id = codes "s1";
  token_hash = hash_session_token sum_hash (codes "token");
  username = name;
  device_id = none;
  created_at_unix = 0;
  expires_at_unix = 1000;
  revoked_at_unix = none;
}

abbrev old_store : AccountStore
old_store = add_session old_session one_profile

revoked_session :
    revoke_session (codes "s1") 50 old_store
    ≡ ok (with_session (codes "s1") (revoked 50 old_session) old_store)
unfolding revoke_session add_session validate_token_field has_whitespace get insert
    git_mesh.Text.Spaces.is_space1 git_mesh.Text.Spaces.is_space2
revoked_session = refl

authenticate-revoke_example :
    authenticate_session sum_hash
      (codes "token")
      60
      (with_session (codes "s1") (revoked 50 old_session) old_store)
    ≡ (if get (hash_session_token sum_hash (codes "token")) old_store.session_tokens
          == some (codes "s1")
        then (validate_token_field (codes "token") >> err invalid_session)
        else authenticate_session sum_hash (codes "token") 60 old_store)
authenticate-revoke_example =
    authenticate-revoke sum_hash (codes "s1") 50 old_store
      (with_session (codes "s1") (revoked 50 old_session) old_store) (codes "token") 60
      revoked_session

abbrev calls : List (ℕ × Operation)
calls =
    (10, creates new_account) ∷ (20, updates name long_bio) ∷ (30, issues name none 60 random) ∷ []

run-IsConsistent_example : IsConsistent (run sum_hash empty_store calls)
run-IsConsistent_example = run-IsConsistent sum_hash calls

abbrev account_text : Bytes
account_text =
    line (snapshot_header ∷ [])
    ++ line (
        codes "profile"
        ∷ codes "ada"
        ∷ codes "acct"
        ∷ codes "Ada"
        ∷ []
        ∷ []
        ∷ codes "5"
        ∷ codes "6"
        ∷ [])
    ++ line (
        codes "session"
        ∷ codes "s1"
        ∷ codes "h1"
        ∷ codes "ada"
        ∷ codes "none"
        ∷ codes "5"
        ∷ codes "9"
        ∷ codes "none"
        ∷ [])

abbrev loaded_accounts : AccountStore
loaded_accounts =
    add_session
      (record {
        session_id = codes "s1";
        token_hash = codes "h1";
        username = codes "ada";
        device_id = none;
        created_at_unix = 5;
        expires_at_unix = 9;
        revoked_at_unix = none;
      })
      (record {
        profiles =
            (
              codes "ada",
              (record {
                username = codes "ada";
                account_id = codes "acct";
                display_name = codes "Ada";
                bio = [];
                avatar_uri = [];
                created_at_unix = 5;
                updated_at_unix = 6;
              }),
            )
            ∷ [];
        account_index = (codes "acct", codes "ada") ∷ [];
        sessions = [];
        session_tokens = [];
        repositories = [];
      })

loaded : from_snapshot account_text ≡ ok loaded_accounts
unfolding from_snapshot git_mesh.Text.Split.lines line git_mesh.Text.Split.join
    git_mesh.SnapshotText.load_lines git_mesh.Text.Spaces.is_blank git_mesh.Text.Spaces.is_space1
    git_mesh.Text.Spaces.is_space2 git_mesh.Text.Spaces.is_space3
    git_mesh.Accounts.Snapshot.load_line git_mesh.Accounts.Fields.username
    git_mesh.Accounts.Fields.validate_username git_mesh.Text.Search.starts_with
    git_mesh.Text.Search.ends_with git_mesh.Accounts.Fields.is_username_byte
    git_mesh.Text.Search.is_ascii_alphanumeric validate_token_field has_whitespace breaks_line
    git_mesh.Accounts.Fields.is_repository_byte git_mesh.Accounts.Fields.parse_u64
    validate_profile_field git_mesh.Accounts.Fields.validate_repository_name validate_uri_field
    add_session git_mesh.Accounts.Snapshot.load_all git_mesh.Accounts.Snapshot.load_profile
    git_mesh.Accounts.Snapshot.load_repository git_mesh.Accounts.Snapshot.load_session
    git_mesh.Accounts.Snapshot.load_store git_mesh.Accounts.Snapshot.parse_device
    git_mesh.Accounts.Snapshot.parse_revoked git_mesh.Accounts.Snapshot.parse_visibility
    contains_key get insert git_mesh.Text.Decimal.parse git_mesh.Text.Decimal.scan has_byte
    git_mesh.Text.Search.to_ascii_lowercase git_mesh.Text.Split.split git_mesh.Text.Split.strip_cr
    git_mesh.Text.Split.terminated
loaded = refl

from_snapshot-IsConsistent_example : IsConsistent loaded_accounts
from_snapshot-IsConsistent_example = from_snapshot-IsConsistent account_text loaded_accounts loaded
