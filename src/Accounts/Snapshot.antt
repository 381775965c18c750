-- ===== src/Accounts/Snapshot.antt =====
-- `AccountStore::to_snapshot` and `from_snapshot` of crates/gitmesh-accounts/src/lib.rs. The
-- fields of a line stand without its tag.
pub mod Consistent
use git_mesh.Prelude.{
  ℕ, Bool, not, ◌||◌, Option, none, some, List, [], ◌∷◌, ◌++◌, Bytes, codes, length, eqb, Result,
  ok, err, fail_if, if◌then◌else◌, ◌>>=◌, ◌>>◌,
}
use git_mesh.Prelude.Order.{◌==◌, nat_ord, list_ord, pair_ord}
use git_mesh.SortedMap.{SortedMap, insert, contains_key, values}
use git_mesh.Text.Split.{lines}
use git_mesh.Text.Decimal.{decimal}
use git_mesh.SnapshotText.{line, load_lines}
use git_mesh.Accounts.Fields.{
  AccountError, Username, invalid_snapshot, username, validate_repository_name,
  validate_profile_field, validate_uri_field, validate_snapshot_field, validate_token_field,
  parse_u64,
}
use git_mesh.Accounts.Store.{
  AccountStore, AccountProfile, AccountSession, RepositoryRegistration, RepositoryVisibility,
  public, private, empty_store,
}
use git_mesh.Accounts.Sessions.{add_session}

abbrev pub snapshot_header : Bytes
snapshot_header = codes "gitmesh-account-store-v0"

-- `RepositoryVisibility::as_str` and `parse`.
unfoldable pub visibility_text : RepositoryVisibility → Bytes
visibility_text public = codes "public"
visibility_text private = codes "private"

unfoldable pub parse_visibility : Bytes → Result AccountError RepositoryVisibility
parse_visibility value =
    if value == codes "public"
    then ok public
    else if value == codes "private"
    then ok private
    else err invalid_snapshot

abbrev pub text_or_none : Option Bytes → Bytes
text_or_none none = codes "none"
text_or_none (some value) = value

abbrev pub number_or_none : Option ℕ → Bytes
number_or_none none = codes "none"
number_or_none (some value) = decimal value

abbrev pub validate_optional_field : Option Bytes → Result AccountError (Unit {0})
validate_optional_field none = ok tt
validate_optional_field (some value) = validate_snapshot_field value

unfoldable pub profile_line : AccountProfile → Result AccountError Bytes
profile_line p = do
  validate_snapshot_field p.username
  validate_snapshot_field p.account_id
  validate_snapshot_field p.display_name
  validate_snapshot_field p.bio
  validate_snapshot_field p.avatar_uri
  ok (
      line (
        codes "profile"
        ∷ p.username
        ∷ p.account_id
        ∷ p.display_name
        ∷ p.bio
        ∷ p.avatar_uri
        ∷ decimal p.created_at_unix
        ∷ decimal p.updated_at_unix
        ∷ []))

unfoldable pub session_line : AccountSession → Result AccountError Bytes
session_line x = do
  validate_snapshot_field x.session_id
  validate_snapshot_field x.token_hash
  validate_snapshot_field x.username
  validate_optional_field x.device_id
  ok (
      line (
        codes "session"
        ∷ x.session_id
        ∷ x.token_hash
        ∷ x.username
        ∷ text_or_none x.device_id
        ∷ decimal x.created_at_unix
        ∷ decimal x.expires_at_unix
        ∷ number_or_none x.revoked_at_unix
        ∷ []))

unfoldable pub repository_line : RepositoryRegistration → Result AccountError Bytes
repository_line r = do
  validate_snapshot_field r.owner
  validate_snapshot_field r.name
  validate_snapshot_field r.repo_id
  ok (
      line (
        codes "repository"
        ∷ r.owner
        ∷ r.name
        ∷ r.repo_id
        ∷ visibility_text r.visibility
        ∷ decimal r.created_at_unix
        ∷ []))

unfoldable pub all_lines {ℓ} :
    {A : Type ℓ} → (A → Result AccountError Bytes) → List A → Result AccountError Bytes
all_lines to_line [] = ok []
all_lines to_line (a ∷ rest) = do
  first ← to_line a
  others ← all_lines to_line rest
  ok (first ++ others)

unfoldable pub to_snapshot : AccountStore → Result AccountError Bytes
unfolding profile_line session_line repository_line all_lines
to_snapshot s = do
  profiles ← all_lines profile_line (values s.profiles)
  sessions ← all_lines session_line (values s.sessions)
  repositories ← all_lines repository_line (values s.repositories)
  ok (line (snapshot_header ∷ []) ++ (profiles ++ (sessions ++ repositories)))

-- The variables of the first loop: the store and the lines that wait for its profiles.
pub record Pending : Type 0 where
  pub store : AccountStore
  pub sessions : List (List Bytes)
  pub repositories : List (List Bytes)

abbrev pub empty_pending : Pending
empty_pending = record { store = empty_store; sessions = []; repositories = [] }

unfoldable pub load_profile : AccountStore → List Bytes → Result AccountError AccountStore
load_profile s (name ∷ account_id ∷ display_name ∷ bio ∷ avatar_uri ∷ created ∷ updated ∷ []) = do
  user ← username name
  validate_token_field account_id
  fail_if (contains_key user s.profiles || contains_key account_id s.account_index) invalid_snapshot
  created_at ← parse_u64 created
  updated_at ← parse_u64 updated
  validate_profile_field display_name 96
  validate_profile_field bio 512
  validate_uri_field avatar_uri
  let profile : AccountProfile = record {
    username = user;
    account_id = account_id;
    display_name = display_name;
    bio = bio;
    avatar_uri = avatar_uri;
    created_at_unix = created_at;
    updated_at_unix = updated_at;
  }
  ok (record s {
    profiles = insert user profile s.profiles;
    account_index = insert account_id user s.account_index;
  })
load_profile s _ = err invalid_snapshot

-- One round of the first loop; the lines of sessions and repositories are kept in order.
unfoldable pub load_line : Pending → List Bytes → Result AccountError Pending
unfolding load_profile
load_line w [] = err invalid_snapshot
load_line w (tag ∷ fields) =
    if tag == codes "profile"
    then (do store ← load_profile w.store fields; ok (record w { store = store }))
    else if tag == codes "session"
    then (do
      fail_if (not (eqb (length fields) 7)) invalid_snapshot
      ok (record w { sessions = w.sessions ++ fields ∷ [] }))
    else if tag == codes "repository"
    then (do
      fail_if (not (eqb (length fields) 5)) invalid_snapshot
      ok (record w { repositories = w.repositories ++ fields ∷ [] }))
    else err invalid_snapshot

unfoldable pub parse_device : Bytes → Result AccountError (Option Bytes)
parse_device value =
    if value == codes "none" then ok none else (do validate_token_field value; ok (some value))

unfoldable pub parse_revoked : Bytes → Result AccountError (Option ℕ)
parse_revoked value =
    if value == codes "none" then ok none else (do at ← parse_u64 value; ok (some at))

unfoldable pub load_session : AccountStore → List Bytes → Result AccountError AccountStore
unfolding parse_device parse_revoked add_session
load_session s (id ∷ hash ∷ name ∷ device ∷ created ∷ expires ∷ revoked ∷ []) = do
  user ← username name
  fail_if (not (contains_key user s.profiles)) invalid_snapshot
  validate_token_field id
  validate_token_field hash
  device_id ← parse_device device
  created_at ← parse_u64 created
  expires_at ← parse_u64 expires
  revoked_at ← parse_revoked revoked
  fail_if (contains_key id s.sessions || contains_key hash s.session_tokens) invalid_snapshot
  ok (
      add_session
        (record {
          session_id = id;
          token_hash = hash;
          username = user;
          device_id = device_id;
          created_at_unix = created_at;
          expires_at_unix = expires_at;
          revoked_at_unix = revoked_at;
        })
        s)
load_session s _ = err invalid_snapshot

unfoldable pub load_repository : AccountStore → List Bytes → Result AccountError AccountStore
unfolding parse_visibility
load_repository s (owner ∷ name ∷ repo_id ∷ visibility ∷ created ∷ []) = do
  user ← username owner
  fail_if (not (contains_key user s.profiles)) invalid_snapshot
  validate_repository_name name
  validate_token_field repo_id
  visibility' ← parse_visibility visibility
  created_at ← parse_u64 created
  fail_if (contains_key (user, name) s.repositories) invalid_snapshot
  let registration : RepositoryRegistration = record {
    owner = user;
    name = name;
    repo_id = repo_id;
    visibility = visibility';
    created_at_unix = created_at;
  }
  ok (record s { repositories = insert (user, name) registration s.repositories })
load_repository s _ = err invalid_snapshot

unfoldable pub load_all :
    (AccountStore → List Bytes → Result AccountError AccountStore)
    → AccountStore
    → List (List Bytes)
    → Result AccountError AccountStore
load_all step s [] = ok s
load_all step s (fields ∷ rest) = step s fields >>= λ t. load_all step t rest

unfoldable pub load_store : List Bytes → Result AccountError AccountStore
load_store [] = err invalid_snapshot
load_store (header ∷ rest) =
    if header == snapshot_header
    then (do
      w ← load_lines load_line empty_pending rest
      s ← load_all load_session w.store w.sessions
      load_all load_repository s w.repositories)
    else err invalid_snapshot

unfoldable pub from_snapshot : Bytes → Result AccountError AccountStore
unfolding load_store
from_snapshot text = load_store (lines text)
