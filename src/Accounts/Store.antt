-- ===== src/Accounts/Store.antt =====
-- `AccountStore` and its operations on profiles and repositories, of
-- crates/gitmesh-accounts/src/lib.rs.
pub mod Invariant
pub mod Profiles
use git_mesh.Prelude.{
  ℕ, Bool, not, Option, none, some, List, [], ◌∷◌, Bytes, length, Result, ok, err, ok_or, fail_if,
  if◌then◌else◌, ◌>>=◌, ◌>>◌,
}
use git_mesh.Prelude.Order.{◌==◌, nat_ord, list_ord, pair_ord}
use git_mesh.SortedMap.{SortedMap, get, insert, contains_key}
use git_mesh.Core.Cid.{Cid, to_text}
use git_mesh.Accounts.Fields.{
  AccountError, Username, username_already_exists, account_already_exists, account_not_found,
  repository_already_exists, validate_profile_field, validate_uri_field, validate_repository_name,
  validate_token_field,
}

pub record AccountProfile : Type 0 where
  pub username : Username
  pub account_id : Bytes
  pub display_name : Bytes
  pub bio : Bytes
  pub avatar_uri : Bytes
  pub created_at_unix : ℕ
  pub updated_at_unix : ℕ

pub record NewAccountProfile : Type 0 where
  pub username : Username
  pub account_id : Cid
  pub display_name : Bytes
  pub bio : Bytes
  pub avatar_uri : Bytes

pub record ProfileUpdate : Type 0 where
  pub display_name : Option Bytes
  pub bio : Option Bytes
  pub avatar_uri : Option Bytes

pub record AccountSession : Type 0 where
  pub session_id : Bytes
  pub token_hash : Bytes
  pub username : Username
  pub device_id : Option Bytes
  pub created_at_unix : ℕ
  pub expires_at_unix : ℕ
  pub revoked_at_unix : Option ℕ

pub data RepositoryVisibility : Type 0 where
  public private : RepositoryVisibility

pub record RepositoryRegistration : Type 0 where
  pub owner : Username
  pub name : Bytes
  pub repo_id : Bytes
  pub visibility : RepositoryVisibility
  pub created_at_unix : ℕ

pub record AccountStore : Type 0 where
  pub profiles : SortedMap Username AccountProfile
  pub account_index : SortedMap Bytes Username
  pub sessions : SortedMap Bytes AccountSession
  pub session_tokens : SortedMap Bytes Bytes
  pub repositories : SortedMap (Username × Bytes) RepositoryRegistration

-- `AccountStore::default()`.
abbrev pub empty_store : AccountStore
empty_store = record {
  profiles = [];
  account_index = [];
  sessions = [];
  session_tokens = [];
  repositories = [];
}

-- A method that fails with `err` has written nothing, unless it returns the store beside it.
unfoldable pub create_profile :
    NewAccountProfile → ℕ → AccountStore → Result AccountError (AccountStore × AccountProfile)
create_profile new now s = do
  validate_profile_field new.display_name 96
  validate_profile_field new.bio 512
  validate_uri_field new.avatar_uri
  let account_id = to_text new.account_id
  fail_if (contains_key new.username s.profiles) username_already_exists
  fail_if (contains_key account_id s.account_index) account_already_exists
  let profile : AccountProfile = record {
    username = new.username;
    account_id = account_id;
    display_name = new.display_name;
    bio = new.bio;
    avatar_uri = new.avatar_uri;
    created_at_unix = now;
    updated_at_unix = now;
  }
  ok (
    record s {
      profiles = insert new.username profile s.profiles;
      account_index = insert account_id new.username s.account_index;
    },
    profile,
  )

abbrev pub checked {ℓ} :
    {A : Type ℓ} → (A → Result AccountError (Unit {0})) → Option A → Result AccountError (Unit {0})
checked check none = ok tt
checked check (some a) = check a

abbrev pub replaced {ℓ} : {A : Type ℓ} → Option A → A → A
replaced none old = old
replaced (some new) old = new

-- The fields are written one by one, each behind its own check: what is written before a check
-- fails stays written.
unfoldable pub update_avatar :
    ProfileUpdate → ℕ → AccountProfile → AccountProfile × Result AccountError (Unit {0})
update_avatar u now p = elim (checked validate_uri_field u.avatar_uri) [
  | err e ↦ (p, err e)
  | ok _ ↦
      (record p { avatar_uri = replaced u.avatar_uri p.avatar_uri; updated_at_unix = now }, ok tt)
]

unfoldable pub update_bio :
    ProfileUpdate → ℕ → AccountProfile → AccountProfile × Result AccountError (Unit {0})
update_bio u now p = elim (checked (λ v. validate_profile_field v 512) u.bio) [
  | err e ↦ (p, err e)
  | ok _ ↦ update_avatar u now (record p { bio = replaced u.bio p.bio })
]

unfoldable pub update_fields :
    ProfileUpdate → ℕ → AccountProfile → AccountProfile × Result AccountError (Unit {0})
update_fields u now p = elim (checked (λ v. validate_profile_field v 96) u.display_name) [
  | err e ↦ (p, err e)
  | ok _ ↦ update_bio u now (record p { display_name = replaced u.display_name p.display_name })
]

unfoldable pub update_profile :
    Username → ProfileUpdate → ℕ → AccountStore → AccountStore × Result AccountError AccountProfile
update_profile name u now s = elim (get name s.profiles) [
  | none ↦ (s, err account_not_found)
  | some p ↦
      let (p', r) = update_fields u now p in
      (record s { profiles = insert name p' s.profiles }, r >>= λ _. ok p')
]

unfoldable pub profile : Username → AccountStore → Option AccountProfile
profile name s = get name s.profiles

unfoldable pub profile_by_account_id : Bytes → AccountStore → Option AccountProfile
profile_by_account_id account_id s = elim (get account_id s.account_index) [
  | none ↦ none
  | some name ↦ get name s.profiles
]

unfoldable pub register_repository :
    Username
    → Bytes
    → Bytes
    → RepositoryVisibility
    → ℕ
    → AccountStore
    → Result AccountError (AccountStore × RepositoryRegistration)
register_repository owner name repo_id visibility now s = do
  fail_if (not (contains_key owner s.profiles)) account_not_found
  validate_repository_name name
  validate_token_field repo_id
  fail_if (contains_key (owner, name) s.repositories) repository_already_exists
  let registration : RepositoryRegistration = record {
    owner = owner;
    name = name;
    repo_id = repo_id;
    visibility = visibility;
    created_at_unix = now;
  }
  ok (record s { repositories = insert (owner, name) registration s.repositories }, registration)

unfoldable pub repository : Username → Bytes → AccountStore → Option RepositoryRegistration
repository owner name s = get (owner, name) s.repositories

-- The registrations of an owner, in the order of the names.
unfoldable pub owned_by :
    Username → SortedMap (Username × Bytes) RepositoryRegistration → List RepositoryRegistration
owned_by owner [] = []
owned_by owner (((o, name), r) ∷ rs) =
    let rest = owned_by owner rs in if o == owner then r ∷ rest else rest

unfoldable pub repositories_for_owner : Username → AccountStore → List RepositoryRegistration
repositories_for_owner owner s = owned_by owner s.repositories

unfoldable pub profile_count : AccountStore → ℕ
profile_count s = length s.profiles

unfoldable pub repository_count : AccountStore → ℕ
repository_count s = length s.repositories
