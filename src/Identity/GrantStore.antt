-- ===== src/Identity/GrantStore.antt =====
-- `RepoKeyGrantStore` of crates/gitmesh-identity/src/lib.rs.
pub mod Active
pub mod Epochs
pub mod Sound
use git_mesh.Prelude.{
  ℕ, Bool, true, false, not, ◌&&◌, Option, none, some, List, [], ◌∷◌, ◌++◌, Bytes, codes, ltb, leb,
  eqb, is_empty, length, map, Result, ok, err, fail_if, if◌then◌else◌, ◌>>=◌, ◌>>◌,
}
use git_mesh.Prelude.Order.{◌==◌, nat_ord, list_ord, pair_ord}
use git_mesh.SortedMap.{SortedMap, SortedSet, get, insert}
use git_mesh.Text.Split.{lines}
use git_mesh.Text.Decimal.{decimal}
use git_mesh.SnapshotText.{line, load_lines}
use git_mesh.Core.Hash.{Blake3}
use git_mesh.Core.Cid.{Cid, to_text, cid_ord}
use git_mesh.Identity.Certificate.{IdentityError, invalid_epoch, invalid_grant_store, Ed25519}
use git_mesh.Identity.Grant.{
  RepoKeyGrant, verify, grant_fields, parse_fields, parse_protocol_cid, parse_u64,
}

-- The repository, the epoch and the device.
abbrev pub GrantKey : Type 0
GrantKey = Bytes × (ℕ × Cid)

pub record RepoKeyGrantStore : Type 0 where
  pub grants : SortedMap GrantKey RepoKeyGrant
  pub revoked_devices : SortedMap Cid ℕ

abbrev pub empty_store : RepoKeyGrantStore
empty_store = record { grants = []; revoked_devices = [] }

abbrev pub grant_key : RepoKeyGrant → GrantKey
grant_key g = (g.repo_id, (g.epoch, g.recipient_device_id))

-- `Option::is_some_and`.
abbrev pub is_from : ℕ → Option ℕ → Bool
is_from epoch none = false
is_from epoch (some effective_epoch) = leb effective_epoch epoch

unfoldable pub is_device_revoked_for_epoch : RepoKeyGrantStore → Cid → ℕ → Bool
is_device_revoked_for_epoch s device_id epoch = is_from epoch (get device_id s.revoked_devices)

abbrev pub earlier : ℕ → Option ℕ → ℕ
earlier epoch none = epoch
earlier epoch (some before) = if ltb epoch before then epoch else before

unfoldable pub revoke_device_from_epoch :
    Cid → ℕ → RepoKeyGrantStore → Result IdentityError RepoKeyGrantStore
revoke_device_from_epoch device_id effective_epoch s = do
  fail_if (eqb effective_epoch 0) invalid_epoch
  ok (record s {
    revoked_devices =
        insert device_id (earlier effective_epoch (get device_id s.revoked_devices))
          s.revoked_devices;
  })

-- `Iterator::max` over the epochs of the keys that name the repository.
abbrev pub later : ℕ → Option ℕ → Option ℕ
later epoch none = some epoch
later epoch (some most) = some (if ltb most epoch then epoch else most)

unfoldable pub latest_of : Bytes → SortedMap GrantKey RepoKeyGrant → Option ℕ
latest_of repo_id [] = none
latest_of repo_id (((grant_repo_id, (epoch, device)), g) ∷ m) =
    let rest = latest_of repo_id m in if grant_repo_id == repo_id then later epoch rest else rest

unfoldable pub latest_epoch : RepoKeyGrantStore → Bytes → Option ℕ
unfolding latest_of
latest_epoch s repo_id = latest_of repo_id s.grants

-- The grants whose keys pass a test.
unfoldable pub select : (GrantKey → Bool) → SortedMap GrantKey RepoKeyGrant → List RepoKeyGrant
select p [] = []
select p ((k, g) ∷ m) = let rest = select p m in if p k then g ∷ rest else rest

unfoldable pub active_grants_for_epoch : RepoKeyGrantStore → Bytes → ℕ → List RepoKeyGrant
unfolding select is_device_revoked_for_epoch
active_grants_for_epoch s repo_id epoch =
    select
      (λ k.
        (k.0 == repo_id) && (eqb k.1.0 epoch && not (is_device_revoked_for_epoch s k.1.1 epoch)))
      s.grants

unfoldable pub grants_for_repo : RepoKeyGrantStore → Bytes → List RepoKeyGrant
unfolding select
grants_for_repo s repo_id = select (λ k. k.0 == repo_id) s.grants

unfoldable pub grants_for_repo_epoch : RepoKeyGrantStore → Bytes → ℕ → List RepoKeyGrant
unfolding select
grants_for_repo_epoch s repo_id epoch = select (λ k. (k.0 == repo_id) && eqb k.1.0 epoch) s.grants

unfoldable pub grant_for_device : RepoKeyGrantStore → Bytes → ℕ → Cid → Option RepoKeyGrant
unfolding is_device_revoked_for_epoch
grant_for_device s repo_id epoch device_id =
    if is_device_revoked_for_epoch s device_id epoch
    then none
    else get (repo_id, (epoch, device_id)) s.grants

unfoldable pub devices_of : List RepoKeyGrant → SortedSet Cid
devices_of [] = []
devices_of (g ∷ gs) = insert g.recipient_device_id tt (devices_of gs)

unfoldable pub devices_with_active_grants : RepoKeyGrantStore → Bytes → ℕ → SortedSet Cid
unfolding active_grants_for_epoch devices_of
devices_with_active_grants s repo_id epoch = devices_of (active_grants_for_epoch s repo_id epoch)

unfoldable pub grant_count : RepoKeyGrantStore → ℕ
grant_count s = length s.grants

unfoldable pub revoked_device_count : RepoKeyGrantStore → ℕ
revoked_device_count s = length s.revoked_devices

abbrev pub store_header : Bytes
store_header = codes "gitmesh-repo-key-grant-store-v0"

unfoldable pub revoked_lines : SortedMap Cid ℕ → Bytes
revoked_lines [] = []
revoked_lines ((device_id, epoch) ∷ m) =
    line (codes "revoked_device" ∷ to_text device_id ∷ decimal epoch ∷ []) ++ revoked_lines m

unfoldable pub load_revoked :
    RepoKeyGrantStore → List Bytes → Result IdentityError RepoKeyGrantStore
unfolding revoke_device_from_epoch
load_revoked s (device ∷ epoch ∷ []) = do
  device_id ← parse_protocol_cid device
  effective_epoch ← parse_u64 epoch
  revoke_device_from_epoch device_id effective_epoch s
load_revoked s _ = err invalid_grant_store

module _ (h : Blake3) (e : Ed25519) where
  unfoldable pub insert_grant :
      RepoKeyGrant → RepoKeyGrantStore → Result IdentityError RepoKeyGrantStore
  insert_grant g s = do verify h e g; ok (record s { grants = insert (grant_key g) g s.grants })

  unfoldable pub grant_lines : SortedMap GrantKey RepoKeyGrant → Result IdentityError Bytes
  grant_lines [] = ok []
  grant_lines ((k, g) ∷ m) = do
    verify h e g
    rest ← grant_lines m
    ok (line (codes "grant" ∷ grant_fields g) ++ rest)

  unfoldable pub to_snapshot : RepoKeyGrantStore → Result IdentityError Bytes
  unfolding grant_lines revoked_lines
  to_snapshot s = do
    grants ← grant_lines s.grants
    ok (line (store_header ∷ []) ++ (grants ++ revoked_lines s.revoked_devices))

  -- A grant's line has ten fields behind its tag.
  unfoldable pub load_line : RepoKeyGrantStore → List Bytes → Result IdentityError RepoKeyGrantStore
  unfolding insert_grant load_revoked
  load_line s [] = err invalid_grant_store
  load_line s (tag ∷ fields) =
      if tag == codes "grant"
      then (parse_fields fields >>= λ g. insert_grant g s)
      else if tag == codes "revoked_device"
      then load_revoked s fields
      else err invalid_grant_store

  unfoldable pub load_store : List Bytes → Result IdentityError RepoKeyGrantStore
  unfolding load_line
  load_store [] = err invalid_grant_store
  load_store (header ∷ rest) =
      if header == store_header
      then load_lines load_line empty_store rest
      else err invalid_grant_store

  unfoldable pub from_snapshot : Bytes → Result IdentityError RepoKeyGrantStore
  unfolding load_store
  from_snapshot text = load_store (lines text)
