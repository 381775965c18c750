-- ===== src/Coordination/Policy.antt =====
-- `RepoPolicy` of crates/gitmesh-coordination/src/lib.rs: who may move a repository's refs.
pub mod Snapshot
pub mod Authorization
pub mod Epoch
pub mod Valid
use git_mesh.Prelude.{
  ℕ, ◌+◌, ◌≡◌, Bool, true, false, not, ◌&&◌, ◌||◌, Option, none, some, [], ◌∷◌, Bytes, length,
  is_empty, eqb, leb, Result, ok, err, fail_if, if◌then◌else◌, ◌>>=◌, ◌>>◌,
}
use git_mesh.Prelude.Order.{nat_ord, list_ord}
use git_mesh.SortedMap.{SortedSet, contains, insert_new}
use git_mesh.Text.Decimal.{max_u64}
use git_mesh.Core.Cid.{Cid, to_text}
use git_mesh.Coordination.Names.{
  RefName, CoordinationError, stale_policy_epoch, unsigned_ref_update_denied,
  ref_update_not_authorized, protected_ref_denied,
}
use git_mesh.Coordination.Update.{RefUpdate}

pub record RepoPolicy : Type 0 where
  pub policy_epoch : ℕ
  pub require_signed_refs : Bool
  pub writer_accounts : SortedSet Bytes
  pub writer_devices : SortedSet Bytes
  pub force_push_accounts : SortedSet Bytes
  pub force_push_devices : SortedSet Bytes
  pub protected_refs : SortedSet RefName

-- `RepoPolicy::default()`.
abbrev pub default_policy : RepoPolicy
default_policy = record {
  policy_epoch = 0;
  require_signed_refs = false;
  writer_accounts = [];
  writer_devices = [];
  force_push_accounts = [];
  force_push_devices = [];
  protected_refs = [];
}

-- `saturating_add(1)`.
unfoldable pub next_epoch : ℕ → ℕ
next_epoch epoch = if leb max_u64 epoch then max_u64 else epoch + 1

unfoldable pub bump_policy_epoch : RepoPolicy → RepoPolicy
bump_policy_epoch p = record p { policy_epoch = next_epoch p.policy_epoch }

abbrev pub same_bool : Bool → Bool → Bool
same_bool true b = b
same_bool false b = not b

unfoldable pub set_require_signed_refs : Bool → RepoPolicy → RepoPolicy
set_require_signed_refs value p =
    let q = if same_bool p.require_signed_refs value then p else bump_policy_epoch p in
    record q { require_signed_refs = value }

-- The part that the grants share: a new member of a set moves the policy to its next epoch.
abbrev pub bump_if_new : Bool → RepoPolicy → RepoPolicy
bump_if_new is_new p = if is_new then bump_policy_epoch p else p

unfoldable pub grant_writer_account_id_string : Bytes → RepoPolicy → RepoPolicy
grant_writer_account_id_string account_id p =
    let (is_new, accounts) = insert_new account_id p.writer_accounts in
    bump_if_new is_new (record p { writer_accounts = accounts })

unfoldable pub grant_writer_account : Cid → RepoPolicy → RepoPolicy
unfolding grant_writer_account_id_string
grant_writer_account account_id p = grant_writer_account_id_string (to_text account_id) p

unfoldable pub grant_writer_device : Cid → RepoPolicy → RepoPolicy
grant_writer_device device_id p =
    let (is_new, devices) = insert_new (to_text device_id) p.writer_devices in
    bump_if_new is_new (record p { writer_devices = devices })

unfoldable pub grant_force_push_account_id_string : Bytes → RepoPolicy → RepoPolicy
grant_force_push_account_id_string account_id p =
    let (is_new, accounts) = insert_new account_id p.force_push_accounts in
    bump_if_new is_new (record p { force_push_accounts = accounts })

unfoldable pub grant_force_push_account : Cid → RepoPolicy → RepoPolicy
unfolding grant_force_push_account_id_string
grant_force_push_account account_id p = grant_force_push_account_id_string (to_text account_id) p

unfoldable pub grant_force_push_device : Cid → RepoPolicy → RepoPolicy
grant_force_push_device device_id p =
    let (is_new, devices) = insert_new (to_text device_id) p.force_push_devices in
    bump_if_new is_new (record p { force_push_devices = devices })

unfoldable pub protect_ref : RefName → RepoPolicy → RepoPolicy
protect_ref name p =
    let (is_new, names) = insert_new name p.protected_refs in
    bump_if_new is_new (record p { protected_refs = names })

unfoldable pub protected_ref_count : RepoPolicy → ℕ
protected_ref_count p = length p.protected_refs

unfoldable pub writer_count : RepoPolicy → ℕ
writer_count p = length p.writer_accounts + length p.writer_devices

unfoldable pub force_pusher_count : RepoPolicy → ℕ
force_pusher_count p = length p.force_push_accounts + length p.force_push_devices

pub record SignedRefUpdateActor : Type 0 where
  pub account_id : Bytes
  pub device_id : Bytes

pub data RefUpdateActor : Type 0 where
  unsigned : RefUpdateActor
  signed : SignedRefUpdateActor → RefUpdateActor

unfoldable pub has_writers : RepoPolicy → Bool
has_writers p = not (is_empty p.writer_accounts) || not (is_empty p.writer_devices)

abbrev pub is_none {ℓ} : {A : Type ℓ} → Option A → Bool
is_none none = true
is_none (some a) = false

-- The checks that follow once the actor is known to have signed.
unfoldable pub authorize_signed :
    RepoPolicy → RefUpdate → SignedRefUpdateActor → Result CoordinationError (Unit {0})
authorize_signed p u actor = do
  fail_if
      (has_writers p
        && not (
            contains actor.account_id p.writer_accounts
            || contains actor.device_id p.writer_devices))
      ref_update_not_authorized
  fail_if
      (contains u.ref_name p.protected_refs
        && (u.force || is_none u.new_oid)
        && not (
            contains actor.account_id p.force_push_accounts
            || contains actor.device_id p.force_push_devices))
      protected_ref_denied
  ok tt

unfoldable pub authorize_actor :
    RepoPolicy → RefUpdate → RefUpdateActor → Result CoordinationError (Unit {0})
unfolding authorize_signed
authorize_actor p u unsigned = do
  fail_if p.require_signed_refs unsigned_ref_update_denied
  fail_if (has_writers p) unsigned_ref_update_denied
  ok tt
authorize_actor p u (signed actor) = authorize_signed p u actor

unfoldable pub authorize_ref_update :
    RepoPolicy → RefUpdate → RefUpdateActor → Result CoordinationError (Unit {0})
unfolding authorize_actor
authorize_ref_update p u actor = do
  fail_if (not (eqb u.policy_epoch p.policy_epoch))
      (stale_policy_epoch p.policy_epoch u.policy_epoch)
  authorize_actor p u actor
