-- ===== src/Coordination/Policy/Epoch.antt =====
-- The edits of `RepoPolicy` and its epoch.
use git_mesh.Prelude.{◌+◌, ◌<◌, ◌≡◌, Bool, false, arith, Bytes, err}
use git_mesh.Prelude.Order.{nat_ord, list_ord}
use git_mesh.SortedMap.{contains, contains-insert_self, insert-insert}
use git_mesh.Text.Decimal.{max_u64}
use git_mesh.Core.Cid.{Cid, to_text}
use git_mesh.Coordination.Names.{RefName, stale_policy_epoch}
use git_mesh.Coordination.Update.{RefUpdate}
use git_mesh.Coordination.Policy.{
  RepoPolicy, RefUpdateActor, grant_writer_account_id_string, grant_writer_device,
  grant_force_push_account_id_string, grant_force_push_device, protect_ref, set_require_signed_refs,
  authorize_ref_update, bump_policy_epoch, next_epoch,
}

-- A grant, a protection or a setting that is made a second time leaves the policy as it was, its
-- epoch included.
pub edits_idempotent :
    (p : RepoPolicy) (account : Bytes) (device : Cid) (name : RefName) (value : Bool)
    → (grant_writer_account_id_string account (grant_writer_account_id_string account p)
        ≡ grant_writer_account_id_string account p)
      × (grant_writer_device device (grant_writer_device device p) ≡ grant_writer_device device p)
      × (grant_force_push_account_id_string account (grant_force_push_account_id_string account p)
          ≡ grant_force_push_account_id_string account p)
      × (grant_force_push_device device (grant_force_push_device device p)
          ≡ grant_force_push_device device p)
      × (protect_ref name (protect_ref name p) ≡ protect_ref name p)
      × (set_require_signed_refs value (set_require_signed_refs value p)
          ≡ set_require_signed_refs value p)
unfolding grant_writer_account_id_string grant_writer_device grant_force_push_account_id_string
    grant_force_push_device protect_ref set_require_signed_refs bump_policy_epoch
edits_idempotent p account device name value = (
  ground (
    arith,
    contains-insert_self account tt p.writer_accounts,
    insert-insert account tt p.writer_accounts,
  ),
  ground (
    arith,
    contains-insert_self (to_text device) tt p.writer_devices,
    insert-insert (to_text device) tt p.writer_devices,
  ),
  ground (
    arith,
    contains-insert_self account tt p.force_push_accounts,
    insert-insert account tt p.force_push_accounts,
  ),
  ground (
    arith,
    contains-insert_self (to_text device) tt p.force_push_devices,
    insert-insert (to_text device) tt p.force_push_devices,
  ),
  ground (
    arith,
    contains-insert_self name tt p.protected_refs,
    insert-insert name tt p.protected_refs,
  ),
  ground arith,
)

-- Once a further ref is protected, under an epoch below the largest 64-bit number, every update
-- that names the epoch from before is refused as stale, whoever signs it.
pub protect_ref_stale :
    (p : RepoPolicy) (name : RefName) (u : RefUpdate) (actor : RefUpdateActor)
    → contains name p.protected_refs ≡ false
    → u.policy_epoch ≡ p.policy_epoch
    → p.policy_epoch < max_u64
    → authorize_ref_update (protect_ref name p) u actor
      ≡ err (stale_policy_epoch (p.policy_epoch + 1) p.policy_epoch)
unfolding protect_ref authorize_ref_update bump_policy_epoch next_epoch
protect_ref_stale p name u actor fresh same room = ground arith
