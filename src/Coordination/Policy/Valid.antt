-- ===== src/Coordination/Policy/Valid.antt =====
-- The policies that the edits of `RepoPolicy` make.
use git_mesh.Prelude.{
  ℕ, ◌≤◌, ◌≡◌, Bool, true, false, [], ◌∷◌, arith, Bytes, All, ok, inl, inr, Bool-cases,
}
use git_mesh.Prelude.Order.{nat_ord, list_ord}
use git_mesh.SortedMap.{SortedSet, insert}
use git_mesh.SortedMap.Sorted.{IsSorted, insert-IsSorted}
use git_mesh.Text.Decimal.{max_u64}
use git_mesh.Core.Cid.{Cid, to_text}
use git_mesh.Coordination.Names.{RefName, validate_ref_name}
use git_mesh.Coordination.Policy.{
  RepoPolicy, grant_writer_account_id_string, grant_writer_device,
  grant_force_push_account_id_string, grant_force_push_device, protect_ref, set_require_signed_refs,
  bump_policy_epoch, bump_if_new, next_epoch, same_bool,
}

-- Sorted sets, valid names, an epoch of 64 bits.
pub record IsPolicy (p : RepoPolicy) : Type 0 where
  pub epoch : p.policy_epoch ≤ max_u64
  pub accounts : IsSorted p.writer_accounts
  pub devices : IsSorted p.writer_devices
  pub force_accounts : IsSorted p.force_push_accounts
  pub force_devices : IsSorted p.force_push_devices
  pub sorted_names : IsSorted p.protected_refs
  pub names : All (λ entry. validate_ref_name entry.0 ≡ ok tt) p.protected_refs

next_epoch-le : (n : ℕ) → n ≤ max_u64 → next_epoch n ≤ max_u64
unfolding next_epoch
next_epoch-le n h = ground arith

All-insert :
    (name : RefName) (set : SortedSet Bytes)
    → validate_ref_name name ≡ ok tt
    → All (λ entry. validate_ref_name entry.0 ≡ ok tt) set
    → All (λ entry. validate_ref_name entry.0 ≡ ok tt) (insert name tt set)
unfolding insert
All-insert name [] h v = (h, tt)
All-insert name ((k, u) ∷ set) h (w, v) = ground (arith, All-insert name set h v)

bump_if_new-IsPolicy : (b : Bool) (p : RepoPolicy) → IsPolicy p → IsPolicy (bump_if_new b p)
unfolding bump_policy_epoch
bump_if_new-IsPolicy false p v = v
bump_if_new-IsPolicy true p v = record {
  epoch = next_epoch-le p.policy_epoch v.epoch;
  accounts = v.accounts;
  devices = v.devices;
  force_accounts = v.force_accounts;
  force_devices = v.force_devices;
  sorted_names = v.sorted_names;
  names = v.names;
}

require-IsPolicy :
    (p : RepoPolicy) (value : Bool) → IsPolicy p → IsPolicy (set_require_signed_refs value p)
unfolding set_require_signed_refs
require-IsPolicy p value v = elim (Bool-cases (same_bool p.require_signed_refs value)) [
  | inl same ↦ rw same (record {
    epoch = v.epoch;
    accounts = v.accounts;
    devices = v.devices;
    force_accounts = v.force_accounts;
    force_devices = v.force_devices;
    sorted_names = v.sorted_names;
    names = v.names;
  })
  | inr other ↦
      let w = bump_if_new-IsPolicy true p v in
      rw other (record {
        epoch = w.epoch;
        accounts = w.accounts;
        devices = w.devices;
        force_accounts = w.force_accounts;
        force_devices = w.force_devices;
        sorted_names = w.sorted_names;
        names = w.names;
      })
]

-- Every edit of a policy keeps its sets sorted, its protected refs valid names and its epoch
-- within 64 bits, where a ref that is to be protected has a valid name.
pub edits-IsPolicy :
    (p : RepoPolicy) (account : Bytes) (device : Cid) (name : RefName) (value : Bool)
    → IsPolicy p
    → validate_ref_name name ≡ ok tt
    → IsPolicy (grant_writer_account_id_string account p)
      × IsPolicy (grant_writer_device device p)
      × IsPolicy (grant_force_push_account_id_string account p)
      × IsPolicy (grant_force_push_device device p)
      × IsPolicy (protect_ref name p)
      × IsPolicy (set_require_signed_refs value p)
unfolding grant_writer_account_id_string grant_writer_device grant_force_push_account_id_string
    grant_force_push_device protect_ref set_require_signed_refs
edits-IsPolicy p account device name value v valid = (
  bump_if_new-IsPolicy _ _ (record {
    epoch = v.epoch;
    accounts = insert-IsSorted account tt p.writer_accounts v.accounts;
    devices = v.devices;
    force_accounts = v.force_accounts;
    force_devices = v.force_devices;
    sorted_names = v.sorted_names;
    names = v.names;
  }),
  bump_if_new-IsPolicy _ _ (record {
    epoch = v.epoch;
    accounts = v.accounts;
    devices = insert-IsSorted (to_text device) tt p.writer_devices v.devices;
    force_accounts = v.force_accounts;
    force_devices = v.force_devices;
    sorted_names = v.sorted_names;
    names = v.names;
  }),
  bump_if_new-IsPolicy _ _ (record {
    epoch = v.epoch;
    accounts = v.accounts;
    devices = v.devices;
    force_accounts = insert-IsSorted account tt p.force_push_accounts v.force_accounts;
    force_devices = v.force_devices;
    sorted_names = v.sorted_names;
    names = v.names;
  }),
  bump_if_new-IsPolicy _ _ (record {
    epoch = v.epoch;
    accounts = v.accounts;
    devices = v.devices;
    force_accounts = v.force_accounts;
    force_devices = insert-IsSorted (to_text device) tt p.force_push_devices v.force_devices;
    sorted_names = v.sorted_names;
    names = v.names;
  }),
  bump_if_new-IsPolicy _ _ (record {
    epoch = v.epoch;
    accounts = v.accounts;
    devices = v.devices;
    force_accounts = v.force_accounts;
    force_devices = v.force_devices;
    sorted_names = insert-IsSorted name tt p.protected_refs v.sorted_names;
    names = All-insert name p.protected_refs valid v.names;
  }),
  require-IsPolicy p value v,
)
