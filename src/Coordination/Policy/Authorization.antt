-- ===== src/Coordination/Policy/Authorization.antt =====
-- Which ref updates a policy lets through.
use git_mesh.Prelude.{◌≡◌, ◌⊎◌, ◌↔◌, true, false, some, [], arith, ok}
use git_mesh.Prelude.Order.{nat_ord, list_ord}
use git_mesh.SortedMap.{contains}
use git_mesh.Git.Oid.{GitSha1Oid}
use git_mesh.Coordination.Update.{RefUpdate}
use git_mesh.Coordination.Policy.{
  RepoPolicy, SignedRefUpdateActor, RefUpdateActor, unsigned, signed, has_writers,
  authorize_ref_update,
}

-- The actor is a writer, by its account or by its device.
abbrev pub IsWriter : RepoPolicy → SignedRefUpdateActor → Type 0
IsWriter p a =
    (contains a.account_id p.writer_accounts ≡ true)
    ⊎ (contains a.device_id p.writer_devices ≡ true)

abbrev pub IsForcePusher : RepoPolicy → SignedRefUpdateActor → Type 0
IsForcePusher p a =
    (contains a.account_id p.force_push_accounts ≡ true)
    ⊎ (contains a.device_id p.force_push_devices ≡ true)

-- Neither a forced update nor the deletion of a ref.
abbrev pub IsKeeping : RefUpdate → Type 0
IsKeeping u = (u.force ≡ false) × ((oid : GitSha1Oid) × (u.new_oid ≡ some oid))

-- No list of writers is kept.
abbrev pub IsOpen : RepoPolicy → Type 0
IsOpen p = (p.writer_accounts ≡ []) × (p.writer_devices ≡ [])

abbrev pub Permits : RepoPolicy → RefUpdate → RefUpdateActor → Type 0
Permits p u unsigned = (p.require_signed_refs ≡ false) × IsOpen p
Permits p u (signed a) =
    (IsOpen p ⊎ IsWriter p a)
    × ((contains u.ref_name p.protected_refs ≡ false) ⊎ (IsKeeping u ⊎ IsForcePusher p a))

-- An update is authorized exactly when it names the policy's epoch and the policy permits it: an
-- unsigned update, forced or deleting and of a protected ref too, where signatures are not
-- required and no writer is listed; a signed one where its actor is a writer or none is listed,
-- and where the ref is not protected, or is neither forced nor deleted, or the actor may
-- force-push.
pub authorize_iff_Permits :
    (p : RepoPolicy) (u : RefUpdate) (actor : RefUpdateActor)
    → (authorize_ref_update p u actor ≡ ok tt)
      ↔ ((u.policy_epoch ≡ p.policy_epoch) × Permits p u actor)
unfolding authorize_ref_update has_writers
authorize_iff_Permits p u unsigned = (λ h. ground arith, λ h. ground arith)
authorize_iff_Permits p u (signed a) = (λ h. ground arith, λ h. ground arith)
