-- ===== src/Coordination/Tests.antt =====
-- The theorems on refs and policies at concrete updates.
use git_mesh.Prelude.{
  ℕ, ◌≡◌, ◌↔◌, refl, false, true, err, arith, none, some, Option, [], ◌∷◌, ◌++◌, Bytes, codes, ok,
  if◌then◌else◌,
}
use git_mesh.Prelude.Order.{◌==◌, ==_self, nat_ord, list_ord, option_ord}
use git_mesh.SortedMap.{get, contains_key}
use git_mesh.Core.Tests.{toy_signatures, sum_hash, sample_cid, repeat}
use git_mesh.Git.Oid.{GitSha1Oid, oid_ord}
use git_mesh.Coordination.Update.{RefUpdate}
use git_mesh.Coordination.Names.{validate_ref_name, stale_policy_epoch}
use git_mesh.Coordination.Policy.{
  RepoPolicy, default_policy, unsigned, authorize_ref_update, grant_writer_account_id_string,
  grant_writer_device, grant_force_push_account_id_string, grant_force_push_device, protect_ref,
  set_require_signed_refs,
}
use git_mesh.SnapshotText.{line}
use git_mesh.Coordination.Policy.Snapshot.{policy_header, to_snapshot, from_snapshot}
use git_mesh.Coordination.Policy.Valid.{IsPolicy, edits-IsPolicy}
use git_mesh.Coordination.Policy.Snapshot.RoundTrip.{from_snapshot-to_snapshot}
use git_mesh.Coordination.Policy.Epoch.{edits_idempotent, protect_ref_stale}
use git_mesh.Coordination.Policy.Authorization.{Permits, authorize_iff_Permits}
use git_mesh.Identity.Certificate.{certify_device, id_from_verifying_key}
use git_mesh.Coordination.Checkpoint.{
  RefCheckpoint, signing_transcript, validate_checkpoint_chain, verify_cid,
}
use git_mesh.Coordination.Checkpoint.Signed.{SignedRefCheckpoint, verify, verify-sign, sign}
use git_mesh.Coordination.Store.Chain.{IsChain, apply_all-IsChain, next_checkpoint-chain}
use git_mesh.Coordination.Store.{
  next_checkpoint, committed_mutation, empty_store, apply, apply_all, current, preflight_receipt,
}
use git_mesh.Coordination.Store.Apply.{
  fresh_receipt, apply_compare_and_swap, apply_idempotent, preflight_foresees, preflight-apply,
}
use git_mesh.Coordination.Store.Consistency.{validate_store_consistency}
use git_mesh.Coordination.Store.Consistency.Replaying.{apply_all_consistent}

abbrev oid : ℕ → GitSha1Oid
oid byte = record { digest = repeat 20 byte }

abbrev update : Bytes → Option GitSha1Oid → Option GitSha1Oid → RefUpdate
update tx expected new = record {
  repo_id = sample_cid;
  ref_name = codes "refs/heads/main";
  expected_old_oid = expected;
  new_oid = new;
  force = false;
  policy_epoch = 0;
  transaction_id = tx;
  signer = codes "acct_farzeen";
}

abbrev create : RefUpdate
create = update (codes "tx1") none (some (oid 1))

abbrev stale : RefUpdate
stale = update (codes "tx2") none (some (oid 2))

abbrev delete : RefUpdate
delete = update (codes "tx3") (some (oid 1)) none

apply_all_consistent_example :
    validate_store_consistency sum_hash
      (apply_all sum_hash empty_store (create ∷ stale ∷ delete ∷ []))
    ≡ ok tt
apply_all_consistent_example = apply_all_consistent sum_hash (create ∷ stale ∷ delete ∷ [])

apply_compare_and_swap_example :
    ((apply sum_hash empty_store create).1 ≡ fresh_receipt empty_store create)
    × (current (apply sum_hash empty_store create).0 (codes "refs/heads/main") ≡ (
        if current empty_store create.ref_name == create.expected_old_oid
        then (if codes "refs/heads/main" == create.ref_name
            then create.new_oid
            else current empty_store (codes "refs/heads/main"))
        else current empty_store (codes "refs/heads/main")))
unfolding get
apply_compare_and_swap_example =
    apply_compare_and_swap sum_hash empty_store create refl (codes "refs/heads/main")

apply_idempotent_example :
    apply sum_hash (apply sum_hash empty_store stale).0 stale
    ≡ ((apply sum_hash empty_store stale).0, (apply sum_hash empty_store stale).1)
apply_idempotent_example = apply_idempotent sum_hash empty_store stale

preflight-apply_example :
    preflight_receipt (apply sum_hash empty_store create).0 create
    ≡ some (apply sum_hash empty_store create).1
preflight-apply_example = preflight-apply sum_hash empty_store create

preflight_foresees_example :
    apply sum_hash (apply sum_hash empty_store create).0 create
    ≡ ((apply sum_hash empty_store create).0, (apply sum_hash empty_store create).1)
preflight_foresees_example =
    preflight_foresees sum_hash (apply sum_hash empty_store create).0 create
      (apply sum_hash empty_store create).1 (preflight-apply sum_hash empty_store create)

-- A policy that protects the main branch and lists no writer, and an unsigned update that
-- forces that branch.
abbrev main_protected : RepoPolicy
main_protected = protect_ref (codes "refs/heads/main") default_policy

abbrev unsigned_force : RefUpdate
unsigned_force = record create { force = true; policy_epoch = 1 }

unsigned_force_authorized : authorize_ref_update main_protected unsigned_force unsigned ≡ ok tt
unfolding authorize_ref_update protect_ref contains_key get
    git_mesh.Coordination.Policy.bump_policy_epoch git_mesh.Coordination.Policy.next_epoch
    git_mesh.Coordination.Policy.has_writers
unsigned_force_authorized = refl

authorize_iff_Permits_example :
    (authorize_ref_update main_protected unsigned_force unsigned ≡ ok tt) ↔ (
      (unsigned_force.policy_epoch ≡ main_protected.policy_epoch)
      × Permits main_protected unsigned_force unsigned)
authorize_iff_Permits_example = authorize_iff_Permits main_protected unsigned_force unsigned

edits_idempotent_example :
    (grant_writer_account_id_string
        (codes "alice")
        (grant_writer_account_id_string (codes "alice") default_policy)
      ≡ grant_writer_account_id_string (codes "alice") default_policy)
    × (grant_writer_device sample_cid (grant_writer_device sample_cid default_policy)
        ≡ grant_writer_device sample_cid default_policy)
    × (grant_force_push_account_id_string
          (codes "alice")
          (grant_force_push_account_id_string (codes "alice") default_policy)
        ≡ grant_force_push_account_id_string (codes "alice") default_policy)
    × (grant_force_push_device sample_cid (grant_force_push_device sample_cid default_policy)
        ≡ grant_force_push_device sample_cid default_policy)
    × (protect_ref (codes "refs/heads/main") (protect_ref (codes "refs/heads/main") default_policy)
        ≡ protect_ref (codes "refs/heads/main") default_policy)
    × (set_require_signed_refs true (set_require_signed_refs true default_policy)
        ≡ set_require_signed_refs true default_policy)
edits_idempotent_example =
    edits_idempotent default_policy (codes "alice") sample_cid (codes "refs/heads/main") true

protect_ref_stale_example :
    authorize_ref_update (protect_ref (codes "refs/heads/main") default_policy) create unsigned
    ≡ err (stale_policy_epoch 1 0)
unfolding contains_key get
protect_ref_stale_example =
    protect_ref_stale default_policy (codes "refs/heads/main") create unsigned refl refl
      (omega arith)

apply_all-IsChain_example :
    IsChain sum_hash none
      (apply_all sum_hash empty_store (create ∷ stale ∷ delete ∷ [])).checkpoints
apply_all-IsChain_example = apply_all-IsChain sum_hash (create ∷ stale ∷ delete ∷ [])

-- The first checkpoint over no refs.
abbrev first_checkpoint : RefCheckpoint
first_checkpoint = next_checkpoint sum_hash none [] (committed_mutation 1 create [] [] none none)

abbrev signed_first : SignedRefCheckpoint
signed_first = record {
  checkpoint = first_checkpoint;
  certificate = certify_device sum_hash toy_signatures (1 ∷ []) (2 ∷ []) (codes "laptop");
  signature = toy_signatures.sign (2 ∷ []) (signing_transcript first_checkpoint);
}

first_follows : validate_checkpoint_chain sum_hash none first_checkpoint ≡ ok tt
unfolding committed_mutation
first_follows =
    next_checkpoint-chain sum_hash none [] (committed_mutation 1 create [] [] none none) refl

first_signed :
    sign sum_hash toy_signatures first_checkpoint
      (certify_device sum_hash toy_signatures (1 ∷ []) (2 ∷ []) (codes "laptop"))
      (2 ∷ [])
    ≡ ok signed_first
unfolding sign verify_cid certify_device next_checkpoint
first_signed = simp ==_self

verify-sign_example :
    verify sum_hash toy_signatures none signed_first
    ≡ ok (record {
      checkpoint = first_checkpoint;
      account_id = id_from_verifying_key sum_hash (1 ∷ []);
      device_id = id_from_verifying_key sum_hash (2 ∷ []);
    })
verify-sign_example =
    verify-sign sum_hash toy_signatures none first_checkpoint (1 ∷ []) (2 ∷ []) (codes "laptop")
      signed_first first_follows first_signed

abbrev sample_policy : RepoPolicy
sample_policy = record {
  policy_epoch = 12;
  require_signed_refs = true;
  writer_accounts = (codes "alice", tt) ∷ (codes "bob", tt) ∷ [];
  writer_devices = [];
  force_push_accounts = [];
  force_push_devices = (codes "laptop", tt) ∷ [];
  protected_refs = (codes "refs/heads/main", tt) ∷ [];
}

abbrev policy_text : Bytes
policy_text =
    line (policy_header ∷ [])
    ++ line (codes "policy_epoch" ∷ codes "12" ∷ [])
    ++ line (codes "require_signed_refs" ∷ codes "true" ∷ [])
    ++ line (codes "writer_account" ∷ codes "alice" ∷ [])
    ++ line (codes "writer_account" ∷ codes "bob" ∷ [])
    ++ line (codes "force_push_device" ∷ codes "laptop" ∷ [])
    ++ line (codes "protected_ref" ∷ codes "refs/heads/main" ∷ [])

saved_policy : to_snapshot sample_policy ≡ ok policy_text
unfolding to_snapshot git_mesh.Coordination.Policy.Snapshot.member_lines
    git_mesh.Coordination.Names.validate_snapshot_field git_mesh.Text.Search.has_byte line
    git_mesh.Text.Split.join git_mesh.Text.Decimal.decimal git_mesh.Coordination.Update.format_bool
    git_mesh.Coordination.Policy.Snapshot.protected_lines
saved_policy = refl

sample_policy-IsPolicy : IsPolicy sample_policy
unfolding validate_ref_name git_mesh.Text.Search.starts_with git_mesh.Text.Search.ends_with
    git_mesh.Text.Search.contains_text git_mesh.Coordination.Names.is_ref_byte_forbidden
    git_mesh.Text.Split.split git_mesh.Coordination.Names.is_part_forbidden
sample_policy-IsPolicy = record {
  epoch = omega arith;
  accounts = ((refl, tt), (tt, tt));
  devices = tt;
  force_accounts = tt;
  force_devices = (tt, tt);
  sorted_names = (tt, tt);
  names = (refl, tt);
}

from_snapshot-to_snapshot_example : from_snapshot policy_text ≡ ok sample_policy
from_snapshot-to_snapshot_example =
    from_snapshot-to_snapshot sample_policy policy_text sample_policy-IsPolicy saved_policy

edits-IsPolicy_example :
    IsPolicy (grant_writer_account_id_string (codes "carol") sample_policy)
    × IsPolicy (grant_writer_device sample_cid sample_policy)
    × IsPolicy (grant_force_push_account_id_string (codes "carol") sample_policy)
    × IsPolicy (grant_force_push_device sample_cid sample_policy)
    × IsPolicy (protect_ref (codes "refs/heads/main") sample_policy)
    × IsPolicy (set_require_signed_refs false sample_policy)
edits-IsPolicy_example =
    edits-IsPolicy sample_policy (codes "carol") sample_cid (codes "refs/heads/main") false
      sample_policy-IsPolicy sample_policy-IsPolicy.names.0
