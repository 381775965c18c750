-- ===== src/Coordination/Store/Consistency.antt =====
-- `validate_store_consistency` and `validate_mutation_receipt` of
-- crates/gitmesh-coordination/src/lib.rs: the loader replays the log of mutations.
pub mod Replaying
use git_mesh.Prelude.{
  ℕ, ◌≡◌, Bool, false, not, ◌&&◌, ◌||◌, Option, none, some, List, [], ◌∷◌, Bytes, length, eqb,
  Result, ok, err, ok_or, fail_if, ◌>>=◌, ◌>>◌,
}
use git_mesh.Prelude.Order.{◌==◌, nat_ord, list_ord, option_ord, pair_ord}
use git_mesh.SortedMap.{SortedMap, get}
use git_mesh.Core.Hash.{Blake3}
use git_mesh.Core.Cid.{Cid, cid_ord}
use git_mesh.Git.Oid.{GitSha1Oid, oid_ord}
use git_mesh.Coordination.Names.{RefName, TransactionId, CoordinationError, invalid_snapshot}
use git_mesh.Coordination.Checkpoint.{
  RefCheckpoint, RefMutation, compute_refs_root, compute_history_root, compute_checkpoint_cid,
}
use git_mesh.Coordination.Store.{RefStore, TransactionReceipt, committed, rejected, write_ref}

-- The receipts by transaction, with their fingerprints.
abbrev pub Receipts : Type 0
Receipts = SortedMap TransactionId (Bytes × TransactionReceipt)

-- The receipt is that of the mutation's commit.
unfoldable pub is_receipt_of : RefMutation → TransactionReceipt → Bool
is_receipt_of m (committed transaction_id ref_name old_oid new_oid) =
    transaction_id == m.transaction_id
    && (ref_name == m.ref_name && (old_oid == m.old_oid && new_oid == m.new_oid))
is_receipt_of m (rejected _ _) = false

unfoldable pub validate_mutation_receipt :
    RefMutation → Bytes × TransactionReceipt → Result CoordinationError (Unit {0})
unfolding is_receipt_of
validate_mutation_receipt m (fingerprint, receipt) = do
  fail_if (not (fingerprint == m.fingerprint)) invalid_snapshot
  fail_if (not (is_receipt_of m receipt)) invalid_snapshot
  ok tt

-- The variables of the loop: `refs`, `previous_history` and `previous_checkpoint`.
pub record Replay : Type 0 where
  pub refs : SortedMap RefName GitSha1Oid
  pub history : Option Cid
  pub checkpoint : Option Cid

abbrev pub replay_start : Replay
replay_start = record { refs = []; history = none; checkpoint = none }

module _ (h : Blake3) (receipts : Receipts) where
  -- The comparisons of a checkpoint with the one that the replay arrives at.
  unfoldable pub validate_checkpoint :
      Replay
      → RefMutation
      → SortedMap RefName GitSha1Oid
      → RefCheckpoint
      → Result CoordinationError Replay
  validate_checkpoint st m refs c =
      let refs_root = compute_refs_root h refs in
      let history_root = compute_history_root h st.history m in
      let expected = compute_checkpoint_cid h m.sequence st.checkpoint refs_root history_root in
      do
        fail_if
            (not (eqb c.sequence m.sequence)
              || not (c.parent == st.checkpoint)
              || not (c.refs_root == refs_root)
              || not (c.history_root == history_root)
              || not (c.checkpoint_cid == expected))
            invalid_snapshot
        ok (record { refs = refs; history = some history_root; checkpoint = some c.checkpoint_cid })

  -- One round of the loop.
  unfoldable pub replay_step :
      Replay → RefMutation → RefCheckpoint → Result CoordinationError Replay
  unfolding validate_checkpoint
  replay_step st m c = do
    fail_if (not (get m.ref_name st.refs == m.old_oid)) invalid_snapshot
    entry ← ok_or (get m.transaction_id receipts) invalid_snapshot
    validate_mutation_receipt m entry
    validate_checkpoint st m (write_ref m.ref_name m.new_oid st.refs) c

  -- The lists have one length, so the case of a missing checkpoint is not reached.
  unfoldable pub replay :
      Replay → List RefMutation → List RefCheckpoint → Result CoordinationError Replay
  replay st [] cs = ok st
  replay st (m ∷ ms) [] = err invalid_snapshot
  replay st (m ∷ ms) (c ∷ cs) = replay_step st m c >>= λ st'. replay st' ms cs

unfoldable pub validate_store_consistency : Blake3 → RefStore → Result CoordinationError (Unit {0})
validate_store_consistency h s = do
  fail_if (not (eqb (length s.mutations) (length s.checkpoints))) invalid_snapshot
  final ← replay h s.receipts replay_start s.mutations s.checkpoints
  fail_if (not (final.refs == s.refs)) invalid_snapshot
  ok tt
