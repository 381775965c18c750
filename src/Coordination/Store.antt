-- ===== src/Coordination/Store.antt =====
-- `RefStore`, its receipts and `apply`, of crates/gitmesh-coordination/src/lib.rs.
pub mod Apply
pub mod Chain
pub mod Consistency
pub mod Snapshot
use git_mesh.Prelude.{
  ℕ, suc, ◌+◌, ◌%◌, ◌^◌, ◌≡◌, Bool, true, false, not, Option, none, some, List, [], ◌∷◌, ◌++◌, map,
  Bytes, length, last?, if◌then◌else◌,
}
use git_mesh.Prelude.Order.{◌==◌, nat_ord, list_ord, option_ord}
use git_mesh.SortedMap.{SortedMap, get, insert, remove}
use git_mesh.Core.Hash.{Blake3}
use git_mesh.Core.Cid.{Cid}
use git_mesh.Git.Oid.{GitSha1Oid, oid_ord}
use git_mesh.Coordination.Names.{RefName, TransactionId}
use git_mesh.Coordination.Update.{RefUpdate, operation_fingerprint}
use git_mesh.Coordination.Checkpoint.{
  RefCheckpoint, RefMutation, compute_refs_root, compute_history_root, compute_checkpoint_cid,
}

pub data RejectionReason : Type 0 where
  conflict : Option GitSha1Oid → Option GitSha1Oid → RejectionReason
  idempotency_violation : RejectionReason

pub data TransactionReceipt : Type 0 where
  committed : TransactionId → RefName → Option GitSha1Oid → Option GitSha1Oid → TransactionReceipt
  rejected : TransactionId → RejectionReason → TransactionReceipt

pub record RefStore : Type 0 where
  pub refs : SortedMap RefName GitSha1Oid
  pub receipts : SortedMap TransactionId (Bytes × TransactionReceipt)
  pub mutations : List RefMutation
  pub checkpoints : List RefCheckpoint

-- `RefStore::default()`.
abbrev pub empty_store : RefStore
empty_store = record { refs = []; receipts = []; mutations = []; checkpoints = [] }

unfoldable pub current : RefStore → RefName → Option GitSha1Oid
current s name = get name s.refs

unfoldable pub ref_count : RefStore → ℕ
ref_count s = length s.refs

unfoldable pub checkpoint_count : RefStore → ℕ
checkpoint_count s = length s.checkpoints

unfoldable pub mutation_count : RefStore → ℕ
mutation_count s = length s.mutations

unfoldable pub latest_checkpoint : RefStore → Option RefCheckpoint
latest_checkpoint s = last? s.checkpoints

unfoldable pub before_last? {ℓ} : {A : Type ℓ} → List A → Option A
before_last? [] = none
before_last? (a ∷ []) = none
before_last? (a ∷ b ∷ []) = some a
before_last? (a ∷ b ∷ c ∷ rest) = before_last? (b ∷ c ∷ rest)

unfoldable pub checkpoint_before_latest : RefStore → Option RefCheckpoint
unfolding before_last?
checkpoint_before_latest s = before_last? s.checkpoints

-- The receipt of a transaction that is on record, read for an update that reuses its name.
unfoldable pub replayed_receipt : RefUpdate → Bytes × TransactionReceipt → TransactionReceipt
replayed_receipt u (fingerprint, receipt) =
    if fingerprint == operation_fingerprint u
    then receipt
    else rejected u.transaction_id idempotency_violation

unfoldable pub preflight_receipt : RefStore → RefUpdate → Option TransactionReceipt
unfolding replayed_receipt
preflight_receipt s u = elim (get u.transaction_id s.receipts) [
  | none ↦ none
  | some entry ↦ some (replayed_receipt u entry)
]

-- The refs after a committed update.
unfoldable pub write_ref :
    RefName → Option GitSha1Oid → SortedMap RefName GitSha1Oid → SortedMap RefName GitSha1Oid
write_ref name (some oid) refs = insert name oid refs
write_ref name none refs = remove name refs

-- The length of a list, cast to 64 bits, and one more.
unfoldable pub next_sequence : List RefMutation → ℕ
next_sequence ms = (length ms % 2 ^ 64 + 1) % 2 ^ 64

-- `committed_mutation`, on the receipt of `u`'s own commit.
unfoldable pub committed_mutation :
    ℕ → RefUpdate → Bytes → RefName → Option GitSha1Oid → Option GitSha1Oid → RefMutation
committed_mutation sequence u fingerprint name old_oid new_oid = record {
  sequence = sequence;
  transaction_id = u.transaction_id;
  fingerprint = fingerprint;
  ref_name = name;
  old_oid = old_oid;
  new_oid = new_oid;
  force = u.force;
  signer = u.signer;
}

abbrev pub checkpoint_cid_of : Option RefCheckpoint → Option Cid
checkpoint_cid_of none = none
checkpoint_cid_of (some c) = some c.checkpoint_cid

abbrev pub history_root_of : Option RefCheckpoint → Option Cid
history_root_of none = none
history_root_of (some c) = some c.history_root

module _ (h : Blake3) where
  unfoldable pub next_checkpoint :
      Option RefCheckpoint → SortedMap RefName GitSha1Oid → RefMutation → RefCheckpoint
  next_checkpoint latest refs m =
      let parent = checkpoint_cid_of latest in
      let refs_root = compute_refs_root h refs in
      let history_root = compute_history_root h (history_root_of latest) m in
      record {
        sequence = m.sequence;
        parent = parent;
        refs_root = refs_root;
        history_root = history_root;
        checkpoint_cid = compute_checkpoint_cid h m.sequence parent refs_root history_root;
      }

  unfoldable pub append_checkpoint : RefMutation → RefStore → RefStore
  unfolding next_checkpoint latest_checkpoint
  append_checkpoint m s = record s {
    checkpoints = s.checkpoints ++ next_checkpoint (latest_checkpoint s) s.refs m ∷ [];
  }

  -- The ref is written, the receipt is kept, and the mutation and its checkpoint are logged.
  unfoldable pub commit : RefStore → RefUpdate → Option GitSha1Oid → RefStore × TransactionReceipt
  unfolding write_ref committed_mutation append_checkpoint next_sequence
  commit s u actual_old_oid =
      let fingerprint = operation_fingerprint u in
      let receipt = committed u.transaction_id u.ref_name actual_old_oid u.new_oid in
      let mutation =
        committed_mutation (next_sequence s.mutations) u fingerprint u.ref_name actual_old_oid
          u.new_oid in
      let written = record s {
        refs = write_ref u.ref_name u.new_oid s.refs;
        receipts = insert u.transaction_id (fingerprint, receipt) s.receipts;
      } in
      let logged = append_checkpoint mutation written in
      (record logged { mutations = s.mutations ++ mutation ∷ [] }, receipt)

  -- Only the receipt of the refusal is kept.
  unfoldable pub refuse : RefStore → RefUpdate → Option GitSha1Oid → RefStore × TransactionReceipt
  refuse s u actual_old_oid =
      let receipt = rejected u.transaction_id (conflict u.expected_old_oid actual_old_oid) in
      (
        record s {
          receipts = insert u.transaction_id (operation_fingerprint u, receipt) s.receipts;
        },
        receipt,
      )

  unfoldable pub apply : RefStore → RefUpdate → RefStore × TransactionReceipt
  unfolding replayed_receipt current commit refuse
  apply s u = elim (get u.transaction_id s.receipts) [
    | some entry ↦ (s, replayed_receipt u entry)
    | none ↦
        if current s u.ref_name == u.expected_old_oid
        then commit s u (current s u.ref_name)
        else refuse s u (current s u.ref_name)
  ]

  -- The store after a sequence of updates.
  unfoldable pub apply_all : RefStore → List RefUpdate → RefStore
  apply_all s [] = s
  apply_all s (u ∷ us) = apply_all (apply s u).0 us
