-- ===== src/Coordination/Store/Snapshot.antt =====
-- The text of `RefStore::save_to_path` and `RefStore::from_snapshot` of
-- crates/gitmesh-coordination/src/lib.rs.
use git_mesh.Prelude.{
  not, ◌||◌, Option, none, some, List, [], ◌∷◌, ◌++◌, Bytes, codes, length, last?, eqb, Result, ok,
  err, ok_or, fail_if, map_err, if◌then◌else◌, ◌>>=◌, ◌>>◌,
}
use git_mesh.Prelude.Order.{◌==◌, nat_ord, list_ord}
use git_mesh.SortedMap.{SortedMap, insert}
use git_mesh.Text.Search.{starts_with}
use git_mesh.Text.Split.{lines}
use git_mesh.Text.Decimal.{decimal, parse_u64}
use git_mesh.SnapshotText.{line, load_lines}
use git_mesh.Core.Hash.{Blake3}
use git_mesh.Core.Hex.{decode_chunks}
use git_mesh.Core.Cid.{
  Cid, protocol_object, blake3_256, kind_code, algorithm_code, to_text, from_text, from_digest,
}
use git_mesh.Git.Oid.{GitSha1Oid, oid_hex}
use git_mesh.Coordination.Names.{
  RefName, TransactionId, CoordinationError, invalid_snapshot, validate_snapshot_field,
  snapshot_field, ref_name, transaction_id,
}
use git_mesh.Coordination.Update.{
  format_optional_oid, parse_optional_oid, format_optional_cid, format_bool, parse_bool,
}
use git_mesh.Coordination.Checkpoint.{
  RefCheckpoint, RefMutation, validate_checkpoint_chain, validate_mutation_sequence,
}
use git_mesh.Coordination.Store.{
  RefStore, TransactionReceipt, committed, rejected, conflict, idempotency_violation, empty_store,
}
use git_mesh.Coordination.Store.Consistency.{Receipts, validate_store_consistency}

abbrev pub store_header : Bytes
store_header = codes "gitmesh-ref-store-v0"

unfoldable pub ref_lines : SortedMap RefName GitSha1Oid → Bytes
ref_lines [] = []
ref_lines ((name, oid) ∷ refs) = line (codes "ref" ∷ name ∷ oid_hex oid ∷ []) ++ ref_lines refs

-- The fields of the line of a receipt.
unfoldable pub receipt_fields : TransactionId → Bytes → TransactionReceipt → List Bytes
receipt_fields tx fingerprint (committed _ name old_oid new_oid) =
    codes "receipt_committed"
    ∷ tx
    ∷ fingerprint
    ∷ name
    ∷ format_optional_oid old_oid
    ∷ format_optional_oid new_oid
    ∷ []
receipt_fields tx fingerprint (rejected _ (conflict expected actual)) =
    codes "receipt_rejected_conflict"
    ∷ tx
    ∷ fingerprint
    ∷ format_optional_oid expected
    ∷ format_optional_oid actual
    ∷ []
receipt_fields tx fingerprint (rejected _ idempotency_violation) =
    codes "receipt_rejected_idempotency" ∷ tx ∷ fingerprint ∷ []

unfoldable pub receipt_lines : Receipts → Result CoordinationError Bytes
unfolding receipt_fields
receipt_lines [] = ok []
receipt_lines ((tx, (fingerprint, receipt)) ∷ receipts) = do
  validate_snapshot_field fingerprint
  rest ← receipt_lines receipts
  ok (line (receipt_fields tx fingerprint receipt) ++ rest)

unfoldable pub mutation_fields : RefMutation → List Bytes
mutation_fields m =
    codes "mutation"
    ∷ decimal m.sequence
    ∷ m.transaction_id
    ∷ m.fingerprint
    ∷ m.ref_name
    ∷ format_optional_oid m.old_oid
    ∷ format_optional_oid m.new_oid
    ∷ format_bool m.force
    ∷ m.signer
    ∷ []

unfoldable pub mutation_lines : List RefMutation → Result CoordinationError Bytes
unfolding mutation_fields
mutation_lines [] = ok []
mutation_lines (m ∷ ms) = do
  validate_snapshot_field m.fingerprint
  validate_snapshot_field m.signer
  rest ← mutation_lines ms
  ok (line (mutation_fields m) ++ rest)

unfoldable pub checkpoint_fields : RefCheckpoint → List Bytes
checkpoint_fields c =
    codes "checkpoint"
    ∷ decimal c.sequence
    ∷ format_optional_cid c.parent
    ∷ to_text c.refs_root
    ∷ to_text c.history_root
    ∷ to_text c.checkpoint_cid
    ∷ []

unfoldable pub checkpoint_lines : List RefCheckpoint → Bytes
unfolding checkpoint_fields
checkpoint_lines [] = []
checkpoint_lines (c ∷ cs) = line (checkpoint_fields c) ++ checkpoint_lines cs

unfoldable pub to_snapshot : RefStore → Result CoordinationError Bytes
unfolding ref_lines receipt_lines mutation_lines checkpoint_lines
to_snapshot s = do
  receipts ← receipt_lines s.receipts
  mutations ← mutation_lines s.mutations
  ok (
      line (store_header ∷ [])
      ++ (ref_lines s.refs ++ (receipts ++ (mutations ++ checkpoint_lines s.checkpoints))))

-- The crate has its own `hex_nibble`; `parse_digest` reads 64 digits in pairs.
unfoldable pub parse_digest : Bytes → Result CoordinationError Bytes
parse_digest value = do
  fail_if (not (eqb (length value) 64)) invalid_snapshot
  map_err (decode_chunks value) (λ _. invalid_snapshot)

unfoldable pub protocol_cid_from_text : Bytes → Result CoordinationError Cid
unfolding parse_digest
protocol_cid_from_text value =
    if starts_with (codes "gitmesh:") value
    then (do
      cid ← map_err (from_text value) (λ _. invalid_snapshot)
      fail_if
          (not (eqb (kind_code cid.kind) (kind_code protocol_object))
            || not (eqb (algorithm_code cid.hash_algorithm) (algorithm_code blake3_256)))
          invalid_snapshot
      ok cid)
    else (do digest ← parse_digest value; ok (from_digest protocol_object blake3_256 digest))

unfoldable pub parse_optional_cid : Bytes → Result CoordinationError (Option Cid)
parse_optional_cid value =
    if value == codes "none" then ok none else do cid ← protocol_cid_from_text value; ok (some cid)

-- The arms of the loader's `match`, a function for each tag; the number of fields is the pattern.
unfoldable pub load_ref : RefStore → List Bytes → Result CoordinationError RefStore
load_ref s (name ∷ oid ∷ []) = do
  name' ← ref_name name
  parsed ← parse_optional_oid oid
  oid' ← ok_or parsed invalid_snapshot
  ok (record s { refs = insert name' oid' s.refs })
load_ref s _ = err invalid_snapshot

unfoldable pub load_committed : RefStore → List Bytes → Result CoordinationError RefStore
load_committed s (tx ∷ fingerprint ∷ name ∷ old_oid ∷ new_oid ∷ []) = do
  tx' ← transaction_id tx
  fingerprint' ← snapshot_field fingerprint
  name' ← ref_name name
  old_oid' ← parse_optional_oid old_oid
  new_oid' ← parse_optional_oid new_oid
  ok (record s {
    receipts = insert tx' (fingerprint', committed tx' name' old_oid' new_oid') s.receipts;
  })
load_committed s _ = err invalid_snapshot

unfoldable pub load_conflict : RefStore → List Bytes → Result CoordinationError RefStore
load_conflict s (tx ∷ fingerprint ∷ expected ∷ actual ∷ []) = do
  tx' ← transaction_id tx
  fingerprint' ← snapshot_field fingerprint
  expected' ← parse_optional_oid expected
  actual' ← parse_optional_oid actual
  ok (record s {
    receipts = insert tx' (fingerprint', rejected tx' (conflict expected' actual')) s.receipts;
  })
load_conflict s _ = err invalid_snapshot

unfoldable pub load_idempotency : RefStore → List Bytes → Result CoordinationError RefStore
load_idempotency s (tx ∷ fingerprint ∷ []) = do
  tx' ← transaction_id tx
  fingerprint' ← snapshot_field fingerprint
  ok (record s {
    receipts = insert tx' (fingerprint', rejected tx' idempotency_violation) s.receipts;
  })
load_idempotency s _ = err invalid_snapshot

unfoldable pub load_mutation : RefStore → List Bytes → Result CoordinationError RefStore
load_mutation s (sequence ∷ tx ∷ fingerprint ∷ name ∷ old_oid ∷ new_oid ∷ force ∷ signer ∷ []) = do
  sequence' ← ok_or (parse_u64 sequence) invalid_snapshot
  tx' ← transaction_id tx
  fingerprint' ← snapshot_field fingerprint
  name' ← ref_name name
  old_oid' ← parse_optional_oid old_oid
  new_oid' ← parse_optional_oid new_oid
  force' ← parse_bool force
  signer' ← snapshot_field signer
  let m : RefMutation = record {
    sequence = sequence';
    transaction_id = tx';
    fingerprint = fingerprint';
    ref_name = name';
    old_oid = old_oid';
    new_oid = new_oid';
    force = force';
    signer = signer';
  }
  validate_mutation_sequence (last? s.mutations) m
  ok (record s { mutations = s.mutations ++ m ∷ [] })
load_mutation s _ = err invalid_snapshot

module _ (h : Blake3) where
  unfoldable pub load_checkpoint : RefStore → List Bytes → Result CoordinationError RefStore
  load_checkpoint s (sequence ∷ parent ∷ refs_root ∷ history_root ∷ checkpoint_cid ∷ []) = do
    sequence' ← ok_or (parse_u64 sequence) invalid_snapshot
    parent' ← parse_optional_cid parent
    refs_root' ← protocol_cid_from_text refs_root
    history_root' ← protocol_cid_from_text history_root
    checkpoint_cid' ← protocol_cid_from_text checkpoint_cid
    let c : RefCheckpoint = record {
      sequence = sequence';
      parent = parent';
      refs_root = refs_root';
      history_root = history_root';
      checkpoint_cid = checkpoint_cid';
    }
    validate_checkpoint_chain h (last? s.checkpoints) c
    ok (record s { checkpoints = s.checkpoints ++ c ∷ [] })
  load_checkpoint s _ = err invalid_snapshot

  unfoldable pub load_line : RefStore → List Bytes → Result CoordinationError RefStore
  load_line s [] = err invalid_snapshot
  load_line s (tag ∷ fields) =
      if tag == codes "ref"
      then load_ref s fields
      else if tag == codes "receipt_committed"
      then load_committed s fields
      else if tag == codes "receipt_rejected_conflict"
      then load_conflict s fields
      else if tag == codes "receipt_rejected_idempotency"
      then load_idempotency s fields
      else if tag == codes "checkpoint"
      then load_checkpoint s fields
      else if tag == codes "mutation"
      then load_mutation s fields
      else err invalid_snapshot

  unfoldable pub load_store : List Bytes → Result CoordinationError RefStore
  load_store [] = err invalid_snapshot
  load_store (header ∷ rest) =
      if header == store_header
      then (do s ← load_lines load_line empty_store rest; validate_store_consistency h s; ok s)
      else err invalid_snapshot

  unfoldable pub from_snapshot : Bytes → Result CoordinationError RefStore
  unfolding load_store
  from_snapshot text = load_store (lines text)
