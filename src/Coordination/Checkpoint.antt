-- ===== src/Coordination/Checkpoint.antt =====
-- `RefCheckpoint`, `RefMutation` and the roots that a checkpoint commits to, of
-- crates/gitmesh-coordination/src/lib.rs. A sum of 64 bits wraps, as in a release build.
pub mod Signed
use git_mesh.Prelude.{
  ℕ, ◌+◌, ◌%◌, ◌^◌, Bool, not, ◌||◌, [], ◌∷◌, ◌++◌, Option, none, some, Bytes, codes, length, eqb,
  Result, ok, fail_if, ◌>>◌,
}
use git_mesh.Prelude.Order.{◌==◌, nat_ord, list_ord, option_ord}
use git_mesh.SortedMap.{SortedMap}
use git_mesh.Text.Words.{be_bytes}
use git_mesh.Core.Hash.{Blake3}
use git_mesh.Core.Cid
use git_mesh.Core.Cid.{Cid, protocol_object, blake3_256, to_text, as_hex, cid_ord}
use git_mesh.Git.Oid.{GitSha1Oid, oid_hex}
use git_mesh.Coordination.Names.{RefName, TransactionId, CoordinationError, invalid_snapshot}
use git_mesh.Coordination.Update.{
  format_optional_oid, format_optional_cid, put_transcript_field, bool_byte,
}

pub record RefCheckpoint : Type 0 where
  pub sequence : ℕ
  pub parent : Option Cid
  pub refs_root : Cid
  pub history_root : Cid
  pub checkpoint_cid : Cid

pub record RefMutation : Type 0 where
  pub sequence : ℕ
  pub transaction_id : TransactionId
  pub fingerprint : Bytes
  pub ref_name : RefName
  pub old_oid : Option GitSha1Oid
  pub new_oid : Option GitSha1Oid
  pub force : Bool
  pub signer : Bytes

unfoldable pub next_u64 : ℕ → ℕ
next_u64 n = (n + 1) % 2 ^ 64

unfoldable pub refs_transcript : SortedMap RefName GitSha1Oid → Bytes
refs_transcript [] = []
refs_transcript ((name, oid) ∷ refs) =
    put_transcript_field name ++ (put_transcript_field (oid_hex oid) ++ refs_transcript refs)

unfoldable pub history_transcript : Option Cid → RefMutation → Bytes
history_transcript previous m =
    codes "gitmesh.v0.ref-history-root"
    ++ (put_transcript_field (format_optional_cid previous)
        ++ (be_bytes 8 m.sequence
            ++ (put_transcript_field m.fingerprint
                ++ (put_transcript_field m.transaction_id
                    ++ (put_transcript_field m.ref_name
                        ++ (put_transcript_field (format_optional_oid m.old_oid)
                            ++ (put_transcript_field (format_optional_oid m.new_oid)
                                ++ (bool_byte m.force ∷ put_transcript_field m.signer))))))))

unfoldable pub checkpoint_transcript : ℕ → Option Cid → Cid → Cid → Bytes
checkpoint_transcript sequence parent refs_root history_root =
    codes "gitmesh.v0.ref-checkpoint"
    ++ (be_bytes 8 sequence
        ++ (put_transcript_field (format_optional_cid parent)
            ++ (put_transcript_field (as_hex refs_root)
                ++ put_transcript_field (as_hex history_root))))

-- The transcript that a device signs.
unfoldable pub signing_transcript : RefCheckpoint → Bytes
signing_transcript c =
    codes "gitmesh.v0.signed-ref-checkpoint"
    ++ (be_bytes 8 c.sequence
        ++ (put_transcript_field (format_optional_cid c.parent)
            ++ (put_transcript_field (as_hex c.refs_root)
                ++ (put_transcript_field (as_hex c.history_root)
                    ++ put_transcript_field (to_text c.checkpoint_cid)))))

unfoldable pub expected_sequence : Option ℕ → ℕ
expected_sequence none = 1
expected_sequence (some previous) = next_u64 previous

module _ (h : Blake3) where
  unfoldable pub compute_refs_root : SortedMap RefName GitSha1Oid → Cid
  compute_refs_root refs =
      Cid.new h protocol_object blake3_256
        (codes "gitmesh.v0.refs-root" ++ (be_bytes 8 (length refs) ++ refs_transcript refs))

  unfoldable pub compute_history_root : Option Cid → RefMutation → Cid
  compute_history_root previous m =
      Cid.new h protocol_object blake3_256 (history_transcript previous m)

  unfoldable pub compute_checkpoint_cid : ℕ → Option Cid → Cid → Cid → Cid
  compute_checkpoint_cid sequence parent refs_root history_root =
      Cid.new h protocol_object blake3_256
        (checkpoint_transcript sequence parent refs_root history_root)

  -- The checkpoint's own identifier, computed from its other fields.
  abbrev pub own_cid : RefCheckpoint → Cid
  own_cid c = compute_checkpoint_cid c.sequence c.parent c.refs_root c.history_root

  unfoldable pub verify_cid : RefCheckpoint → Result CoordinationError (Unit {0})
  verify_cid c = do fail_if (not (c.checkpoint_cid == own_cid c)) invalid_snapshot; ok tt

  unfoldable pub validate_checkpoint_chain :
      Option RefCheckpoint → RefCheckpoint → Result CoordinationError (Unit {0})
  validate_checkpoint_chain none c = do
    fail_if
        (not (eqb c.sequence (expected_sequence none))
          || not (c.parent == none)
          || not (c.checkpoint_cid == own_cid c))
        invalid_snapshot
    ok tt
  validate_checkpoint_chain (some previous) c = do
    fail_if
        (not (eqb c.sequence (expected_sequence (some previous.sequence)))
          || not (c.parent == some previous.checkpoint_cid)
          || not (c.checkpoint_cid == own_cid c))
        invalid_snapshot
    ok tt

unfoldable pub validate_mutation_sequence :
    Option RefMutation → RefMutation → Result CoordinationError (Unit {0})
validate_mutation_sequence none m = do
  fail_if (not (eqb m.sequence (expected_sequence none))) invalid_snapshot
  ok tt
validate_mutation_sequence (some previous) m = do
  fail_if (not (eqb m.sequence (expected_sequence (some previous.sequence)))) invalid_snapshot
  ok tt
