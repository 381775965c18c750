-- ===== src/Collaboration/Event/Identity.antt =====
-- `SignedCollaborationEvent` of crates/gitmesh-collaboration/src/lib.rs.
use git_mesh.Prelude.{not, ◌++◌, Bytes, codes, Result, ok, fail_if, map_err, ◌>>=◌, ◌>>◌}
use git_mesh.Prelude.Order.{◌==◌, nat_ord, list_ord}
use git_mesh.Text.Words.{be_bytes}
use git_mesh.Core.Hash.{Blake3}
use git_mesh.Core.Cid.{Cid, to_text, as_hex}
use git_mesh.Identity.Certificate.{Ed25519, DeviceCertificate, verify_device_signature}
use git_mesh.Collaboration.Event.{
  CollaborationEvent, CollaborationError, signer_mismatch, identity, label, put_bytes,
}

-- Each field stands behind its length in 32 bits.
unfoldable pub signing_transcript : CollaborationEvent → Result CollaborationError Bytes
signing_transcript e = do
  event_id ← put_bytes (to_text e.event_id)
  repo ← put_bytes e.repo
  kind ← put_bytes (label e.kind)
  actor ← put_bytes e.actor
  ok (
      codes "gitmesh.v0.collaboration-event"
      ++ (event_id ++ (repo ++ (kind ++ (actor ++ be_bytes 8 e.timestamp_unix)))))

pub record SignedCollaborationEvent : Type 0 where
  pub event : CollaborationEvent
  pub certificate : DeviceCertificate
  pub signature : Bytes

pub record VerifiedCollaborationEvent : Type 0 where
  pub event : CollaborationEvent
  pub account_id : Cid
  pub device_id : Cid

module _ (h : Blake3) (e : Ed25519) where
  unfoldable pub verify_with_identity :
      SignedCollaborationEvent → Result CollaborationError VerifiedCollaborationEvent
  verify_with_identity s = do
    fail_if (not (s.event.actor == as_hex s.certificate.device_id)) signer_mismatch
    transcript ← signing_transcript s.event
    map_err (verify_device_signature h e s.certificate transcript s.signature) identity
    ok (record {
      event = s.event;
      account_id = s.certificate.account_id;
      device_id = s.certificate.device_id;
    })
