-- ===== src/Coordination/Checkpoint/Signed.antt =====
-- `SignedRefCheckpoint` of crates/gitmesh-coordination/src/lib.rs. A device key is its seed.
use git_mesh.Prelude.{◌≡◌, not, arith, Bytes, Option, Result, ok, fail_if, map_err, ◌>>◌}
use git_mesh.Prelude.Order.{◌==◌}
use git_mesh.Core.Hash.{Blake3}
use git_mesh.Core.Cid.{Cid, cid_ord}
use git_mesh.Identity.Certificate.{
  Ed25519, DeviceCertificate, id_from_verifying_key, certify_device, verify_device_signature,
  verify_device_signature-certify_device,
}
use git_mesh.Coordination.Names.{CoordinationError, checkpoint_signer_mismatch, identity}
use git_mesh.Coordination.Checkpoint.{
  RefCheckpoint, signing_transcript, verify_cid, validate_checkpoint_chain,
}

pub record SignedRefCheckpoint : Type 0 where
  pub checkpoint : RefCheckpoint
  pub certificate : DeviceCertificate
  pub signature : Bytes

pub record VerifiedRefCheckpoint : Type 0 where
  pub checkpoint : RefCheckpoint
  pub account_id : Cid
  pub device_id : Cid

module _ (h : Blake3) (e : Ed25519) where
  unfoldable pub sign :
      RefCheckpoint → DeviceCertificate → Bytes → Result CoordinationError SignedRefCheckpoint
  sign checkpoint certificate device_seed = do
    fail_if (not (certificate.device_id == id_from_verifying_key h (e.public_key device_seed)))
        checkpoint_signer_mismatch
    verify_cid h checkpoint
    ok (record {
      checkpoint = checkpoint;
      certificate = certificate;
      signature = e.sign device_seed (signing_transcript checkpoint);
    })

  unfoldable pub verify :
      Option RefCheckpoint → SignedRefCheckpoint → Result CoordinationError VerifiedRefCheckpoint
  verify previous s = do
    validate_checkpoint_chain h previous s.checkpoint
    verify_cid h s.checkpoint
    map_err
        (verify_device_signature h e s.certificate (signing_transcript s.checkpoint) s.signature)
        identity
    ok (record {
      checkpoint = s.checkpoint;
      account_id = s.certificate.account_id;
      device_id = s.certificate.device_id;
    })

  -- A checkpoint that follows the previous one and that a device signs under its account's
  -- certificate is accepted, as that account's and that device's.
  pub verify-sign :
      (previous : Option RefCheckpoint) (c : RefCheckpoint) (account_seed device_seed label : Bytes)
      (s : SignedRefCheckpoint)
      → validate_checkpoint_chain h previous c ≡ ok tt
      → sign c (certify_device h e account_seed device_seed label) device_seed ≡ ok s
      → verify previous s
        ≡ ok (record {
          checkpoint = c;
          account_id = id_from_verifying_key h (e.public_key account_seed);
          device_id = id_from_verifying_key h (e.public_key device_seed);
        })
  unfolding sign verify certify_device
  verify-sign previous c account_seed device_seed label s chain signed = ground (
    arith,
    verify_device_signature-certify_device h e account_seed device_seed label
        (signing_transcript c),
  )
