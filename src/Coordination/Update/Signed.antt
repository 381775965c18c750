-- ===== src/Coordination/Update/Signed.antt =====
-- `SignedRefUpdate` of crates/gitmesh-coordination/src/lib.rs.
use git_mesh.Prelude.{not, Bytes, Result, ok, fail_if, map_err, ◌>>=◌, ◌>>◌}
use git_mesh.Prelude.Order.{◌==◌, nat_ord, list_ord}
use git_mesh.Core.Hash.{Blake3}
use git_mesh.Core.Cid.{Cid, to_text}
use git_mesh.Identity.Certificate.{Ed25519, DeviceCertificate, verify_device_signature}
use git_mesh.Coordination.Names.{CoordinationError, signer_mismatch, identity}
use git_mesh.Coordination.Update.{RefUpdate, signing_transcript}

pub record SignedRefUpdate : Type 0 where
  pub update : RefUpdate
  pub certificate : DeviceCertificate
  pub signature : Bytes

pub record VerifiedRefUpdate : Type 0 where
  pub update : RefUpdate
  pub account_id : Cid
  pub device_id : Cid

module _ (h : Blake3) (e : Ed25519) where
  unfoldable pub verify_with_identity : SignedRefUpdate → Result CoordinationError VerifiedRefUpdate
  verify_with_identity s = do
    fail_if (not (s.update.signer == to_text s.certificate.device_id)) signer_mismatch
    map_err (verify_device_signature h e s.certificate (signing_transcript s.update) s.signature)
        identity
    ok (record {
      update = s.update;
      account_id = s.certificate.account_id;
      device_id = s.certificate.device_id;
    })

  unfoldable pub verify : SignedRefUpdate → Result CoordinationError RefUpdate
  unfolding verify_with_identity
  verify s = do verified ← verify_with_identity s; ok verified.update
