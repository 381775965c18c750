-- ===== src/Identity/Certificate.antt =====
-- `AccountId`, `DeviceId`, `DeviceCertificate`, and the keys that issue and use a certificate, of
-- crates/gitmesh-identity/src/lib.rs. Ed25519 is the parameter `Ed25519`.
use git_mesh.Prelude.{◌≡◌, Bool, true, not, ◌++◌, Bytes, codes, length, Result, ok, fail_if, ◌>>◌}
use git_mesh.Prelude.Order.{◌==◌, ==_self}
use git_mesh.Text.Words.{be_bytes}
use git_mesh.Core.Hash.{Blake3}
use git_mesh.Crypto.{CryptoError}
use git_mesh.Core.Cid
use git_mesh.Core.Cid.{Cid, protocol_object, blake3_256, cid_ord}

pub data IdentityError : Type 0 where
  invalid_key identity_mismatch invalid_signature invalid_repo_id invalid_epoch : IdentityError
  invalid_grant_store : IdentityError
  io : Bytes → IdentityError
  crypto : CryptoError → IdentityError

-- ed25519-dalek: a secret seed has a public key, which is a valid point, and what the seed signs
-- verifies under that key.
pub record Ed25519 : Type 0 where
  pub public_key : Bytes → Bytes
  pub is_key : Bytes → Bool
  pub sign : Bytes → Bytes → Bytes
  pub verifies : Bytes → Bytes → Bytes → Bool
  pub is_key-public_key : (seed : Bytes) → is_key (public_key seed) ≡ true
  pub verifies-sign :
      (seed message : Bytes) → verifies (public_key seed) message (sign seed message) ≡ true

-- Of an account, and of a device.
unfoldable pub id_from_verifying_key : Blake3 → Bytes → Cid
id_from_verifying_key h key = Cid.new h protocol_object blake3_256 key

unfoldable pub certificate_transcript : Bytes → Bytes → Bytes → Bytes
certificate_transcript account_key device_key label =
    codes "gitmesh.v0.device-certificate"
    ++ (account_key ++ (device_key ++ (be_bytes 8 (length label) ++ label)))

pub record DeviceCertificate : Type 0 where
  pub account_id : Cid
  pub device_id : Cid
  pub account_verifying_key : Bytes
  pub device_verifying_key : Bytes
  pub label : Bytes
  pub signature : Bytes

module _ (h : Blake3) (e : Ed25519) where
  -- `AccountRootKey::certify_device`: the account's seed, the device's seed, a label.
  unfoldable pub certify_device : Bytes → Bytes → Bytes → DeviceCertificate
  unfolding id_from_verifying_key
  certify_device account_seed device_seed label =
      let account_key = e.public_key account_seed in
      let device_key = e.public_key device_seed in
      record {
        account_id = id_from_verifying_key h account_key;
        device_id = id_from_verifying_key h device_key;
        account_verifying_key = account_key;
        device_verifying_key = device_key;
        label = label;
        signature = e.sign account_seed (certificate_transcript account_key device_key label);
      }

  -- `DeviceCertificate::from_key_bytes`, which does not look at the signature.
  unfoldable pub from_key_bytes :
      Bytes → Bytes → Bytes → Bytes → Result IdentityError DeviceCertificate
  unfolding id_from_verifying_key
  from_key_bytes label account_verifying_key device_verifying_key signature = do
    fail_if (not (e.is_key account_verifying_key)) invalid_key
    fail_if (not (e.is_key device_verifying_key)) invalid_key
    ok (record {
      account_id = id_from_verifying_key h account_verifying_key;
      device_id = id_from_verifying_key h device_verifying_key;
      account_verifying_key = account_verifying_key;
      device_verifying_key = device_verifying_key;
      label = label;
      signature = signature;
    })

  unfoldable pub verify : DeviceCertificate → Result IdentityError (Unit {0})
  verify c = do
    fail_if (not (e.is_key c.account_verifying_key)) invalid_key
    fail_if (not (e.is_key c.device_verifying_key)) invalid_key
    fail_if (not (c.account_id == id_from_verifying_key h c.account_verifying_key))
        identity_mismatch
    fail_if (not (c.device_id == id_from_verifying_key h c.device_verifying_key)) identity_mismatch
    fail_if
        (not (
          e.verifies c.account_verifying_key
            (certificate_transcript c.account_verifying_key c.device_verifying_key c.label)
            c.signature))
        invalid_signature
    ok tt

  unfoldable pub verify_device_signature :
      DeviceCertificate → Bytes → Bytes → Result IdentityError (Unit {0})
  unfolding verify
  verify_device_signature c message signature = do
    verify c
    fail_if (not (e.is_key c.device_verifying_key)) invalid_key
    fail_if (not (e.verifies c.device_verifying_key message signature)) invalid_signature
    ok tt

  -- A certificate that an account issues is accepted, and so is each message that its device
  -- signs.
  pub verify_device_signature-certify_device :
      (account_seed device_seed label message : Bytes)
      → verify_device_signature
          (certify_device account_seed device_seed label)
          message
          (e.sign device_seed message)
        ≡ ok tt
  unfolding verify_device_signature certify_device verify
  verify_device_signature-certify_device account_seed device_seed label message =
      simp (e.is_key-public_key, e.verifies-sign, ==_self)
