-- ===== src/Identity/Grant/Keys.antt =====
-- `AccountRootKey::grant_repo_key_to_device` and `DeviceKey::unwrap_repo_key_grant` of
-- crates/gitmesh-identity/src/lib.rs. Keys are their seeds, and the nonce is an argument.
use git_mesh.Prelude.{
  ℕ, ◌≡◌, refl, subst, Bool, true, false, not, ◌||◌, ◌++◌, arith, Bytes, codes, length, Result, ok,
  fail_if, map_err, ◌>>=◌, ◌>>◌, >>=-eq-ok, fail_if-eq-ok, require-eq-ok, map_err-eq-ok,
  ok-injective, replicate,
}
use git_mesh.Prelude.Order.{◌==◌, ==_self}
use git_mesh.Text.Words.{be_bytes}
use git_mesh.Core.Hash.{Blake3}
use git_mesh.Core.Cid.{Cid, to_text, cid_ord}
use git_mesh.Crypto.{
  Aead, WrappedRepoKey, from_device_secret, wrap_repo_key, unwrap_repo_key,
  unwrap_repo_key-wrap_repo_key,
}
use git_mesh.Identity.Certificate
use git_mesh.Identity.Certificate.{
  IdentityError, invalid_key, identity_mismatch, crypto, Ed25519, DeviceCertificate,
  id_from_verifying_key, certify_device,
}
use git_mesh.Identity.Grant.{
  RepoKeyGrant, put_transcript_field, validate_repo_id_text, signing_transcript, verify,
}

unfoldable pub repo_key_grant_aad : Bytes → ℕ → Cid → Bytes
unfolding put_transcript_field
repo_key_grant_aad repo_id epoch device_id =
    codes "gitmesh.v0.repo-key-grant-wrap"
    ++ (put_transcript_field repo_id
        ++ (be_bytes 8 epoch ++ put_transcript_field (to_text device_id)))

neither : (a b : Bool) → (not a || not b) ≡ false → b ≡ true
neither a b k = ground arith

module _ (h : Blake3) (e : Ed25519) (c : Aead) where
  -- The account's seed, the repository, the epoch, its key, the device's seed and certificate, and
  -- the nonce.
  unfoldable pub grant_repo_key_to_device :
      Bytes
      → Bytes
      → ℕ
      → Bytes
      → Bytes
      → DeviceCertificate
      → Bytes
      → Result IdentityError RepoKeyGrant
  unfolding repo_key_grant_aad validate_repo_id_text signing_transcript
  grant_repo_key_to_device account_seed repo_id epoch repo_key device_seed certificate nonce = do
    let account_id = id_from_verifying_key h (e.public_key account_seed)
    Certificate.verify h e certificate
    fail_if
        (not (certificate.account_id == account_id)
          || not (certificate.device_id == id_from_verifying_key h (e.public_key device_seed)))
        identity_mismatch
    validate_repo_id_text repo_id
    wrapped ←
        map_err
          (wrap_repo_key c nonce repo_key
            (from_device_secret h device_seed repo_id epoch (to_text certificate.device_id))
            (repo_key_grant_aad repo_id epoch certificate.device_id))
          crypto
    let unsigned : RepoKeyGrant = record {
      repo_id = repo_id;
      epoch = epoch;
      account_id = account_id;
      recipient_device_id = certificate.device_id;
      recipient_device_verifying_key = certificate.device_verifying_key;
      wrapping_algorithm = wrapped.algorithm;
      wrapping_nonce = wrapped.nonce;
      wrapped_key_ciphertext = wrapped.ciphertext;
      signer_account_verifying_key = e.public_key account_seed;
      signature = replicate 64 0;
    }
    ok (record unsigned { signature = e.sign account_seed (signing_transcript unsigned) })

  unfoldable pub unwrap_repo_key_grant : Bytes → RepoKeyGrant → Result IdentityError Bytes
  unfolding repo_key_grant_aad
  unwrap_repo_key_grant device_seed g = do
    verify h e g
    fail_if (not (g.recipient_device_id == id_from_verifying_key h (e.public_key device_seed)))
        identity_mismatch
    map_err
        (unwrap_repo_key c
          (record {
            algorithm = g.wrapping_algorithm;
            nonce = g.wrapping_nonce;
            ciphertext = g.wrapped_key_ciphertext;
          })
          (from_device_secret h device_seed g.repo_id g.epoch (to_text g.recipient_device_id))
          (repo_key_grant_aad g.repo_id g.epoch g.recipient_device_id))
        crypto

  -- What a certificate that is accepted says of the device.
  certified :
      (cert : DeviceCertificate)
      → Certificate.verify h e cert ≡ ok tt
      → (e.is_key cert.device_verifying_key ≡ true)
        × ((cert.device_id == id_from_verifying_key h cert.device_verifying_key) ≡ true)
  unfolding Certificate.verify
  certified cert done =
      let (_, e1) = require-eq-ok (e.is_key cert.account_verifying_key) invalid_key _ done in
      let (key, e2) = require-eq-ok (e.is_key cert.device_verifying_key) invalid_key _ e1 in
      let (_, e3) =
        require-eq-ok (cert.account_id == id_from_verifying_key h cert.account_verifying_key)
          identity_mismatch _ e2 in
      let (id, _) =
        require-eq-ok (cert.device_id == id_from_verifying_key h cert.device_verifying_key)
          identity_mismatch _ e3 in
      (key, id)

  abbrev unsigned_grant : Bytes → Bytes → ℕ → DeviceCertificate → WrappedRepoKey → RepoKeyGrant
  unsigned_grant account_seed repo_id epoch cert wrapped = record {
    repo_id = repo_id;
    epoch = epoch;
    account_id = id_from_verifying_key h (e.public_key account_seed);
    recipient_device_id = cert.device_id;
    recipient_device_verifying_key = cert.device_verifying_key;
    wrapping_algorithm = wrapped.algorithm;
    wrapping_nonce = wrapped.nonce;
    wrapped_key_ciphertext = wrapped.ciphertext;
    signer_account_verifying_key = e.public_key account_seed;
    signature = replicate 64 0;
  }

  abbrev signed_grant : Bytes → RepoKeyGrant → RepoKeyGrant
  signed_grant account_seed g = record g { signature = e.sign account_seed (signing_transcript g) }

  same_transcript :
      (s : Bytes) (g : RepoKeyGrant)
      → signing_transcript (record g { signature = s }) ≡ signing_transcript g
  unfolding signing_transcript
  same_transcript s g = refl

  verify-signed_grant :
      (account_seed repo_id : Bytes) (epoch : ℕ) (cert : DeviceCertificate)
      (wrapped : WrappedRepoKey)
      → validate_repo_id_text repo_id ≡ ok tt
      → Certificate.verify h e cert ≡ ok tt
      → verify h e
          (signed_grant account_seed (unsigned_grant account_seed repo_id epoch cert wrapped))
        ≡ ok tt
  unfolding verify
  verify-signed_grant account_seed repo_id epoch cert wrapped named checked =
      let (key, id) = certified cert checked in
      rw (
        named,
        e.is_key-public_key account_seed,
        ==_self (id_from_verifying_key h (e.public_key account_seed)),
        key,
        id,
        same_transcript
            (e.sign account_seed
              (signing_transcript (unsigned_grant account_seed repo_id epoch cert wrapped)))
            (unsigned_grant account_seed repo_id epoch cert wrapped),
        e.verifies-sign account_seed
            (signing_transcript (unsigned_grant account_seed repo_id epoch cert wrapped)),
      )

  -- The key that is granted, unwrapped from a grant with these fields.
  unwrap_granted :
      (account_seed repo_id : Bytes) (epoch : ℕ) (repo_key device_seed : Bytes)
      (cert : DeviceCertificate) (nonce : Bytes) (wrapped : WrappedRepoKey)
      → validate_repo_id_text repo_id ≡ ok tt
      → Certificate.verify h e cert ≡ ok tt
      → (cert.device_id == id_from_verifying_key h (e.public_key device_seed)) ≡ true
      → length repo_key ≡ 32
      → wrap_repo_key c nonce repo_key
          (from_device_secret h device_seed repo_id epoch (to_text cert.device_id))
          (repo_key_grant_aad repo_id epoch cert.device_id)
        ≡ ok wrapped
      → unwrap_repo_key_grant device_seed
          (signed_grant account_seed (unsigned_grant account_seed repo_id epoch cert wrapped))
        ≡ ok repo_key
  unfolding unwrap_repo_key_grant
  unwrap_granted account_seed repo_id epoch repo_key device_seed cert nonce wrapped named checked
        mine wide wrapping =
      rw (
        verify-signed_grant account_seed repo_id epoch cert wrapped named checked,
        mine,
        unwrap_repo_key-wrap_repo_key c nonce repo_key
            (from_device_secret h device_seed repo_id epoch (to_text cert.device_id))
            (repo_key_grant_aad repo_id epoch cert.device_id) wrapped wide wrapping,
      )

  -- A repository key of 32 bytes that is granted to a device is what that device unwraps from
  -- the grant.
  pub unwrap_repo_key_grant-grant_repo_key_to_device :
      (account_seed repo_id : Bytes) (epoch : ℕ) (repo_key device_seed : Bytes)
      (cert : DeviceCertificate) (nonce : Bytes) (g : RepoKeyGrant)
      → length repo_key ≡ 32
      → grant_repo_key_to_device account_seed repo_id epoch repo_key device_seed cert nonce ≡ ok g
      → unwrap_repo_key_grant device_seed g ≡ ok repo_key
  unfolding grant_repo_key_to_device
  unwrap_repo_key_grant-grant_repo_key_to_device account_seed repo_id epoch repo_key device_seed
        cert nonce g wide granted =
      let (_, checked, e1) = >>=-eq-ok (Certificate.verify h e cert) _ granted in
      let (identities, e2) =
        fail_if-eq-ok
          (not (cert.account_id == id_from_verifying_key h (e.public_key account_seed))
            || not (cert.device_id == id_from_verifying_key h (e.public_key device_seed)))
          identity_mismatch _ e1 in
      let (_, named, e3) = >>=-eq-ok (validate_repo_id_text repo_id) _ e2 in
      let (wrapped, wrapping, done) =
        >>=-eq-ok
          (map_err
            (wrap_repo_key c nonce repo_key
              (from_device_secret h device_seed repo_id epoch (to_text cert.device_id))
              (repo_key_grant_aad repo_id epoch cert.device_id))
            crypto)
          _ e3 in
      subst (λ g. unwrap_repo_key_grant device_seed g ≡ ok repo_key) (ok-injective done)
        (unwrap_granted account_seed repo_id epoch repo_key device_seed cert nonce wrapped named
          checked (neither _ _ identities) wide (map_err-eq-ok _ crypto wrapping))
