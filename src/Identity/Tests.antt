-- ===== src/Identity/Tests.antt =====
-- A stand-in for the cipher, and the theorems about grants at concrete inputs.
use git_mesh.Prelude.{
  ℕ, ◌%◌, true, ◌≡◌, ◌≢◌, ◌≤◌, ◌<◌, refl, none, some, false, [], ◌∷◌, ◌++◌, Bytes, All, codes,
  is_empty, replicate, Option, ok,
}
use git_mesh.Prelude.Order.{◌==◌, ==_self, list_ord, nat_ord}
use git_mesh.SnapshotText.{line}
use git_mesh.Core.Tests.{sum_hash, repeat, sum}
use git_mesh.Core.Cid.{Cid, to_text}
use git_mesh.Crypto.{Aead, xchacha20_poly1305}
use git_mesh.Identity.Certificate.{
  Ed25519, certify_device, DeviceCertificate, id_from_verifying_key,
}
use git_mesh.Identity.Grant.{RepoKeyGrant, grant_fields, signing_transcript}
use git_mesh.Identity.Grant.Keys.{
  grant_repo_key_to_device, unwrap_repo_key_grant, unwrap_repo_key_grant-grant_repo_key_to_device,
}
use git_mesh.Identity.GrantStore.{
  RepoKeyGrantStore, grant_key, revoke_device_from_epoch, latest_epoch, active_grants_for_epoch,
  grant_for_device, grants_for_repo_epoch, from_snapshot, store_header,
}
use git_mesh.Identity.GrantStore.Active.{active_grants-revoke}
use git_mesh.Identity.GrantStore.Epochs.{latest_epoch-eq-some}
use git_mesh.Identity.GrantStore.Sound.{IsSound, from_snapshot-IsSound}

-- A cipher that changes nothing.
same_text :
    (text cipher : Bytes)
    → ◌≡◌ {A = Option Bytes} (some text) (some cipher)
    → ◌≡◌ {A = Option Bytes} (some cipher) (some text)
same_text text cipher e = cc

abbrev open_text : Aead
open_text = record {
  encrypt = λ key nonce text aad. some text;
  decrypt = λ key nonce cipher aad. some cipher;
  decrypt-encrypt = λ key nonce text aad cipher e. same_text text cipher e;
}

-- A signature is the sum of the key and the message, in 64 bytes.
digest_verifies :
    (seed message : Bytes)
    → (repeat 64 (sum (seed ++ message) % 256) == repeat 64 (sum (seed ++ message) % 256)) ≡ true
digest_verifies seed message = ==_self (repeat 64 (sum (seed ++ message) % 256))

abbrev digest_signatures : Ed25519
digest_signatures = record {
  public_key = λ seed. seed;
  is_key = λ key. true;
  sign = λ seed message. repeat 64 (sum (seed ++ message) % 256);
  verifies = λ key message signature. signature == repeat 64 (sum (key ++ message) % 256);
  is_key-public_key = λ seed. refl;
  verifies-sign = digest_verifies;
}

abbrev account_seed : Bytes
account_seed = repeat 32 1

abbrev device_seed : Bytes
device_seed = repeat 32 2

abbrev laptop : DeviceCertificate
laptop = certify_device sum_hash digest_signatures account_seed device_seed (codes "laptop")

abbrev unsigned : RepoKeyGrant
unsigned = record {
  repo_id = codes "repo";
  epoch = 3;
  account_id = id_from_verifying_key sum_hash account_seed;
  recipient_device_id = id_from_verifying_key sum_hash device_seed;
  recipient_device_verifying_key = device_seed;
  wrapping_algorithm = xchacha20_poly1305;
  wrapping_nonce = repeat 24 5;
  wrapped_key_ciphertext = repeat 32 9;
  signer_account_verifying_key = account_seed;
  signature = replicate 64 0;
}

abbrev granted : RepoKeyGrant
granted = record unsigned {
  signature = digest_signatures.sign account_seed (signing_transcript unsigned);
}

grant_made :
    grant_repo_key_to_device sum_hash digest_signatures open_text account_seed
      (codes "repo")
      3
      (repeat 32 9)
      device_seed
      laptop
      (repeat 24 5)
    ≡ ok granted
unfolding grant_repo_key_to_device git_mesh.Identity.Certificate.verify certify_device
    git_mesh.Identity.Certificate.certificate_transcript git_mesh.Crypto.wrap_repo_key
    git_mesh.Core.Cid.new git_mesh.Core.Cid.cid_transcript git_mesh.Text.Words.be_bytes
    git_mesh.Text.Spaces.has_whitespace git_mesh.Text.Spaces.is_space1
    git_mesh.Text.Spaces.is_space2 git_mesh.Text.Spaces.is_space3
grant_made = refl

unwrap_repo_key_grant-grant_repo_key_to_device_example :
    unwrap_repo_key_grant sum_hash digest_signatures open_text device_seed granted
    ≡ ok (repeat 32 9)
unwrap_repo_key_grant-grant_repo_key_to_device_example =
    unwrap_repo_key_grant-grant_repo_key_to_device sum_hash digest_signatures open_text account_seed
      (codes "repo") 3 (repeat 32 9) device_seed laptop (repeat 24 5) granted refl grant_made

abbrev device : Cid
device = id_from_verifying_key sum_hash device_seed

abbrev one_grant : RepoKeyGrantStore
one_grant = record { grants = (grant_key granted, granted) ∷ []; revoked_devices = [] }

abbrev one_revoked : RepoKeyGrantStore
one_revoked = record {
  grants = (grant_key granted, granted) ∷ [];
  revoked_devices = (device, 3) ∷ [];
}

device_revoked : revoke_device_from_epoch device 3 one_grant ≡ ok one_revoked
unfolding revoke_device_from_epoch git_mesh.SortedMap.insert git_mesh.SortedMap.get
device_revoked = refl

active_grants-revoke_example :
    (3 ≤ 4
      → All
          (λ (g : RepoKeyGrant). g.recipient_device_id ≢ device)
          (active_grants_for_epoch one_revoked (codes "repo") 4)
        × (grant_for_device one_revoked (codes "repo") 4 device ≡ none))
    × (4 < 3
        → active_grants_for_epoch one_revoked (codes "repo") 4
          ≡ active_grants_for_epoch one_grant (codes "repo") 4)
active_grants-revoke_example =
    active_grants-revoke one_grant one_revoked device 3 4 (codes "repo") (refl, tt) device_revoked

latest_is_three : latest_epoch one_grant (codes "repo") ≡ some 3
unfolding latest_epoch
latest_is_three = refl

latest_epoch-eq-some_example :
    (is_empty (grants_for_repo_epoch one_grant (codes "repo") 3) ≡ false)
    × ((epoch : ℕ) → 3 < epoch → grants_for_repo_epoch one_grant (codes "repo") epoch ≡ [])
latest_epoch-eq-some_example = latest_epoch-eq-some one_grant (codes "repo") 3 latest_is_three

abbrev snapshot : Bytes
snapshot =
    line (store_header ∷ [])
    ++ (line (codes "grant" ∷ grant_fields granted)
        ++ line (codes "revoked_device" ∷ to_text device ∷ codes "3" ∷ []))

snapshot_loaded : from_snapshot sum_hash digest_signatures snapshot ≡ ok one_revoked
unfolding from_snapshot git_mesh.Text.Split.lines line git_mesh.Text.Split.join to_text
    git_mesh.Text.Decimal.decimal id_from_verifying_key git_mesh.Core.Hex.hex
    git_mesh.Core.Hex.nibble_digit git_mesh.SnapshotText.load_lines git_mesh.Text.Spaces.is_blank
    git_mesh.Core.Cid.new git_mesh.Core.Cid.cid_transcript git_mesh.Text.Words.be_bytes
    git_mesh.Text.Spaces.has_whitespace git_mesh.Text.Spaces.is_space1
    git_mesh.Text.Spaces.is_space2 git_mesh.Text.Spaces.is_space3 grant_fields
    git_mesh.Identity.Grant.encode_aead_algorithm git_mesh.Identity.Grant.parse_protocol_cid
    git_mesh.Core.Cid.as_hex git_mesh.Core.Cid.from_text git_mesh.Core.Cid.parse_algorithm_label
    git_mesh.Core.Cid.parse_kind_label git_mesh.Core.Cid.parse_parts git_mesh.Core.Cid.parse_version
    git_mesh.Core.Hex.decode_chunks git_mesh.Core.Hex.decode_fixed_hex git_mesh.Core.Hex.decode_hex
    git_mesh.Core.Hex.decode_pair git_mesh.Core.Hex.hex_nibble git_mesh.Identity.Grant.aead_code
    git_mesh.Identity.Grant.decode_fixed_hex git_mesh.Identity.Grant.decode_hex
    git_mesh.Identity.Grant.parse_aead_algorithm git_mesh.Identity.Grant.parse_fields
    git_mesh.Identity.Grant.parse_u64 git_mesh.Identity.Grant.put_transcript_field
    signing_transcript git_mesh.Identity.Grant.validate_repo_id_text git_mesh.Identity.Grant.verify
    git_mesh.Identity.GrantStore.insert_grant git_mesh.Identity.GrantStore.load_line
    git_mesh.Identity.GrantStore.load_revoked git_mesh.Identity.GrantStore.load_store
    revoke_device_from_epoch git_mesh.SortedMap.get git_mesh.SortedMap.insert
    git_mesh.Text.Decimal.digits git_mesh.Text.Decimal.parse git_mesh.Text.Decimal.scan
    git_mesh.Text.Search.strip_prefix git_mesh.Text.Split.split git_mesh.Text.Split.strip_cr
    git_mesh.Text.Split.terminated
snapshot_loaded = refl

from_snapshot-IsSound_example : IsSound sum_hash digest_signatures one_revoked
from_snapshot-IsSound_example =
    from_snapshot-IsSound sum_hash digest_signatures snapshot one_revoked snapshot_loaded
