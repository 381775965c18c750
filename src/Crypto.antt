-- ===== src/Crypto.antt =====
-- crates/gitmesh-crypto/src/lib.rs: encryption of segments, and wrapping of repository keys. The
-- cipher is the parameter `Aead`; keys and nonces that the code draws at random are arguments, and
-- the types around arrays of bytes are those bytes.
use git_mesh.Prelude.{
  ℕ, ◌≡◌, ◌++◌, Option, some, arith, Bytes, codes, length, eqb, not, Result, ok, ok_or, fail_if,
  ◌>>=◌, ◌>>◌,
}
use git_mesh.Text.Words.{be_bytes}
use git_mesh.Core.Hash.{Blake3}

pub data AeadAlgorithm : Type 0 where
  xchacha20_poly1305 : AeadAlgorithm

pub data CryptoError : Type 0 where
  encryption decryption : CryptoError

-- XChaCha20-Poly1305: a key, a nonce, a text, and the data that is authenticated with it. What is
-- encrypted is decrypted under the same key, nonce and data.
pub record Aead : Type 0 where
  pub encrypt : Bytes → Bytes → Bytes → Bytes → Option Bytes
  pub decrypt : Bytes → Bytes → Bytes → Bytes → Option Bytes
  pub decrypt-encrypt :
      (key nonce text aad cipher : Bytes)
      → encrypt key nonce text aad ≡ some cipher
      → decrypt key nonce cipher aad ≡ some text

-- The parts of the hash, one after the other.
unfoldable pub put_field : Bytes → Bytes
put_field value = be_bytes 8 (length value) ++ value

pub record WrappedRepoKey : Type 0 where
  pub algorithm : AeadAlgorithm
  pub nonce : Bytes
  pub ciphertext : Bytes

pub record EncryptedBytes : Type 0 where
  pub algorithm : AeadAlgorithm
  pub key : Bytes
  pub nonce : Bytes
  pub ciphertext : Bytes

-- `KeyWrappingKey::from_device_secret`.
unfoldable pub from_device_secret : Blake3 → Bytes → Bytes → ℕ → Bytes → Bytes
unfolding put_field
from_device_secret h device_secret repo_id epoch recipient_device_id = h.hash (
    codes "gitmesh.v0.device-repo-key-wrap"
    ++ (device_secret
        ++ (put_field repo_id ++ (be_bytes 8 epoch ++ put_field recipient_device_id))))

module _ (c : Aead) where
  unfoldable pub encrypt_segment : Bytes → Bytes → Bytes → Bytes → Result CryptoError EncryptedBytes
  encrypt_segment key nonce plaintext aad = do
    ciphertext ← ok_or (c.encrypt key nonce plaintext aad) encryption
    ok (record {
      algorithm = xchacha20_poly1305;
      key = key;
      nonce = nonce;
      ciphertext = ciphertext;
    })

  unfoldable pub decrypt_segment : EncryptedBytes → Bytes → Result CryptoError Bytes
  decrypt_segment encrypted aad =
      ok_or (c.decrypt encrypted.key encrypted.nonce encrypted.ciphertext aad) decryption

  unfoldable pub decrypt_segment_bytes :
      AeadAlgorithm → Bytes → Bytes → Bytes → Bytes → Result CryptoError Bytes
  unfolding decrypt_segment
  decrypt_segment_bytes algorithm key nonce ciphertext aad =
      decrypt_segment
        (record { algorithm = algorithm; key = key; nonce = nonce; ciphertext = ciphertext }) aad

  unfoldable pub wrap_repo_key : Bytes → Bytes → Bytes → Bytes → Result CryptoError WrappedRepoKey
  wrap_repo_key nonce repo_key wrapping_key aad = do
    ciphertext ← ok_or (c.encrypt wrapping_key nonce repo_key aad) encryption
    ok (record { algorithm = xchacha20_poly1305; nonce = nonce; ciphertext = ciphertext })

  unfoldable pub unwrap_repo_key : WrappedRepoKey → Bytes → Bytes → Result CryptoError Bytes
  unwrap_repo_key wrapped wrapping_key aad = do
    plaintext ← ok_or (c.decrypt wrapping_key wrapped.nonce wrapped.ciphertext aad) decryption
    fail_if (not (eqb (length plaintext) 32)) decryption
    ok plaintext

  pub decrypt_segment-encrypt_segment :
      (key nonce plaintext aad : Bytes) (encrypted : EncryptedBytes)
      → encrypt_segment key nonce plaintext aad ≡ ok encrypted
      → decrypt_segment encrypted aad ≡ ok plaintext
  unfolding encrypt_segment decrypt_segment
  decrypt_segment-encrypt_segment key nonce plaintext aad encrypted h =
      ground (arith, c.decrypt-encrypt key nonce plaintext aad encrypted.ciphertext)

  pub unwrap_repo_key-wrap_repo_key :
      (nonce repo_key wrapping_key aad : Bytes) (wrapped : WrappedRepoKey)
      → length repo_key ≡ 32
      → wrap_repo_key nonce repo_key wrapping_key aad ≡ ok wrapped
      → unwrap_repo_key wrapped wrapping_key aad ≡ ok repo_key
  unfolding wrap_repo_key unwrap_repo_key
  unwrap_repo_key-wrap_repo_key nonce repo_key wrapping_key aad wrapped wide h =
      ground (arith, c.decrypt-encrypt wrapping_key nonce repo_key aad wrapped.ciphertext)
