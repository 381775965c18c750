-- ===== src/Core/Tests.antt =====
-- Stand-ins for the hash and for Ed25519, and the theorems of the core at concrete inputs.
use git_mesh.Prelude.{
  ℕ, zero, suc, ◌+◌, ◌%◌, ◌<◌, ◌≡◌, refl, true, [], ◌∷◌, ◌++◌, arith, Bytes, codes, length, All, ok,
}
use git_mesh.Prelude.Order.{◌==◌, nat_ord, list_ord, ==_self}
use git_mesh.Core.Hash.{Blake3}
use git_mesh.Core.Hex.RoundTrip.{IsByte}
use git_mesh.Core.Cid.{
  Cid, CidKind, IsCid, HashAlgorithm, blake3_256, protocol_object, shard, to_text, from_text, new,
  new-IsCid,
}
use git_mesh.Core.Cid.RoundTrip.{from_text-to_text}
use git_mesh.Core.Cid.Spelling.{spelled}
use git_mesh.Core.Envelope.{
  ProtocolEnvelope, canonical_bytes, validate_domain, put_string, put_bytes, is_domain_byte,
}
use git_mesh.Text.Words.{be_bytes}
use git_mesh.Text.Search.{starts_with, is_ascii_alphanumeric}
use git_mesh.Core.Envelope.Injective.{
  cid_transcript-injective, canonical_bytes-injective, shard_transcript-injective,
}
use git_mesh.Identity.Certificate.{Ed25519, certify_device, verify_device_signature}
use git_mesh.Identity.Certificate.{verify_device_signature-certify_device}

abbrev pub repeat : ℕ → ℕ → Bytes
repeat zero b = []
repeat (suc n) b = b ∷ repeat n b

abbrev pub sum : Bytes → ℕ
sum [] = 0
sum (b ∷ bs) = b + sum bs

-- The sum of the bytes, thirty-two times.
pub sum_hash-IsByte : (n b : ℕ) → b < 256 → All IsByte (repeat n b)
sum_hash-IsByte zero b h = tt
sum_hash-IsByte (suc n) b h = (h, sum_hash-IsByte n b h)

pub length-sum_hash : (m : Bytes) → length (repeat 32 (sum m % 256)) ≡ 32
length-sum_hash m = refl

pub bytes-sum_hash : (m : Bytes) → All IsByte (repeat 32 (sum m % 256))
bytes-sum_hash m = sum_hash-IsByte 32 (sum m % 256) (omega arith)

abbrev pub sum_hash : Blake3
sum_hash = record {
  hash = λ m. repeat 32 (sum m % 256);
  length-hash = length-sum_hash;
  hash-IsByte = bytes-sum_hash;
}

-- A key is its seed, and a signature the key and the message.
pub toy_verifies : (seed message : Bytes) → (seed ++ message == seed ++ message) ≡ true
toy_verifies seed message = ==_self (seed ++ message)

abbrev pub toy_signatures : Ed25519
toy_signatures = record {
  public_key = λ seed. seed;
  is_key = λ key. true;
  sign = λ seed message. seed ++ message;
  verifies = λ key message signature. signature == key ++ message;
  is_key-public_key = λ seed. refl;
  verifies-sign = toy_verifies;
}

abbrev pub sample_cid : Cid
sample_cid = new sum_hash protocol_object blake3_256 (codes "payload")

from_text-to_text_example : from_text (to_text sample_cid) ≡ ok sample_cid
from_text-to_text_example =
    from_text-to_text sample_cid (new-IsCid sum_hash protocol_object blake3_256 (codes "payload"))

-- A plus sign and a second zero in the version, and digits in upper case, are read as well.
abbrev loud_cid : Cid
loud_cid = record { kind = shard; hash_algorithm = blake3_256; digest = repeat 32 171 }

abbrev loud_digits : ℕ → Bytes
loud_digits zero = []
loud_digits (suc n) = b'A' ∷ b'b' ∷ loud_digits n

abbrev loud_text : Bytes
loud_text = spelled (codes "+00") loud_cid (loud_digits 32)

loud_text_read : from_text loud_text ≡ ok loud_cid
unfolding from_text git_mesh.Text.Split.split git_mesh.Text.Split.join
    git_mesh.Core.Cid.parse_version git_mesh.Text.Search.strip_prefix git_mesh.Text.Decimal.parse
    git_mesh.Core.Cid.parse_kind_label git_mesh.Core.Cid.parse_algorithm_label
    git_mesh.Core.Hex.decode_fixed_hex git_mesh.Core.Hex.decode_hex git_mesh.Core.Hex.decode_chunks
    git_mesh.Core.Hex.decode_pair git_mesh.Core.Hex.hex_nibble
loud_text_read = refl

cid_transcript-injective_example :
    (◌≡◌ {A = CidKind} protocol_object protocol_object)
    × (◌≡◌ {A = HashAlgorithm} blake3_256 blake3_256)
    × (codes "payload" ≡ codes "payload")
cid_transcript-injective_example =
    cid_transcript-injective protocol_object protocol_object blake3_256 blake3_256 (codes "payload")
      (codes "payload") (omega arith) (omega arith) refl

abbrev sample_envelope : ProtocolEnvelope
sample_envelope = record {
  domain = codes "gitmesh.test";
  version = 0;
  hash_algorithm = blake3_256;
  body = codes "body";
}

abbrev sample_bytes : Bytes
sample_bytes =
    codes "gitmesh-envelope-v0"
    ++ (0 ∷ 0 ∷ 0 ∷ 12 ∷ [])
    ++ codes "gitmesh.test"
    ++ (0 ∷ 0 ∷ 0 ∷ 0 ∷ 0 ∷ 1 ∷ 0 ∷ 0 ∷ 0 ∷ 4 ∷ [])
    ++ codes "body"

sample_encoded : canonical_bytes sample_envelope ≡ ok sample_bytes
unfolding canonical_bytes validate_domain put_string put_bytes be_bytes starts_with is_domain_byte
    is_ascii_alphanumeric
sample_encoded = refl

canonical_bytes-injective_example : sample_envelope ≡ sample_envelope
canonical_bytes-injective_example =
    canonical_bytes-injective sample_envelope sample_envelope sample_bytes (omega arith)
      (omega arith) sample_encoded sample_encoded

sample_cid-IsCid : IsCid sample_cid
sample_cid-IsCid = new-IsCid sum_hash protocol_object blake3_256 (codes "payload")

shard_transcript-injective_example :
    (sample_cid.digest ≡ sample_cid.digest) × (◌≡◌ {A = ℕ} 2 2) × (codes "shard" ≡ codes "shard")
shard_transcript-injective_example =
    shard_transcript-injective sample_cid sample_cid 2 2 (codes "shard") (codes "shard")
      sample_cid-IsCid sample_cid-IsCid (omega arith) (omega arith) (omega arith) (omega arith) refl

verify_device_signature-certify_device_example :
    verify_device_signature sum_hash toy_signatures
      (certify_device sum_hash toy_signatures (1 ∷ []) (2 ∷ []) (codes "laptop"))
      (codes "message")
      (toy_signatures.sign (2 ∷ []) (codes "message"))
    ≡ ok tt
verify_device_signature-certify_device_example =
    verify_device_signature-certify_device sum_hash toy_signatures (1 ∷ []) (2 ∷ [])
      (codes "laptop") (codes "message")
