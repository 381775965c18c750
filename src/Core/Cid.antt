-- ===== src/Core/Cid.antt =====
-- `HashAlgorithm`, `CidKind` and `Cid` of crates/gitmesh-core/src/lib.rs.
pub mod RoundTrip
pub mod Spelling
use git_mesh.Prelude.{
  ℕ, ◌+◌, ◌≡◌, refl, Bool, true, false, not, Option, none, some, List, [], ◌∷◌, ◌++◌, arith, ap,
  eqb, if◌then◌else◌, Bytes, codes, length, All, Result, ok, err, ok_or, fail_if, ◌>>=◌, ◌>>◌,
}
use git_mesh.Prelude.Order.{Ord, ◌==◌, nat_ord, list_ord, pair_ord, ord_by}
use git_mesh.Text.Search.{strip_prefix}
use git_mesh.Text.Split.{split, join}
use git_mesh.Text.Decimal.{decimal, parse_u32}
use git_mesh.Text.Words.{be_bytes}
use git_mesh.Core.Hash.{Blake3}
use git_mesh.Core.Hex.{CoreError, invalid_cid, hex, decode_fixed_hex}
use git_mesh.Core.Hex.RoundTrip.{IsByte}

abbrev pub protocol_version : ℕ
protocol_version = 0

pub data HashAlgorithm : Type 0 where
  blake3_256 : HashAlgorithm

pub data CidKind : Type 0 where
  protocol_object plain_segment encrypted_segment shard : CidKind

-- The discriminants of `#[repr(u16)]`.
abbrev pub algorithm_code : HashAlgorithm → ℕ
algorithm_code blake3_256 = 1

abbrev pub kind_code : CidKind → ℕ
kind_code protocol_object = 1
kind_code plain_segment = 2
kind_code encrypted_segment = 3
kind_code shard = 4

-- The derived `Debug`.
abbrev pub algorithm_label : HashAlgorithm → Bytes
algorithm_label blake3_256 = codes "Blake3_256"

abbrev pub kind_label : CidKind → Bytes
kind_label protocol_object = codes "ProtocolObject"
kind_label plain_segment = codes "PlainSegment"
kind_label encrypted_segment = codes "EncryptedSegment"
kind_label shard = codes "Shard"

unfoldable pub parse_algorithm_label : Bytes → Result CoreError HashAlgorithm
parse_algorithm_label value = if value == codes "Blake3_256" then ok blake3_256 else err invalid_cid

unfoldable pub parse_kind_label : Bytes → Result CoreError CidKind
parse_kind_label value =
    if value == codes "ProtocolObject"
    then ok protocol_object
    else if value == codes "PlainSegment"
    then ok plain_segment
    else if value == codes "EncryptedSegment"
    then ok encrypted_segment
    else if value == codes "Shard"
    then ok shard
    else err invalid_cid

pub record Cid : Type 0 where
  pub kind : CidKind
  pub hash_algorithm : HashAlgorithm
  pub digest : Bytes

-- The digest is an array of 32 bytes.
pub record IsCid (c : Cid) : Type 0 where
  pub width : length c.digest ≡ 32
  pub bytes : All IsByte c.digest

abbrev pub from_digest : CidKind → HashAlgorithm → Bytes → Cid
from_digest kind algorithm digest = record {
  kind = kind;
  hash_algorithm = algorithm;
  digest = digest;
}

-- The length is cast to 64 bits.
unfoldable pub cid_transcript : CidKind → HashAlgorithm → Bytes → Bytes
cid_transcript kind algorithm payload =
    codes "gitmesh.v0.cid"
    ++ (be_bytes 2 (kind_code kind)
        ++ (be_bytes 2 (algorithm_code algorithm) ++ (be_bytes 8 (length payload) ++ payload)))

unfoldable pub new : Blake3 → CidKind → HashAlgorithm → Bytes → Cid
new h kind algorithm payload =
    from_digest kind algorithm (h.hash (cid_transcript kind algorithm payload))

pub new-IsCid :
    (h : Blake3) (kind : CidKind) (algorithm : HashAlgorithm) (payload : Bytes)
    → IsCid (new h kind algorithm payload)
unfolding new
new-IsCid h kind algorithm payload = record {
  width = h.length-hash (cid_transcript kind algorithm payload);
  bytes = h.hash-IsByte (cid_transcript kind algorithm payload);
}

unfoldable pub as_hex : Cid → Bytes
as_hex c = hex c.digest

-- `Display`.
unfoldable pub to_text : Cid → Bytes
unfolding as_hex
to_text c = join b':' (
    codes "gitmesh"
    ∷ (b'v' ∷ decimal protocol_version)
    ∷ kind_label c.kind
    ∷ algorithm_label c.hash_algorithm
    ∷ as_hex c
    ∷ [])

unfoldable pub parse_version : Bytes → Result CoreError ℕ
parse_version part = do
  number ← ok_or (strip_prefix (codes "v") part) invalid_cid
  version ← ok_or (parse_u32 number) invalid_cid
  fail_if (not (eqb version protocol_version)) invalid_cid
  ok version

unfoldable pub parse_parts : List Bytes → Result CoreError Cid
parse_parts (scheme ∷ version ∷ kind ∷ algorithm ∷ digest ∷ []) = do
  fail_if (not (scheme == codes "gitmesh")) invalid_cid
  parse_version version
  kind' ← parse_kind_label kind
  algorithm' ← parse_algorithm_label algorithm
  digest' ← decode_fixed_hex 32 digest
  ok (from_digest kind' algorithm' digest')
parse_parts _ = err invalid_cid

-- `FromStr`.
unfoldable pub from_text : Bytes → Result CoreError Cid
unfolding parse_parts
from_text value = parse_parts (split b':' value)

-- The derived `Ord` and `Eq`: kind, algorithm, digest.
abbrev pub cid_key : Cid → ℕ × (ℕ × Bytes)
cid_key c = (kind_code c.kind, (algorithm_code c.hash_algorithm, c.digest))

pub kind_code-injective : (a b : CidKind) → kind_code a ≡ kind_code b → a ≡ b
kind_code-injective a b h = ground arith

pub algorithm_code-injective : (a b : HashAlgorithm) → algorithm_code a ≡ algorithm_code b → a ≡ b
algorithm_code-injective blake3_256 blake3_256 h = refl

pub cid_key-injective : (a b : Cid) → cid_key a ≡ cid_key b → a ≡ b
cid_key-injective a b h = ground (
  arith,
  kind_code-injective a.kind b.kind,
  algorithm_code-injective a.hash_algorithm b.hash_algorithm,
)

instance abbrev pub cid_ord : Ord Cid
cid_ord = ord_by cid_key cid_key-injective
