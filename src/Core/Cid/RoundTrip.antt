-- ===== src/Core/Cid/RoundTrip.antt =====
-- Printing and parsing of content identifiers.
use git_mesh.Prelude.{
  ℕ, ◌≡◌, ◌≢◌, List, ◌∙◌, refl, [], ◌∷◌, arith, Bytes, codes, length, All, All-map, ok,
  ok-injective, ap, sym,
}
use git_mesh.Text.Search.{Lacks, strip_prefix}
use git_mesh.Text.Split.{split-join}
use git_mesh.Text.Decimal.{decimal, parse}
use git_mesh.Core.Hex.{hex, decode_fixed_hex}
use git_mesh.Core.Hex.RoundTrip.{IsByte, IsLowerHex, hex-IsLowerHex, decode_fixed_hex-hex}
use git_mesh.Core.Cid.{
  Cid, IsCid, CidKind, protocol_object, plain_segment, encrypted_segment, shard, HashAlgorithm,
  blake3_256, kind_label, algorithm_label, parse_kind_label, parse_algorithm_label, to_text,
  from_text, parse_parts, parse_version, protocol_version, as_hex,
}

pub parse_kind_label-kind_label : (k : CidKind) → parse_kind_label (kind_label k) ≡ ok k
unfolding parse_kind_label
parse_kind_label-kind_label protocol_object = refl
parse_kind_label-kind_label plain_segment = refl
parse_kind_label-kind_label encrypted_segment = refl
parse_kind_label-kind_label shard = refl

pub parse_algorithm_label-algorithm_label :
    (a : HashAlgorithm) → parse_algorithm_label (algorithm_label a) ≡ ok a
unfolding parse_algorithm_label
parse_algorithm_label-algorithm_label blake3_256 = refl

pub kind_label-Lacks : (k : CidKind) → Lacks b':' (kind_label k)
kind_label-Lacks protocol_object = omega arith
kind_label-Lacks plain_segment = omega arith
kind_label-Lacks encrypted_segment = omega arith
kind_label-Lacks shard = omega arith

pub algorithm_label-Lacks : (a : HashAlgorithm) → Lacks b':' (algorithm_label a)
algorithm_label-Lacks blake3_256 = omega arith

abbrev version_part : Bytes
version_part = b'v' ∷ decimal protocol_version

version_part-Lacks : Lacks b':' version_part
unfolding decimal
version_part-Lacks = omega arith

parse_version_part : parse_version version_part ≡ ok protocol_version
unfolding parse_version decimal parse strip_prefix
parse_version_part = refl

IsLowerHex-ne-colon : (c : ℕ) → IsLowerHex c → c ≢ b':'
IsLowerHex-ne-colon c h = omega arith

hex-Lacks : (bs : Bytes) → All IsByte bs → Lacks b':' (hex bs)
hex-Lacks bs h = All-map IsLowerHex-ne-colon (hex bs) (hex-IsLowerHex bs h)

abbrev cid_parts : Cid → List Bytes
cid_parts c = version_part ∷ kind_label c.kind ∷ algorithm_label c.hash_algorithm ∷ as_hex c ∷ []

decode_digest : (bs : Bytes) → length bs ≡ 32 → All IsByte bs → decode_fixed_hex 32 (hex bs) ≡ ok bs
decode_digest bs w h = rw (← w) (decode_fixed_hex-hex bs h)

parse_parts-cid_parts : (c : Cid) → IsCid c → parse_parts (codes "gitmesh" ∷ cid_parts c) ≡ ok c
unfolding parse_parts as_hex
parse_parts-cid_parts c v = rw (
  parse_version_part,
  parse_kind_label-kind_label c.kind,
  parse_algorithm_label-algorithm_label c.hash_algorithm,
  decode_digest c.digest v.width v.bytes,
)

-- A content identifier with a digest of 32 bytes is read back from its text.
pub from_text-to_text : (c : Cid) → IsCid c → from_text (to_text c) ≡ ok c
unfolding from_text to_text
from_text-to_text c v =
    ap parse_parts (
      split-join b':' (codes "gitmesh") (cid_parts c) (
        omega arith,
        (
          version_part-Lacks,
          (
            kind_label-Lacks c.kind,
            (algorithm_label-Lacks c.hash_algorithm, (hex-Lacks c.digest v.bytes, tt)),
          ),
        ),
      ))
    ∙ parse_parts-cid_parts c v

pub to_text-injective : (a b : Cid) → IsCid a → IsCid b → to_text a ≡ to_text b → a ≡ b
to_text-injective a b v w e =
    ok-injective (sym (from_text-to_text a v) ∙ (ap from_text e ∙ from_text-to_text b w))
