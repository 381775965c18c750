-- ===== src/Git/Oid.antt =====
-- `GitSha1Oid` of crates/gitmesh-git/src/lib.rs.
use git_mesh.Prelude.{
  ◌≡◌, arith, eqb, Bytes, length, All, Option, none, some, ok, err, if◌then◌else◌,
}
use git_mesh.Prelude.Order.{Ord, nat_ord, list_ord, ord_by}
use git_mesh.Core.Hex.{hex, decode_chunks}
use git_mesh.Core.Hex.RoundTrip.{IsByte, length-hex, decode_chunks-hex}

pub record GitSha1Oid : Type 0 where
  pub digest : Bytes

-- The digest is an array of 20 bytes.
pub record IsOid (o : GitSha1Oid) : Type 0 where
  pub width : length o.digest ≡ 20
  pub bytes : All IsByte o.digest

-- `hex`, which is also `Display`.
unfoldable pub oid_hex : GitSha1Oid → Bytes
oid_hex o = hex o.digest

-- The crate has its own copy of `hex_nibble`, equal to that of gitmesh-core.
unfoldable pub oid_from_text : Bytes → Option GitSha1Oid
oid_from_text value =
    if eqb (length value) 40
    then (elim (decode_chunks value) [ ok bytes ↦ some (record { digest = bytes }) | err e ↦ none ])
    else none

pub digest-injective : (a b : GitSha1Oid) → a.digest ≡ b.digest → a ≡ b
digest-injective a b h = λ i. record { digest = h i }

instance abbrev pub oid_ord : Ord GitSha1Oid
oid_ord = ord_by (λ (o : GitSha1Oid). o.digest) digest-injective

pub oid_from_text-oid_hex : (o : GitSha1Oid) → IsOid o → oid_from_text (oid_hex o) ≡ some o
unfolding oid_from_text oid_hex
oid_from_text-oid_hex o v = ground (arith, length-hex o.digest, decode_chunks-hex o.digest v.bytes)

pub oid_hex-injective : (a b : GitSha1Oid) → IsOid a → IsOid b → oid_hex a ≡ oid_hex b → a ≡ b
oid_hex-injective a b v w e = ground (arith, oid_from_text-oid_hex a v, oid_from_text-oid_hex b w)
