-- ===== src/Core/Cid/Spelling.antt =====
-- The text that `FromStr` of `Cid` in crates/gitmesh-core/src/lib.rs reads, described by its five
-- parts.
pub mod Version
use git_mesh.Prelude.{ℕ, ◌≡◌, sym, [], ◌∷◌, Bytes, codes, All, All-map, length, map, not}
use git_mesh.Prelude.Order.{nat_ord, list_ord}
use git_mesh.Text.Search.{Lacks, to_ascii_lowercase}
use git_mesh.Text.Split.{join}
use git_mesh.Core.Hex.{hex}
use git_mesh.Core.Hex.RoundTrip.{IsByte}
use git_mesh.Core.Cid.{
  Cid, IsCid, protocol_object, plain_segment, encrypted_segment, shard, kind_label, algorithm_label,
  as_hex, from_digest,
}
use git_mesh.Core.Cid.Spelling.Version.{IsZero}

abbrev pub spelled : Bytes → Cid → Bytes → Bytes
spelled number c digits = join b':' (
    codes "gitmesh"
    ∷ (b'v' ∷ number)
    ∷ kind_label c.kind
    ∷ algorithm_label c.hash_algorithm
    ∷ digits
    ∷ [])

-- The parts are the scheme, the version 0, the names of the kind and of the algorithm, and the
-- digits of a digest of 32 bytes, in either case.
abbrev pub IsSpelling : Bytes → Cid → Type 0
IsSpelling s c =
    IsCid c
    × (number : Bytes) × (digits : Bytes) × IsZero number
    × (map to_ascii_lowercase digits ≡ hex c.digest)
    × (s ≡ spelled number c digits)
