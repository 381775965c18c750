-- ===== src/Core/Hash.antt =====
-- BLAKE3, which the crates call and do not implement: a function into 32 bytes.
use git_mesh.Prelude.{◌≡◌, Bytes, length, All}
use git_mesh.Core.Hex.RoundTrip.{IsByte}

pub record Blake3 : Type 0 where
  pub hash : Bytes → Bytes
  pub length-hash : (m : Bytes) → length (hash m) ≡ 32
  pub hash-IsByte : (m : Bytes) → All IsByte (hash m)
