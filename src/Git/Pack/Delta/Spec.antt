-- ===== src/Git/Pack/Delta/Spec.antt =====
-- What a delta says: a list of copies from the base and of insertions.
use git_mesh.Prelude.{ℕ, ◌+◌, ◌≤◌, ◌<◌, List, [], ◌∷◌, ◌++◌, Bytes, length, take, drop}

pub data DeltaOp : Type 0 where
  copy : ℕ → ℕ → DeltaOp
  insert : Bytes → DeltaOp

abbrev pub op_bytes : Bytes → DeltaOp → Bytes
op_bytes base (copy offset size) = take size (drop offset base)
op_bytes base (insert s) = s

abbrev pub patch : Bytes → List DeltaOp → Bytes
patch base [] = []
patch base (op ∷ ops) = op_bytes base op ++ patch base ops

-- A copy lies within the base, and neither command is empty.
abbrev pub IsOp : Bytes → DeltaOp → Type 0
IsOp base (copy offset size) = (0 < size) × (offset + size ≤ length base)
IsOp base (insert s) = (0 < length s) × (length s < 128)
