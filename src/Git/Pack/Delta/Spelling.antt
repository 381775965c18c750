-- ===== src/Git/Pack/Delta/Spelling.antt =====
-- The text of a delta that `apply_pack_delta` of crates/gitmesh-git/src/lib.rs reads, described
-- without its cursor: two lengths, and commands that copy from the base or insert.
use git_mesh.Prelude.{
  ℕ, zero, suc, ◌+◌, ◌*◌, ◌/◌, ◌%◌, ◌^◌, ◌≤◌, ◌<◌, ◌≡◌, Option, none, some, List, [], ◌∷◌, ◌++◌,
  map, Bytes, All, length,
}
use git_mesh.Git.Pack.Delta.Spec.{DeltaOp, copy, insert, patch, IsOp}

-- A length in groups of seven bits, the lowest first, with the high bit on all but the last.
abbrev pub groups_value : Bytes → ℕ → ℕ
groups_value [] last = last
groups_value (g ∷ gs) last = g % 128 + 128 * groups_value gs last

-- `bytes` is the length `n`, taken modulo 2 ^ 64, with `rest` behind it.
abbrev pub IsLength : ℕ → Bytes → Bytes → Type 0
IsLength n bytes rest =
    (groups : Bytes) × (last : ℕ) × All (λ g. 128 ≤ g) groups
    × (last < 128)
    × (bytes ≡ groups ++ (last ∷ rest))
    × (n ≡ groups_value groups last % 2 ^ 64)

-- The bytes of a number in a copy, the lowest first; a byte that is left out is 0.
abbrev pub number : List (Option ℕ) → ℕ
number [] = 0
number (none ∷ ds) = 256 * number ds
number (some b ∷ ds) = b + 256 * number ds

abbrev pub given : List (Option ℕ) → Bytes
given [] = []
given (none ∷ ds) = given ds
given (some b ∷ ds) = b ∷ given ds

abbrev pub presence : Option ℕ → ℕ
presence none = 0
presence (some b) = 1

-- The bits of `flags` from `bit` on say which of the bytes are given.
abbrev pub Flags : ℕ → ℕ → List (Option ℕ) → Type 0
Flags flags bit [] = Unit {0}
Flags flags bit (d ∷ ds) = (flags / 2 ^ bit % 2 ≡ presence d) × Flags flags (suc bit) ds

-- A copy has its flags and the bytes of its offset and of its size.
pub data DeltaCommand : Type 0 where
  copying : ℕ → List (Option ℕ) → List (Option ℕ) → DeltaCommand
  inserting : Bytes → DeltaCommand

abbrev pub size_of : ℕ → ℕ
size_of zero = 65536
size_of (suc n) = suc n

abbrev pub operation : DeltaCommand → DeltaOp
operation (copying flags offset size) = copy (number offset) (size_of (number size))
operation (inserting s) = insert s

abbrev pub command_bytes : DeltaCommand → Bytes
command_bytes (copying flags offset size) = flags ∷ (given offset ++ given size)
command_bytes (inserting s) = length s ∷ s

abbrev pub commands_bytes : List DeltaCommand → Bytes
commands_bytes [] = []
commands_bytes (c ∷ cs) = command_bytes c ++ commands_bytes cs

abbrev pub IsFramed : DeltaCommand → Type 0
IsFramed (copying flags offset size) =
    (128 ≤ flags)
    × (length offset ≡ 4)
    × (length size ≡ 3)
    × Flags flags 0 offset
    × Flags flags 4 size
IsFramed (inserting s) = Unit {0}

abbrev pub IsCommand : Bytes → DeltaCommand → Type 0
IsCommand base c = IsFramed c × IsOp base (operation c)

-- The delta states the lengths of the base and of `out`, and its commands, all of them within
-- bounds, applied to the base make `out`.
abbrev pub IsPatch : Bytes → Bytes → Bytes → Type 0
IsPatch base delta out =
    (after : Bytes) × (commands : List DeltaCommand) × IsLength (length base) delta after
    × IsLength (length out) after (commands_bytes commands)
    × All (IsCommand base) commands
    × (out ≡ patch base (map operation commands))
