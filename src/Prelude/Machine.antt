-- ===== src/Prelude/Machine.antt =====
-- Arithmetic of `usize` and `u64`, both of 64 bits.
use Prim.Native.Nat.{ℕ, ◌+◌, ◌-◌, ◌*◌, ◌%◌, ◌^◌}
use mathlib.Core.Option.{Option, none, some}
use git_mesh.Prelude.Tests.{ltb, leb, if◌then◌else◌}

abbrev pub checked_add : ℕ → ℕ → Option ℕ
checked_add a b = if ltb (a + b) (2 ^ 64) then some (a + b) else none

abbrev pub checked_sub : ℕ → ℕ → Option ℕ
checked_sub a b = if leb b a then some (a - b) else none

-- It answers with no value only when the shift is 64 or more: bits shifted out are lost.
abbrev pub checked_shl : ℕ → ℕ → Option ℕ
checked_shl a shift = if ltb shift 64 then some (a * 2 ^ shift % 2 ^ 64) else none
