-- ===== src/Git/Pack/Delta/Complete.antt =====
-- Every list of copies and insertions within bounds has a delta, and `apply_pack_delta` does what it
-- says.
use git_mesh.Prelude.{
  ℕ, zero, suc, ◌/◌, ◌%◌, ◌^◌, ◌≡◌, ◌≤◌, ◌<◌, refl, ap, ◌∙◌, arith, List, [], ◌∷◌, ◌++◌,
  append_assoc, append-nil, Bytes, All, length, length-append, take, drop, take-append, drop-append,
  ok,
}
use git_mesh.Git.Pack.Delta.{
  copy_command, insert_command, delta_command, delta_loop, apply_pack_delta,
}
use git_mesh.Git.Pack.Delta.Spec.{DeltaOp, copy, insert, op_bytes, patch, IsOp}
use git_mesh.Git.Pack.Delta.Lengths.{varint_bytes, read_delta_varint-varint_bytes}
use git_mesh.Git.Pack.Delta.Copy.{
  shown, copy_command-flags, four_bytes, three_bytes, copy_size_some, copy_range-take, put_op, Fits,
}

-- A command that is written makes its round of the loop.
abbrev Carries : Bytes → DeltaOp → ℕ → Bytes → Bytes → Type 0
Carries base op fuel out rest =
    delta_loop (suc fuel) base out (put_op op rest)
    ≡ delta_loop fuel base (out ++ op_bytes base op) rest

delta_command_copies :
    (base : Bytes) (command : ℕ) (bytes : Bytes)
    → 128 ≤ command
    → delta_command base command bytes ≡ copy_command base command bytes
unfolding delta_command
delta_command_copies base command bytes h = ground arith

delta_loop_round :
    (base : Bytes) (command fuel : ℕ) (out bytes appended rest : Bytes)
    → delta_command base command bytes ≡ ok (appended, rest)
    → delta_loop (suc fuel) base out (command ∷ bytes) ≡ delta_loop fuel base (out ++ appended) rest
unfolding delta_loop
delta_loop_round base command fuel out bytes appended rest h = rw h

copy_round :
    (base : Bytes) (offset size fuel : ℕ) (out rest : Bytes)
    → IsOp base (copy offset size)
    → Fits (copy offset size)
    → Carries base (copy offset size) fuel out rest
copy_round base offset size fuel out rest (some, within) (low, low') =
    delta_loop_round base _ fuel out _ (take size (drop offset base)) rest (
      delta_command_copies base _ _ (omega arith)
      ∙ copy_command-flags base (offset % 256) (offset / 256 % 256) (offset / 65536 % 256)
          (offset / 16777216) (size % 256) (size / 256 % 256) (size / 65536) rest
      ∙ rw (
        four_bytes offset,
        three_bytes size,
        copy_size_some size some,
        copy_range-take base offset size within (omega arith),
      ))

insert_round :
    (base s : Bytes) (fuel : ℕ) (out rest : Bytes)
    → IsOp base (insert s)
    → Carries base (insert s) fuel out rest
unfolding delta_loop delta_command insert_command
insert_round base s fuel out rest (some, small) =
    ground (arith, take-append s rest, drop-append s rest, length-append s rest)

abbrev pub put_ops : List DeltaOp → Bytes
put_ops [] = []
put_ops (op ∷ ops) = put_op op (put_ops ops)

behind : (v : ℕ) (rest : Bytes) → length rest ≤ length (shown v ++ rest)
behind v rest = omega (arith, length-append (shown v) rest)

abbrev shown_all : List ℕ → Bytes → Bytes
shown_all [] rest = rest
shown_all (v ∷ vs) rest = shown v ++ shown_all vs rest

behind_all : (vs : List ℕ) (rest : Bytes) → length rest ≤ length (shown_all vs rest)
behind_all [] rest = omega arith
behind_all (v ∷ vs) rest = omega (arith, behind v (shown_all vs rest), behind_all vs rest)

below_suc : {m n : ℕ} → m ≤ n → m < suc n
below_suc h = omega (arith, h)

put_op_longer : (op : DeltaOp) (rest : Bytes) → length rest < length (put_op op rest)
put_op_longer (copy offset size) rest = below_suc (
    behind_all
      (offset % 256
        ∷ offset / 256 % 256
        ∷ offset / 65536 % 256
        ∷ offset / 16777216
        ∷ size % 256
        ∷ size / 256 % 256
        ∷ size / 65536
        ∷ [])
      rest)
put_op_longer (insert s) rest = omega (arith, length-append s rest)

round :
    (base : Bytes) (op : DeltaOp) (fuel : ℕ) (out rest : Bytes)
    → IsOp base op
    → Fits op
    → Carries base op fuel out rest
round base (copy offset size) fuel out rest v w = copy_round base offset size fuel out rest v w
round base (insert s) fuel out rest v w = insert_round base s fuel out rest v

delta_loop-put_ops :
    (base : Bytes) (ops : List DeltaOp) (fuel : ℕ) (out : Bytes)
    → All (IsOp base) ops
    → All Fits ops
    → length (put_ops ops) ≤ fuel
    → delta_loop fuel base out (put_ops ops) ≡ ok (out ++ patch base ops)
delta_loop-put_ops base [] fuel out v w h = rw (append-nil out) (unfold delta_loop in refl)
delta_loop-put_ops base (op ∷ ops) zero out v w h =
    absurd (omega (arith, put_op_longer op (put_ops ops)))
delta_loop-put_ops base (op ∷ ops) (suc fuel) out (v, vs) (w, ws) h =
    round base op fuel out (put_ops ops) v w
    ∙ delta_loop-put_ops base ops fuel (out ++ op_bytes base op) vs ws
        (omega (arith, put_op_longer op (put_ops ops)))
    ∙ ap ok (append_assoc out (op_bytes base op) (patch base ops))

-- The delta that says `ops`: both lengths, and a command for each operation.
abbrev pub write_delta : Bytes → List DeltaOp → Bytes
write_delta base ops =
    varint_bytes 10 (length base) ++ (varint_bytes 10 (length (patch base ops)) ++ put_ops ops)

-- Every list of copies within the base and of short insertions, with offsets below 2 ^ 32 and
-- sizes below 2 ^ 24, is carried out by the delta that is written for it, for a base shorter
-- than 2 ^ 64 and a result shorter than 2 ^ 63 bytes.
pub apply_pack_delta-write_delta :
    (base : Bytes) (ops : List DeltaOp)
    → All (IsOp base) ops
    → All Fits ops
    → length base < 2 ^ 64
    → length (patch base ops) < 2 ^ 63
    → apply_pack_delta base (write_delta base ops) ≡ ok (patch base ops)
unfolding apply_pack_delta
apply_pack_delta-write_delta base ops v w h k = ground (
  arith,
  read_delta_varint-varint_bytes (length base)
      (varint_bytes 10 (length (patch base ops)) ++ put_ops ops) h,
  read_delta_varint-varint_bytes (length (patch base ops)) (put_ops ops) (omega arith),
  delta_loop-put_ops base ops (length (put_ops ops)) [] v w (omega arith),
)
