-- ===== src/Text/Words.antt =====
-- `to_be_bytes` at a width of `w` bytes: the low 8 * w bits, most significant byte first.
use native.Mathlib.Nat.{pow-suc}
use git_mesh.Prelude.{
  ℕ, zero, suc, ◌*◌, ◌/◌, ◌%◌, ◌^◌, ◌<◌, ◌≡◌, refl, [], ◌∷◌, ◌++◌, arith, Bytes, length,
  length-append, append_cancel_last,
}

unfoldable pub be_bytes : ℕ → ℕ → Bytes
be_bytes zero n = []
be_bytes (suc w) n = be_bytes w (n / 256) ++ (n % 256) ∷ []

pub length-be_bytes : (w n : ℕ) → length (be_bytes w n) ≡ w
unfolding be_bytes
length-be_bytes zero n = refl
length-be_bytes (suc w) n =
    omega
      (arith, length-append (be_bytes w (n / 256)) ((n % 256) ∷ []), length-be_bytes w (n / 256))

pub be_bytes-injective :
    (w a b : ℕ) → a < 256 ^ w → b < 256 ^ w → be_bytes w a ≡ be_bytes w b → a ≡ b
unfolding be_bytes
be_bytes-injective zero a b p q e = omega arith
be_bytes-injective (suc w) a b p q e =
    let (front, last) = append_cancel_last _ _ _ _ e in
    let p' : a < 256 ^ w * 256 = rw (← pow-suc) p in
    let q' : b < 256 ^ w * 256 = rw (← pow-suc) q in
    let same : a / 256 ≡ b / 256 =
      be_bytes-injective w (a / 256) (b / 256) (omega arith) (omega arith) front in
    omega arith
