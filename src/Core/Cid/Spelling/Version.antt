-- ===== src/Core/Cid/Spelling/Version.antt =====
-- The version in the text of a `Cid`: `v`, and a number that `u32::from_str` reads as 0.
use git_mesh.Prelude.{
  ℕ, ◌+◌, ◌-◌, ◌*◌, ◌≡◌, refl, ap, ◌∙◌, arith, some, [], ◌∷◌, Bytes, codes, All, All-map, eqb, ok,
  ok_or, >>=-eq-ok, require-eq-ok, ok_or-eq-ok, ◌⊎◌, inl, inr, Bool-cases, eqb→eq,
}
use git_mesh.Text.Search.{Lacks, strip_prefix}
use git_mesh.Text.Decimal.{scan, parse, parse_u32, max_u32}
use git_mesh.Core.Hex.{invalid_cid}
use git_mesh.Core.Cid.{parse_version, protocol_version}

abbrev pub Zeros : Bytes → Type 0
Zeros s = All (λ c. c ≡ b'0') s

-- One zero or more, of which a `+` may stand in front.
abbrev pub IsZero : Bytes → Type 0
IsZero [] = ⊥
IsZero (c ∷ []) = c ≡ b'0'
IsZero (c ∷ d ∷ s) = ((c ≡ b'0') ⊎ (c ≡ b'+')) × Zeros (d ∷ s)

scan-Zeros : (top : ℕ) (s : Bytes) → Zeros s → scan top 0 s ≡ some 0
unfolding scan
scan-Zeros top [] h = refl
scan-Zeros top (c ∷ s) (h, t) = ground (arith, scan-Zeros top s t)

scan-eq-some : (top n : ℕ) (s : Bytes) → scan top n s ≡ some 0 → (n ≡ 0) × Zeros s
unfolding scan
scan-eq-some top n [] h = (ground arith, tt)
scan-eq-some top n (c ∷ s) h =
    let (zero_next, zeros) = scan-eq-some top (n * 10 + (c - b'0')) s (ground arith) in
    (omega arith, (ground arith, zeros))

parse-IsZero : (top : ℕ) (s : Bytes) → IsZero s → parse top s ≡ some 0
unfolding parse
parse-IsZero top [] h = absurd h
parse-IsZero top (c ∷ []) h = scan-Zeros top (c ∷ []) (h, tt)
parse-IsZero top (c ∷ d ∷ s) (inl h, t) = ground (arith, scan-Zeros top (c ∷ d ∷ s) (h, t))
parse-IsZero top (c ∷ d ∷ s) (inr h, t) = ground (arith, scan-Zeros top (d ∷ s) t)

parse-eq-some : (top : ℕ) (s : Bytes) → parse top s ≡ some 0 → IsZero s
unfolding parse
parse-eq-some top [] h = absurd (cc)
parse-eq-some top (c ∷ []) h = (scan-eq-some top 0 (c ∷ []) h).1.0
parse-eq-some top (c ∷ d ∷ s) h = elim (Bool-cases (eqb c b'+')) [
  | inl plus ↦ (inr (eqb→eq c b'+' plus), (scan-eq-some top 0 (d ∷ s) (ground arith)).1)
  | inr other ↦
      let (_, (here, rest)) = scan-eq-some top 0 (c ∷ d ∷ s) (ground arith) in (inl here, rest)
]

strip_v : (part number : Bytes) → strip_prefix (codes "v") part ≡ some number → part ≡ b'v' ∷ number
unfolding strip_prefix
strip_v [] number h = cc
strip_v (c ∷ s) number h = ground arith

pub parse_version-eq-ok :
    (part : Bytes) {version : ℕ}
    → parse_version part ≡ ok version
    → (number : Bytes) × (part ≡ b'v' ∷ number) × IsZero number
unfolding parse_version
parse_version-eq-ok part h =
    let (number, stripped, h1) =
      >>=-eq-ok (ok_or (strip_prefix (codes "v") part) invalid_cid) _ h in
    let (version, read, h2) = >>=-eq-ok (ok_or (parse_u32 number) invalid_cid) _ h1 in
    let (current, _) = require-eq-ok (eqb version protocol_version) invalid_cid _ h2 in
    (
      number,
      strip_v part number (ok_or-eq-ok _ invalid_cid stripped),
      parse-eq-some max_u32 number
          (ok_or-eq-ok _ invalid_cid read ∙ ap some (eqb→eq version protocol_version current)),
    )

strip_v-cons : (number : Bytes) → strip_prefix (codes "v") (b'v' ∷ number) ≡ some number
unfolding strip_prefix
strip_v-cons number = refl

pub parse_version-IsZero :
    (number : Bytes) → IsZero number → parse_version (b'v' ∷ number) ≡ ok protocol_version
unfolding parse_version
parse_version-IsZero number h = rw (strip_v-cons number, parse-IsZero max_u32 number h) refl

Zeros-Lacks : (s : Bytes) → Zeros s → Lacks b':' s
Zeros-Lacks s h = All-map (λ c zero_digit. omega arith) s h

pub IsZero-Lacks : (number : Bytes) → IsZero number → Lacks b':' number
IsZero-Lacks [] h = absurd h
IsZero-Lacks (c ∷ []) h = (omega arith, tt)
IsZero-Lacks (c ∷ d ∷ s) (inl h, t) = (omega arith, Zeros-Lacks (d ∷ s) t)
IsZero-Lacks (c ∷ d ∷ s) (inr h, t) = (omega arith, Zeros-Lacks (d ∷ s) t)
