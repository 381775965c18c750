-- ===== src/Text/Decimal.antt =====
-- `u64::to_string` and `str::parse::<u64>`; the width's largest value is an argument.
pub mod Exact
use git_mesh.Prelude.{
  ℕ, zero, suc, ◌+◌, ◌-◌, ◌*◌, ◌/◌, ◌%◌, ◌^◌, ◌≤◌, ◌<◌, ◌≡◌, refl, ap, ◌∙◌, Bool, ◌&&◌, Option,
  none, some, [], ◌∷◌, ◌++◌, arith, inl, inr, Bool-cases, ltb→lt, ltb, leb, eqb, if◌then◌else◌,
  Bytes, All, All-append, length, length-append,
}

abbrev pub max_u64 : ℕ
max_u64 = 2 ^ 64 - 1

abbrev pub max_u32 : ℕ
max_u32 = 2 ^ 32 - 1

-- The fuel is above the number, and every round divides the number by ten.
unfoldable pub digits : ℕ → ℕ → Bytes
digits zero n = []
digits (suc f) n =
    let front = digits f (n / 10) in
    if ltb n 10 then (b'0' + n) ∷ [] else front ++ (b'0' + n % 10) ∷ []

unfoldable pub decimal : ℕ → Bytes
unfolding digits
decimal n = digits (suc n) n

abbrev pub is_digit : ℕ → Bool
is_digit c = leb b'0' c && leb c b'9'

-- Digits read on from `n`; `none` on another byte or past the largest value.
unfoldable pub scan : ℕ → ℕ → Bytes → Option ℕ
scan top n [] = some n
scan top n (c ∷ s) =
    let next = n * 10 + (c - b'0') in
    let rest = scan top next s in if is_digit c && leb next top then rest else none

-- One leading `+` is accepted, and no digit is not.
unfoldable pub parse : ℕ → Bytes → Option ℕ
unfolding scan
parse top [] = none
parse top (c ∷ []) = scan top 0 (c ∷ [])
parse top (c ∷ d ∷ s) = if eqb c b'+' then scan top 0 (d ∷ s) else scan top 0 (c ∷ d ∷ s)

abbrev pub parse_u64 : Bytes → Option ℕ
parse_u64 s = parse max_u64 s

abbrev pub parse_u32 : Bytes → Option ℕ
parse_u32 s = parse max_u32 s

abbrev pub IsDigit : ℕ → Type 0
IsDigit c = (b'0' ≤ c) × (c ≤ b'9')

pub digits-IsDigit : (f n : ℕ) → All IsDigit (digits f n)
unfolding digits
digits-IsDigit zero n = tt
digits-IsDigit (suc f) n = elim (Bool-cases (ltb n 10)) [
  | inl small ↦ rw small ((omega (arith, ltb→lt n 10 small), omega (arith, ltb→lt n 10 small)), tt)
  | inr large ↦ rw large (
      All-append IsDigit (digits f (n / 10)) ((b'0' + n % 10) ∷ []) (digits-IsDigit f (n / 10))
        ((omega arith, omega arith), tt))
]

scan-append :
    (top n : ℕ) (s t : Bytes) (k : ℕ) → scan top n s ≡ some k → scan top n (s ++ t) ≡ scan top k t
unfolding scan
scan-append top n [] t k h = ground arith
scan-append top n (c ∷ s) t k h = ground (arith, scan-append top (n * 10 + (c - b'0')) s t k)

scan_digit :
    (top n d : ℕ) → d < 10 → n * 10 + d ≤ top → scan top n ((b'0' + d) ∷ []) ≡ some (n * 10 + d)
unfolding scan
scan_digit top n d h k = ground arith

pub scan-digits : (top f n : ℕ) → n < f → n ≤ top → scan top 0 (digits f n) ≡ some n
unfolding digits
scan-digits top zero n h k = absurd (omega arith)
scan-digits top (suc f) n h k = elim (Bool-cases (ltb n 10)) [
  | inl small ↦
      rw small (scan_digit top 0 n (ltb→lt n 10 small) (omega arith) ∙ ap some (omega arith))
  | inr large ↦ rw large (
      scan-append top 0 (digits f (n / 10)) ((b'0' + n % 10) ∷ []) (n / 10)
        (scan-digits top f (n / 10) (ground arith) (omega arith))
      ∙ scan_digit top (n / 10) (n % 10) (omega arith) (omega arith)
      ∙ ap some (omega arith))
]

pub length-digits : (f n : ℕ) → 0 < length (digits (suc f) n)
unfolding digits
length-digits f n = ground (arith, length-append (digits f (n / 10)) ((b'0' + n % 10) ∷ []))

parse-scan : (top : ℕ) (s : Bytes) → All IsDigit s → 0 < length s → parse top s ≡ scan top 0 s
unfolding parse
parse-scan top [] h k = absurd (omega arith)
parse-scan top (c ∷ []) h k = refl
parse-scan top (c ∷ d ∷ s) h k = ground arith

-- A number that fits the width is read back from its decimal digits.
pub parse-decimal : (top n : ℕ) → n ≤ top → parse top (decimal n) ≡ some n
unfolding decimal
parse-decimal top n h =
    parse-scan top (digits (suc n) n) (digits-IsDigit (suc n) n) (length-digits n n)
    ∙ scan-digits top (suc n) n (omega arith) h

-- What is read fits the width.
scan-le : (top n : ℕ) (s : Bytes) (k : ℕ) → n ≤ top → scan top n s ≡ some k → k ≤ top
unfolding scan
scan-le top n [] k h e = ground arith
scan-le top n (c ∷ s) k h e = ground (arith, scan-le top (n * 10 + (c - b'0')) s k)

pub parse-le : (top : ℕ) (s : Bytes) (k : ℕ) → parse top s ≡ some k → k ≤ top
unfolding parse
parse-le top [] k e = cc
parse-le top (c ∷ []) k e = scan-le top 0 (c ∷ []) k (omega arith) e
parse-le top (c ∷ d ∷ s) k e = ground (arith, scan-le top 0 (d ∷ s) k, scan-le top 0 (c ∷ d ∷ s) k)

pub decimal-IsDigit : (n : ℕ) → All IsDigit (decimal n)
unfolding decimal
decimal-IsDigit n = digits-IsDigit (suc n) n
