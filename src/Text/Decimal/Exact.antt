-- ===== src/Text/Decimal/Exact.antt =====
-- Decimal numbers without a sign and without leading zeros: each number has one text.
use git_mesh.Prelude.{
  ℕ, zero, suc, ◌+◌, ◌-◌, ◌*◌, ◌/◌, ◌%◌, ◌≤◌, ◌<◌, ◌≡◌, ◌≢◌, sym, ap, ◌∙◌, some, [], ◌∷◌, ◌++◌,
  append_assoc, append-nil, arith, inl, inr, Bool-cases, ltb→lt, ltb, Bytes,
}
use git_mesh.Text.Decimal.{digits, decimal, scan, scan-digits}

digits_fuel : (f g n : ℕ) → n < f → n < g → digits f n ≡ digits g n
unfolding digits
digits_fuel zero g n h k = absurd (omega arith)
digits_fuel (suc f) zero n h k = absurd (omega arith)
digits_fuel (suc f) (suc g) n h k = ground (arith, digits_fuel f g (n / 10))

decimal_digit : (d : ℕ) → d < 10 → decimal d ≡ (b'0' + d) ∷ []
unfolding decimal digits
decimal_digit d h = ground arith

digits_one : (f n : ℕ) → n < 10 → digits (suc f) n ≡ (b'0' + n) ∷ []
unfolding digits
digits_one f n h = ground arith

scan_end : (top n k : ℕ) → scan top n [] ≡ some k → n ≡ k
unfolding scan
scan_end top n k e = cc

positive : (c d : ℕ) → c ≢ b'0' → c ≡ b'0' + d → 0 < d
positive c d h at = ground arith

digits_more : (f n : ℕ) → 10 ≤ n → digits (suc f) n ≡ digits f (n / 10) ++ (b'0' + n % 10) ∷ []
unfolding digits
digits_more f n h = ground arith

tenth : (n d : ℕ) → d < 10 → (n * 10 + d) / 10 ≡ n
tenth n d h = omega arith

last_digit : (n d : ℕ) → d < 10 → (n * 10 + d) % 10 ≡ d
last_digit n d h = omega arith

decimal_ten : (n d : ℕ) → 0 < n → d < 10 → decimal (n * 10 + d) ≡ decimal n ++ (b'0' + d) ∷ []
unfolding decimal
decimal_ten n d h k =
    digits_more (n * 10 + d) (n * 10 + d) (omega arith)
    ∙ rw (tenth n d k, last_digit n d k)
        (ap (λ s. s ++ (b'0' + d) ∷ [])
          (digits_fuel (n * 10 + d) (suc n) n (omega arith) (omega arith)))

-- One more digit read.
scan_more :
    (top n c : ℕ) (s : Bytes) (k : ℕ)
    → scan top n (c ∷ s) ≡ some k
    → (d : ℕ) × (d < 10) × (c ≡ b'0' + d) × (scan top (n * 10 + d) s ≡ some k)
unfolding scan
scan_more top n c s k h = (c - b'0', ground arith, ground arith, ground arith)

scan_first :
    (top c : ℕ) (s : Bytes) (k : ℕ)
    → scan top 0 (c ∷ s) ≡ some k
    → (d : ℕ) × (d < 10) × (c ≡ b'0' + d) × (scan top d s ≡ some k)
scan_first top c s k h =
    let (d, small, at, rest) = scan_more top 0 c s k h in
    (d, small, at, ap (λ n. scan top n s) (none_above d) ∙ rest)
  where
    none_above : (d : ℕ) → d ≡ 0 * 10 + d
    none_above d = omega arith

decimal-scan_from :
    (top n : ℕ) (s : Bytes) (k : ℕ) → 0 < n → scan top n s ≡ some k → decimal k ≡ decimal n ++ s
decimal-scan_from top n [] k h e =
    ap decimal (sym (scan_end top n k e)) ∙ sym (append-nil (decimal n))
decimal-scan_from top n (c ∷ s) k h e =
    let (d, small, at, rest) = scan_more top n c s k e in
    decimal-scan_from top (n * 10 + d) s k (omega arith) rest
    ∙ ap (λ t. t ++ s) (decimal_ten n d h small)
    ∙ append_assoc (decimal n) ((b'0' + d) ∷ []) s
    ∙ ap (λ x. decimal n ++ x ∷ s) (sym at)

-- A text of digits that begins with `0` only when that is all of it.
abbrev pub IsPlain : Bytes → Type 0
IsPlain [] = ⊥
IsPlain (c ∷ []) = Unit
IsPlain (c ∷ d ∷ s) = c ≢ b'0'

pub decimal-scan : (top : ℕ) (s : Bytes) (k : ℕ) → IsPlain s → scan top 0 s ≡ some k → s ≡ decimal k
decimal-scan top [] k plain e = absurd plain
decimal-scan top (c ∷ []) k plain e =
    let (d, small, at, rest) = scan_first top c [] k e in
    ap (λ x. x ∷ []) at
    ∙ sym (decimal_digit d small)
    ∙ ap decimal (omega (arith, scan_end top d k rest))
decimal-scan top (c ∷ b ∷ s) k plain e =
    let (d, small, at, rest) = scan_first top c (b ∷ s) k e in
    sym (
      decimal-scan_from top d (b ∷ s) k (positive c d plain at) rest
      ∙ ap (λ t. t ++ b ∷ s) (decimal_digit d small)
      ∙ ap (λ x. x ∷ b ∷ s) (sym at))

pub scan-decimal : (top n : ℕ) → n ≤ top → scan top 0 (decimal n) ≡ some n
unfolding decimal
scan-decimal top n h = scan-digits top (suc n) n (omega arith) h

digits_first : (f n : ℕ) → n < f → 0 < n → (c : ℕ) × (s : Bytes) × (digits f n ≡ c ∷ s) × (c ≢ b'0')
digits_first zero n h k = absurd (omega arith)
digits_first (suc f) n h k = elim (Bool-cases (ltb n 10)) [
  | inl small ↦ (b'0' + n, [], digits_one f n (ltb→lt n 10 small), λ e. omega arith)
  | inr large ↦
      let (c, s, at, first) = digits_first f (n / 10) (ground arith) (ground arith) in
      (
        c,
        s ++ (b'0' + n % 10) ∷ [],
        digits_more f n (ground arith) ∙ ap (λ t. t ++ (b'0' + n % 10) ∷ []) at,
        first,
      )
]

digits-IsPlain : (s t : Bytes) (c : ℕ) → s ≡ c ∷ t → c ≢ b'0' → IsPlain s
digits-IsPlain [] t c e first = absurd cc
digits-IsPlain (b ∷ []) t c e first = tt
digits-IsPlain (b ∷ a ∷ s) t c e first = λ k. first (ground arith)

pub decimal-IsPlain : (n : ℕ) → IsPlain (decimal n)
unfolding decimal
decimal-IsPlain zero = unfold digits in tt
decimal-IsPlain (suc n) =
    let (c, s, at, first) = digits_first (suc (suc n)) (suc n) (omega arith) (omega arith) in
    digits-IsPlain (digits (suc (suc n)) (suc n)) s c at first
