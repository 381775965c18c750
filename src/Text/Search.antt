-- ===== src/Text/Search.antt =====
-- `starts_with`, `strip_prefix`, `ends_with`, `contains` and the byte classes of ASCII.
use git_mesh.Prelude.{
  ℕ, ◌+◌, ◌≡◌, ◌≢◌, refl, Bool, true, false, ◌&&◌, ◌||◌, Option, none, some, [], ◌∷◌, ◌++◌, arith,
  leb, eqb, if◌then◌else◌, Bytes, All, any,
}
use git_mesh.Prelude.Order.{◌==◌, list_ord, nat_ord}

unfoldable pub strip_prefix : Bytes → Bytes → Option Bytes
strip_prefix [] s = some s
strip_prefix (p ∷ ps) [] = none
strip_prefix (p ∷ ps) (c ∷ s) = let rest = strip_prefix ps s in if eqb p c then rest else none

unfoldable pub starts_with : Bytes → Bytes → Bool
starts_with [] s = true
starts_with (p ∷ ps) [] = false
starts_with (p ∷ ps) (c ∷ s) = eqb p c && starts_with ps s

-- `haystack.contains(needle)`.
unfoldable pub contains_text : Bytes → Bytes → Bool
unfolding starts_with
contains_text p [] = starts_with p []
contains_text p (c ∷ s) = starts_with p (c ∷ s) || contains_text p s

unfoldable pub ends_with : Bytes → Bytes → Bool
ends_with p [] = p == []
ends_with p (c ∷ s) = (p == (c ∷ s)) || ends_with p s

unfoldable pub has_byte : ℕ → Bytes → Bool
has_byte b s = any (λ c. eqb c b) s

-- `u8::is_ascii_alphanumeric`.
unfoldable pub is_ascii_alphanumeric : ℕ → Bool
is_ascii_alphanumeric c =
    (leb b'0' c && leb c b'9') || (leb b'A' c && leb c b'Z') || (leb b'a' c && leb c b'z')

-- `str::to_ascii_lowercase`, byte by byte.
unfoldable pub to_ascii_lowercase : ℕ → ℕ
to_ascii_lowercase c = if leb b'A' c && leb c b'Z' then c + 32 else c

-- No byte of the text is `b`.
abbrev pub Lacks : ℕ → Bytes → Type 0
Lacks b s = All (λ c. c ≢ b) s

pub has_byte-Lacks : (b : ℕ) (s : Bytes) → has_byte b s ≡ false → Lacks b s
unfolding has_byte
has_byte-Lacks b [] h = tt
has_byte-Lacks b (c ∷ s) h = ground (arith, has_byte-Lacks b s)

pub Lacks-has_byte : (b : ℕ) (s : Bytes) → Lacks b s → has_byte b s ≡ false
unfolding has_byte
Lacks-has_byte b [] h = refl
Lacks-has_byte b (c ∷ s) (h, t) = ground (arith, Lacks-has_byte b s t)

pub strip_prefix-append : (p s : Bytes) → strip_prefix p (p ++ s) ≡ some s
unfolding strip_prefix
strip_prefix-append [] s = refl
strip_prefix-append (x ∷ p) s = ground (arith, strip_prefix-append p s)

pub starts_with-append : (p s : Bytes) → starts_with p (p ++ s) ≡ true
unfolding starts_with
starts_with-append [] s = refl
starts_with-append (x ∷ p) s = ground (arith, starts_with-append p s)

abbrev cons_front : ℕ → Option (Bytes × Bytes) → Option (Bytes × Bytes)
cons_front c none = none
cons_front c (some (front, rest)) = some (c ∷ front, rest)

-- `position` of the first `b`: the bytes before it, and those after it.
unfoldable pub cut : ℕ → Bytes → Option (Bytes × Bytes)
cut b [] = none
cut b (c ∷ s) = let later = cons_front c (cut b s) in if eqb c b then some ([], s) else later

pub cut-append : (b : ℕ) (s t : Bytes) → Lacks b s → cut b (s ++ b ∷ t) ≡ some (s, t)
unfolding cut
cut-append b [] t h = ground arith
cut-append b (c ∷ s) t (h, k) = ground (arith, cut-append b s t k)

pub cut-eq-some :
    (b : ℕ) (s front rest : Bytes)
    → cut b s ≡ some (front, rest)
    → (s ≡ front ++ b ∷ rest) × Lacks b front
unfolding cut
cut-eq-some b [] front rest h = cc
cut-eq-some b (c ∷ s) [] rest h = ground arith
cut-eq-some b (c ∷ s) (d ∷ front) rest h = ground (arith, cut-eq-some b s front rest)
