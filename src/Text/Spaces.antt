-- ===== src/Text/Spaces.antt =====
-- Unicode white space in a UTF-8 text: `str::contains(char::is_whitespace)` and `trim().is_empty()`.
-- No encoding of a white-space character stands across two characters, so bytes are enough.
use git_mesh.Prelude.{
  ℕ, ◌≡◌, refl, All, Bool, true, false, ◌&&◌, ◌||◌, [], ◌∷◌, arith, leb, eqb, Bytes,
}

-- U+0009 to U+000D and the space.
unfoldable pub is_space1 : ℕ → Bool
is_space1 a = (leb 9 a && leb a 13) || eqb a 32

-- U+0085 and U+00A0.
unfoldable pub is_space2 : ℕ → ℕ → Bool
is_space2 a b = eqb a 0xc2 && (eqb b 0x85 || eqb b 0xa0)

-- U+1680, U+2000 to U+200A, U+2028, U+2029, U+202F, U+205F and U+3000.
unfoldable pub is_space3 : ℕ → ℕ → ℕ → Bool
is_space3 a b c =
    (eqb a 0xe1 && eqb b 0x9a && eqb c 0x80)
    || (eqb a 0xe2
        && eqb b 0x80
        && ((leb 0x80 c && leb c 0x8a) || eqb c 0xa8 || eqb c 0xa9 || eqb c 0xaf))
    || (eqb a 0xe2 && eqb b 0x81 && eqb c 0x9f)
    || (eqb a 0xe3 && eqb b 0x80 && eqb c 0x80)

unfoldable pub has_whitespace : Bytes → Bool
has_whitespace [] = false
has_whitespace (a ∷ []) = is_space1 a
has_whitespace (a ∷ b ∷ []) = is_space1 a || is_space2 a b || has_whitespace (b ∷ [])
has_whitespace (a ∷ b ∷ c ∷ s) =
    is_space1 a || is_space2 a b || is_space3 a b c || has_whitespace (b ∷ c ∷ s)

-- Every character is white space.
unfoldable pub is_blank : Bytes → Bool
is_blank [] = true
is_blank (a ∷ []) = is_space1 a
is_blank (a ∷ b ∷ []) = (is_space1 a && is_blank (b ∷ [])) || is_space2 a b
is_blank (a ∷ b ∷ c ∷ s) =
    (is_space1 a && is_blank (b ∷ c ∷ s))
    || (is_space2 a b && is_blank (c ∷ s))
    || (is_space3 a b c && is_blank s)

visible_space1 : (a : ℕ) → leb 33 a ≡ true → is_space1 a ≡ false
unfolding is_space1
visible_space1 a p = ground arith

visible_space2 : (a b : ℕ) → leb a 126 ≡ true → is_space2 a b ≡ false
unfolding is_space2
visible_space2 a b p = ground arith

visible_space3 : (a b c : ℕ) → leb a 126 ≡ true → is_space3 a b c ≡ false
unfolding is_space3
visible_space3 a b c p = ground arith

-- A text that begins with a visible ASCII byte is not blank.
pub is_blank-visible :
    (c : ℕ) (s : Bytes) → leb 33 c ≡ true → leb c 126 ≡ true → is_blank (c ∷ s) ≡ false
unfolding is_blank
is_blank-visible c [] p q = visible_space1 c p
is_blank-visible c (a ∷ []) p q = rw (visible_space1 c p, visible_space2 c a q)
is_blank-visible c (a ∷ b ∷ s) p q =
    rw (visible_space1 c p, visible_space2 c a q, visible_space3 c a b q)

-- A visible ASCII byte.
abbrev pub IsVisible : ℕ → Type 0
IsVisible c = (leb 33 c ≡ true) × (leb c 126 ≡ true)

pub has_whitespace-visible : (s : Bytes) → All IsVisible s → has_whitespace s ≡ false
unfolding has_whitespace
has_whitespace-visible [] h = refl
has_whitespace-visible (a ∷ []) (v, h) = visible_space1 a v.0
has_whitespace-visible (a ∷ b ∷ []) (v, h) =
    rw (visible_space1 a v.0, visible_space2 a b v.1) (has_whitespace-visible (b ∷ []) h)
has_whitespace-visible (a ∷ b ∷ c ∷ s) (v, h) =
    rw (visible_space1 a v.0, visible_space2 a b v.1, visible_space3 a b c v.1)
      (has_whitespace-visible (b ∷ c ∷ s) h)
