-- ===== src/Text/Utf8.antt =====
-- `String::from_utf8`: which byte strings are UTF-8.
use git_mesh.Prelude.{ℕ, Bool, true, ◌&&◌, ◌||◌, [], ◌∷◌, leb, eqb, if◌then◌else◌, Bytes}

abbrev between : ℕ → ℕ → ℕ → Bool
between lo hi c = leb lo c && leb c hi

abbrev tail_byte : ℕ → Bool
tail_byte c = between 0x80 0xbf c

-- The second byte of an encoding of three bytes, which excludes overlong forms and surrogates.
unfoldable pub second_of_three : ℕ → ℕ → Bool
second_of_three a b =
    if eqb a 0xe0
    then between 0xa0 0xbf b
    else if eqb a 0xed
    then between 0x80 0x9f b
    else between 0xe1 0xef a && tail_byte b

-- The second byte of an encoding of four bytes, up to U+10FFFF.
unfoldable pub second_of_four : ℕ → ℕ → Bool
second_of_four a b =
    if eqb a 0xf0
    then between 0x90 0xbf b
    else if eqb a 0xf4
    then between 0x80 0x8f b
    else between 0xf1 0xf3 a && tail_byte b

unfoldable pub is_utf8 : Bytes → Bool
is_utf8 [] = true
is_utf8 (a ∷ []) = leb a 0x7f
is_utf8 (a ∷ b ∷ []) = (leb a 0x7f && is_utf8 (b ∷ [])) || (between 0xc2 0xdf a && tail_byte b)
is_utf8 (a ∷ b ∷ c ∷ []) =
    (leb a 0x7f && is_utf8 (b ∷ c ∷ []))
    || (between 0xc2 0xdf a && tail_byte b && is_utf8 (c ∷ []))
    || (second_of_three a b && tail_byte c)
is_utf8 (a ∷ b ∷ c ∷ d ∷ s) =
    (leb a 0x7f && is_utf8 (b ∷ c ∷ d ∷ s))
    || (between 0xc2 0xdf a && tail_byte b && is_utf8 (c ∷ d ∷ s))
    || (second_of_three a b && tail_byte c && is_utf8 (d ∷ s))
    || (second_of_four a b && tail_byte c && tail_byte d && is_utf8 s)
