-- ===== src/SnapshotText/Loading.antt =====
-- Loading the lines that a snapshot was written with.
use git_mesh.Prelude.{
  ℕ, ◌≡◌, ◌≢◌, true, false, List, [], ◌∷◌, ◌++◌, append_assoc, arith, Bytes, All, All-append,
  Result, ok, leb, ◌>>=◌, subst, ok-injective, >>=-eq-ok, Bool-cases, inl, inr, sym, refl, ◌∙◌,
}
use git_mesh.Text.Search.{Lacks}
use git_mesh.Text.Split.{split, join, lines, lines-append, split-join}
use git_mesh.Text.Spaces.{is_blank, is_blank-visible}
use git_mesh.SnapshotText.{line, load_lines}

-- A field of a line holds no tab, no newline and no carriage return.
pub record IsField (s : Bytes) : Type 0 where
  pub no_tab : Lacks 9 s
  pub no_newline : Lacks 10 s
  pub no_return : Lacks 13 s

All-no_tab : (ps : List Bytes) → All IsField ps → All (Lacks 9) ps
All-no_tab [] h = tt
All-no_tab (p ∷ ps) (h, t) = (h.no_tab, All-no_tab ps t)

module _ (b : ℕ) (ne : ◌≢◌ {A = ℕ} 9 b) where
  join-Lacks : (ps : List Bytes) → All (Lacks b) ps → Lacks b (join 9 ps)
  unfolding join
  join-Lacks [] h = tt
  join-Lacks (p ∷ []) (h, t) = h
  join-Lacks (p ∷ q ∷ ps) (h, t) =
      All-append _ p (9 ∷ join 9 (q ∷ ps)) h (ne, join-Lacks (q ∷ ps) t)

All-no_newline : (ps : List Bytes) → All IsField ps → All (Lacks 10) ps
All-no_newline [] h = tt
All-no_newline (p ∷ ps) (h, t) = (h.no_newline, All-no_newline ps t)

All-no_return : (ps : List Bytes) → All IsField ps → All (Lacks 13) ps
All-no_return [] h = tt
All-no_return (p ∷ ps) (h, t) = (h.no_return, All-no_return ps t)

-- The line of some fields, read back as those fields, in front of any rest.
pub lines-line :
    (ps : List Bytes) (rest : Bytes)
    → All IsField ps
    → lines (line ps ++ rest) ≡ join 9 ps ∷ lines rest
unfolding line
lines-line ps rest h = rw append_assoc (
    lines-append (join 9 ps) rest (join-Lacks 10 (omega arith) ps (All-no_newline ps h))
      (join-Lacks 13 (omega arith) ps (All-no_return ps h)))

-- The first byte of the line is visible.
abbrev pub IsVisible : List Bytes → Type 0
IsVisible [] = ⊥
IsVisible ([] ∷ ps) = ⊥
IsVisible ((c ∷ p) ∷ ps) = (leb 33 c ≡ true) × (leb c 126 ≡ true)

join-visible : (ps : List Bytes) → IsVisible ps → is_blank (join 9 ps) ≡ false
unfolding join
join-visible [] h = absurd h
join-visible ([] ∷ ps) h = absurd h
join-visible ((c ∷ p) ∷ []) (h, k) = is_blank-visible c p h k
join-visible ((c ∷ p) ∷ q ∷ ps) (h, k) = is_blank-visible c _ h k

split-line : (ps : List Bytes) → IsVisible ps → All IsField ps → split 9 (join 9 ps) ≡ ps
split-line [] v h = absurd v
split-line (p ∷ ps) v h = split-join 9 p ps (All-no_tab (p ∷ ps) h)

module _ {E S : Type 0} (step : S → List Bytes → Result E S) where
  -- A written line makes one step of the loader.
  pub load_lines-line :
      (s : S) (ps : List Bytes) (rest : Bytes)
      → IsVisible ps
      → All IsField ps
      → load_lines step s (lines (line ps ++ rest))
        ≡ (step s ps >>= λ s'. load_lines step s' (lines rest))
  unfolding load_lines
  load_lines-line s ps rest v h =
      rw (lines-line ps rest h, load_lines, join-visible ps v, split-line ps v h)

  load_lines-blank :
      (s : S) (l : Bytes) (ls : List Bytes)
      → is_blank l ≡ true
      → load_lines step s (l ∷ ls) ≡ load_lines step s ls
  unfolding load_lines
  load_lines-blank s l ls h = rw (h, load_lines) refl

  load_lines-step :
      (s : S) (l : Bytes) (ls : List Bytes)
      → is_blank l ≡ false
      → load_lines step s (l ∷ ls) ≡ (step s (split 9 l) >>= λ s'. load_lines step s' ls)
  unfolding load_lines
  load_lines-step s l ls h = rw (h, load_lines) refl

  -- What each step keeps, loading keeps.
  pub load_lines_induction :
      (P : S → Type 0) (keep : (s t : S) (ps : List Bytes) → P s → step s ps ≡ ok t → P t) (s t : S)
      (ls : List Bytes)
      → P s
      → load_lines step s ls ≡ ok t
      → P t
  unfolding load_lines
  load_lines_induction P keep s t [] v e = subst P (ok-injective e) v
  load_lines_induction P keep s t (l ∷ ls) v e = elim (Bool-cases (is_blank l)) [
    | inl blank ↦ load_lines_induction P keep s t ls v (sym (load_lines-blank s l ls blank) ∙ e)
    | inr visible ↦
        let (next, stepped, rest) =
          >>=-eq-ok (step s (split 9 l)) _ (sym (load_lines-step s l ls visible) ∙ e) in
        load_lines_induction P keep next t ls (keep s next (split 9 l) v stepped) rest
  ]
