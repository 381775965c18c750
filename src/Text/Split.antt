-- ===== src/Text/Split.antt =====
-- `str::split` at one byte, `join`, and `str::lines`.
use git_mesh.Prelude.{
  ℕ, ◌≡◌, refl, true, false, List, [], ◌∷◌, ◌++◌, arith, eqb, if◌then◌else◌, Bytes, All, is_empty,
  ap, sym, ◌∙◌, Bool-cases, inl, inr, eqb→eq,
}
use git_mesh.Text.Search.{Lacks}

abbrev push_first : ℕ → List Bytes → List Bytes
push_first c [] = (c ∷ []) ∷ []
push_first c (p ∷ ps) = (c ∷ p) ∷ ps

unfoldable pub split : ℕ → Bytes → List Bytes
split sep [] = [] ∷ []
split sep (c ∷ s) = let rest = split sep s in if eqb c sep then [] ∷ rest else push_first c rest

unfoldable pub join : ℕ → List Bytes → Bytes
join sep [] = []
join sep (p ∷ []) = p
join sep (p ∷ q ∷ ps) = p ++ (sep ∷ join sep (q ∷ ps))

-- The part of `strip_suffix('\r')` on a line that a newline ends.
unfoldable pub strip_cr : Bytes → Bytes
strip_cr [] = []
strip_cr (c ∷ []) = if eqb c 13 then [] else c ∷ []
strip_cr (c ∷ d ∷ s) = c ∷ strip_cr (d ∷ s)

unfoldable pub terminated : List Bytes → List Bytes
unfolding strip_cr
terminated [] = []
terminated (p ∷ []) = if is_empty p then [] else p ∷ []
terminated (p ∷ q ∷ ps) = strip_cr p ∷ terminated (q ∷ ps)

-- Each line ends at a newline, before which a carriage return is dropped; the last may lack both.
unfoldable pub lines : Bytes → List Bytes
unfolding split terminated
lines s = terminated (split 10 s)

pub split-Lacks : (sep : ℕ) (s : Bytes) → Lacks sep s → split sep s ≡ s ∷ []
unfolding split
split-Lacks sep [] h = refl
split-Lacks sep (c ∷ s) (h, t) = ground (arith, split-Lacks sep s t)

pub split-append :
    (sep : ℕ) (p s : Bytes) → Lacks sep p → split sep (p ++ (sep ∷ s)) ≡ p ∷ split sep s
unfolding split
split-append sep [] s h = ground arith
split-append sep (c ∷ p) s (h, t) = ground (arith, split-append sep p s t)

-- Splitting a join gives the parts back, if there is one and none holds the separator.
pub split-join :
    (sep : ℕ) (p : Bytes) (ps : List Bytes)
    → All (Lacks sep) (p ∷ ps)
    → split sep (join sep (p ∷ ps)) ≡ p ∷ ps
unfolding join
split-join sep p [] h = split-Lacks sep p h.0
split-join sep p (q ∷ ps) (h, t) =
    rw (split-append sep p (join sep (q ∷ ps)) h) (ap (λ l. p ∷ l) (split-join sep q ps t))

pub strip_cr-Lacks : (s : Bytes) → Lacks 13 s → strip_cr s ≡ s
unfolding strip_cr
strip_cr-Lacks [] h = refl
strip_cr-Lacks (c ∷ []) h = ground arith
strip_cr-Lacks (c ∷ d ∷ s) (h, t) = ap (λ l. c ∷ l) (strip_cr-Lacks (d ∷ s) t)

split-cons : (sep : ℕ) (s : Bytes) → (p : Bytes) × (ps : List Bytes) × (split sep s ≡ p ∷ ps)
unfolding split
split-cons sep [] = ([], [], refl)
split-cons sep (c ∷ s) = let (p, ps, e) = split-cons sep s in cons_part c s p ps e
  where
    cons_part :
        (c : ℕ) (s p : Bytes) (ps : List Bytes)
        → split sep s ≡ p ∷ ps
        → (q : Bytes) × (qs : List Bytes) × (split sep (c ∷ s) ≡ q ∷ qs)
    cons_part c s p ps e =
        elim (eqb c sep)
          as (λ b.
            (q : Bytes) × (qs : List Bytes) × ((if b
                then [] ∷ split sep s
                else push_first c (split sep s))
              ≡ q ∷ qs)) [ true ↦ ([], split sep s, refl) | false ↦ (c ∷ p, ps, rw e) ]

-- The first line of a text that begins with a line and a newline.
pub lines-append : (p s : Bytes) → Lacks 10 p → Lacks 13 p → lines (p ++ (10 ∷ s)) ≡ p ∷ lines s
unfolding lines terminated
lines-append p s h k =
    let (q, qs, e) = split-cons 10 s in
    rw (split-append 10 p s h, e) (ap (λ l. l ∷ terminated (q ∷ qs)) (strip_cr-Lacks p k))

join-push_first :
    (sep c : ℕ) (p : Bytes) (ps : List Bytes)
    → join sep (push_first c (p ∷ ps)) ≡ c ∷ join sep (p ∷ ps)
unfolding join
join-push_first sep c p [] = refl
join-push_first sep c p (q ∷ ps) = refl

-- Joining the parts of a text gives the text back.
pub join-split : (sep : ℕ) (s : Bytes) → join sep (split sep s) ≡ s
unfolding split join
join-split sep [] = refl
join-split sep (c ∷ s) =
    let (p, ps, e) = split-cons sep s in
    let whole : join sep (p ∷ ps) ≡ s = rw (← e) (join-split sep s) in
    elim (Bool-cases (eqb c sep)) [
      | inl here ↦
          rw (here, e) (ap (λ t. sep ∷ t) whole ∙ ap (λ d. d ∷ s) (sym (eqb→eq c sep here)))
      | inr there ↦ rw (there, e) (join-push_first sep c p ps ∙ ap (λ t. c ∷ t) whole)
    ]
