-- ===== src/Git/Tree/Exact.antt =====
-- The entries of a tree, written and read: a payload is read as those entries that it is written
-- from, and as no others.
use git_mesh.Prelude.{
  ℕ, zero, suc, ◌≡◌, ◌≤◌, ◌<◌, ◌↔◌, refl, sym, ap, ◌∙◌, subst, arith, Bool, false, ◌||◌, List, [],
  ◌∷◌, ◌++◌, Bytes, All, length, length-append, length-take, take, drop, take-append, drop-append,
  take-append_drop, ltb, is_empty, ok, ok_or, ◌>>=◌, >>=-eq-ok, fail_if-eq-ok, ok_or-eq-ok,
  ok-injective,
}
use git_mesh.Prelude.Order.{nat_ord, list_ord}
use git_mesh.Text.Search.{cut, cut-append, cut-eq-some, Lacks}
use git_mesh.Git.Object.{malformed_tree}
use git_mesh.Git.Tree.{
  GitTreeEntry, GitTreeEntryTarget, tree_entry_target, parse_tree_entry, tree_loop,
  parse_tree_entries,
}

abbrev pub entry_bytes : GitTreeEntry → Bytes → Bytes
entry_bytes e rest = e.mode ++ b' ' ∷ (e.name ++ 0 ∷ (e.oid.digest ++ rest))

abbrev pub tree_bytes : List GitTreeEntry → Bytes
tree_bytes [] = []
tree_bytes (e ∷ es) = entry_bytes e (tree_bytes es)

-- The mode is one that Git knows, of the entry's target; the name is not empty and has no NUL.
pub record IsEntry (e : GitTreeEntry) : Type 0 where
  pub mode_spaceless : Lacks b' ' e.mode
  pub mode_some : is_empty e.mode ≡ false
  pub mode_target : tree_entry_target e.mode ≡ ok e.target
  pub name_some : is_empty e.name ≡ false
  pub name_text : Lacks 0 e.name
  pub oid_width : length e.oid.digest ≡ 20

no_failure :
    (n : ℕ) (b c : Bool) → ltb n 20 ≡ false → b ≡ false → c ≡ false → (ltb n 20 || b || c) ≡ false
no_failure n b c e f g = ground arith

no_check :
    (n : ℕ) (b c : Bool) → (ltb n 20 || b || c) ≡ false → (20 ≤ n) × (b ≡ false) × (c ≡ false)
no_check n b c h = (ground arith, ground arith, ground arith)

parse_tree_entry-entry_bytes :
    (e : GitTreeEntry) (rest : Bytes)
    → IsEntry e
    → parse_tree_entry (entry_bytes e rest) ≡ ok (e, rest)
unfolding parse_tree_entry
parse_tree_entry-entry_bytes e rest v =
    rw
      (
        cut-append b' ' e.mode (e.name ++ 0 ∷ (e.oid.digest ++ rest)) v.mode_spaceless,
        cut-append 0 e.name (e.oid.digest ++ rest) v.name_text,
        no_failure (length (e.oid.digest ++ rest)) (is_empty e.mode) (is_empty e.name)
            (wide e.oid.digest rest v.oid_width) v.mode_some v.name_some,
        v.mode_target,
      )
      (ap
          (λ (n : ℕ). ok (
            record {
              mode = e.mode;
              name = e.name;
              oid = record { digest = take n (e.oid.digest ++ rest) };
              target = e.target;
            },
            drop n (e.oid.digest ++ rest),
          ))
          (sym v.oid_width)
        ∙ rw (take-append e.oid.digest rest, drop-append e.oid.digest rest))
  where
    wide : (d rest : Bytes) → length d ≡ 20 → ltb (length (d ++ rest)) 20 ≡ false
    wide d rest h = ground (arith, length-append d rest)

parse_tree_entry-IsEntry :
    (payload : Bytes) (e : GitTreeEntry) (rest : Bytes)
    → parse_tree_entry payload ≡ ok (e, rest)
    → (payload ≡ entry_bytes e rest) × IsEntry e
unfolding parse_tree_entry
parse_tree_entry-IsEntry payload e rest h =
    let ((mode, after_mode), at_space, h1) =
      >>=-eq-ok (ok_or (cut b' ' payload) malformed_tree) _ h in
    let ((name, after_name), at_zero, h2) =
      >>=-eq-ok (ok_or (cut 0 after_mode) malformed_tree) _ h1 in
    let (checks, h3) =
      fail_if-eq-ok (ltb (length after_name) 20 || is_empty mode || is_empty name) malformed_tree _
        h2 in
    let (target, at_target, done) = >>=-eq-ok (tree_entry_target mode) _ h3 in
    let (split, spaceless) =
      cut-eq-some b' ' payload mode after_mode
        (ok_or-eq-ok (cut b' ' payload) malformed_tree at_space) in
    let (split', text) =
      cut-eq-some 0 after_mode name after_name
        (ok_or-eq-ok (cut 0 after_mode) malformed_tree at_zero) in
    assemble payload mode name after_mode after_name target e rest split split' spaceless text
      checks at_target (ok-injective done)
  where
    assemble :
        (payload mode name after_mode after_name : Bytes) (target : GitTreeEntryTarget)
        (e : GitTreeEntry) (rest : Bytes)
        → payload ≡ mode ++ b' ' ∷ after_mode
        → after_mode ≡ name ++ 0 ∷ after_name
        → Lacks b' ' mode
        → Lacks 0 name
        → (ltb (length after_name) 20 || is_empty mode || is_empty name) ≡ false
        → tree_entry_target mode ≡ ok target
        → ◌≡◌ {A = GitTreeEntry × Bytes}
            (
              record {
                mode = mode;
                name = name;
                oid = record { digest = take 20 after_name };
                target = target;
              },
              drop 20 after_name,
            )
            (e, rest)
        → (payload ≡ entry_bytes e rest) × IsEntry e
    assemble payload mode name after_mode after_name target e rest split split' spaceless text
          checks at_target done =
        let (wide, mode_some, name_some) =
          no_check (length after_name) (is_empty mode) (is_empty name) checks in
        subst (λ (p : GitTreeEntry × Bytes). (payload ≡ entry_bytes p.0 p.1) × IsEntry p.0) done
          (
            split
                ∙ ap (λ t. mode ++ b' ' ∷ t)
                    (split' ∙ ap (λ t. name ++ 0 ∷ t) (sym (take-append_drop 20 after_name))),
            record {
              mode_spaceless = spaceless;
              mode_some = mode_some;
              mode_target = at_target;
              name_some = name_some;
              name_text = text;
              oid_width = length-take 20 after_name wide;
            },
          )

entry_bytes_longer : (e : GitTreeEntry) (rest : Bytes) → length rest < length (entry_bytes e rest)
entry_bytes_longer e rest = omega (
  arith,
  length-append e.mode (b' ' ∷ (e.name ++ 0 ∷ (e.oid.digest ++ rest))),
  length-append e.name (0 ∷ (e.oid.digest ++ rest)),
  length-append e.oid.digest rest,
)

-- One round of the loop.
round :
    (fuel : ℕ) (payload : Bytes) (e : GitTreeEntry) (rest : Bytes)
    → parse_tree_entry payload ≡ ok (e, rest)
    → length rest < length payload
    → tree_loop (suc fuel) payload ≡ (tree_loop fuel rest >>= λ es. ok (e ∷ es))
unfolding tree_loop
round fuel [] e rest h k = absurd (omega arith)
round fuel (b ∷ bs) e rest h k = rw h

tree_loop-tree_bytes :
    (fuel : ℕ) (es : List GitTreeEntry)
    → length (tree_bytes es) ≤ fuel
    → All IsEntry es
    → tree_loop fuel (tree_bytes es) ≡ ok es
tree_loop-tree_bytes fuel [] h v = unfold tree_loop in refl
tree_loop-tree_bytes zero (e ∷ es) h v =
    absurd (omega (arith, entry_bytes_longer e (tree_bytes es)))
tree_loop-tree_bytes (suc fuel) (e ∷ es) h (v, vs) =
    round fuel (entry_bytes e (tree_bytes es)) e (tree_bytes es)
      (parse_tree_entry-entry_bytes e (tree_bytes es) v) (entry_bytes_longer e (tree_bytes es))
    ∙ rw (tree_loop-tree_bytes fuel es (omega (arith, entry_bytes_longer e (tree_bytes es))) vs)
        refl

entries_of_loop :
    (fuel : ℕ) (payload : Bytes) (es : List GitTreeEntry)
    → tree_loop fuel payload ≡ ok es
    → (payload ≡ tree_bytes es) × All IsEntry es
unfolding tree_loop
entries_of_loop fuel [] es h =
    subst (λ es. ([] ≡ tree_bytes es) × All IsEntry es) (ok-injective h) (refl, tt)
entries_of_loop zero (b ∷ bs) es h = cc
entries_of_loop (suc fuel) (b ∷ bs) es h =
    let ((e, rest), first, h1) = >>=-eq-ok (parse_tree_entry (b ∷ bs)) _ h in
    let (later, looped, done) = >>=-eq-ok (tree_loop fuel rest) _ h1 in
    let (split, v) = parse_tree_entry-IsEntry (b ∷ bs) e rest first in
    let (split', vs) = entries_of_loop fuel rest later looped in
    subst (λ es. ((b ∷ bs) ≡ tree_bytes es) × All IsEntry es) (ok-injective done)
      (split ∙ ap (entry_bytes e) split', (v, vs))

-- A payload is read as a list of tree entries exactly when the entries are well formed and the
-- payload is what they are written as.
pub parse_tree_entries-eq-ok :
    (payload : Bytes) (es : List GitTreeEntry)
    → (parse_tree_entries payload ≡ ok es) ↔ ((payload ≡ tree_bytes es) × All IsEntry es)
unfolding parse_tree_entries
parse_tree_entries-eq-ok payload es = (
  entries_of_loop (length payload) payload es,
  λ (e, v).
      subst (λ p. tree_loop (length p) p ≡ ok es) (sym e)
        (tree_loop-tree_bytes (length (tree_bytes es)) es (omega arith) v),
)
