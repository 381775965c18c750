-- ===== src/Coordination/Policy/Snapshot/Members.antt =====
-- Loading the lines of a policy's sets.
use git_mesh.Prelude.{
  ℕ, ◌≡◌, refl, ap, ◌∙◌, false, [], ◌∷◌, ◌++◌, append_assoc, arith, Bytes, codes, All, All-map, ok,
  ok-injective, >>=-eq-ok, any, leb, Bool,
}
use git_mesh.Prelude.Order.{nat_ord, list_ord}
use git_mesh.SortedMap.{SortedSet, insert}
use git_mesh.SortedMap.Sorted.{IsSorted, insert_entries, insert_entries-append}
use git_mesh.Text.Search.{has_byte, has_byte-Lacks}
use git_mesh.Text.Split.{lines}
use git_mesh.Text.Decimal.{IsDigit}
use git_mesh.SnapshotText.{line, load_lines}
use git_mesh.SnapshotText.Loading.{IsField, IsVisible, load_lines-line}
use git_mesh.Coordination.Names.{validate_snapshot_field, validate_ref_name, is_ref_byte_forbidden}
use git_mesh.Coordination.Policy.{RepoPolicy}
use git_mesh.Coordination.Policy.Snapshot.{member_lines, protected_lines, load_line}

pub plain-IsField : (s : Bytes) → validate_snapshot_field s ≡ ok tt → IsField s
unfolding validate_snapshot_field
plain-IsField s h = record {
  no_tab = has_byte-Lacks 9 s (ground arith);
  no_newline = has_byte-Lacks 10 s (ground arith);
  no_return = has_byte-Lacks 13 s (ground arith);
}

printable-IsField : (s : Bytes) → All (λ c. leb c 0x20 ≡ false) s → IsField s
printable-IsField s h = record {
  no_tab = All-map (λ c p. ground arith) s h;
  no_newline = All-map (λ c p. ground arith) s h;
  no_return = All-map (λ c p. ground arith) s h;
}

pub digits-IsField : (s : Bytes) → All IsDigit s → IsField s
digits-IsField s h = printable-IsField s (All-map (λ c d. ground arith) s h)

any-All : (f : ℕ → Bool) (s : Bytes) → any f s ≡ false → All (λ c. f c ≡ false) s
any-All f [] h = tt
any-All f (c ∷ s) h = ground (arith, any-All f s)

ref_name-IsField : (name : Bytes) → validate_ref_name name ≡ ok tt → IsField name
unfolding validate_ref_name is_ref_byte_forbidden
ref_name-IsField name h =
    printable-IsField name
      (All-map (λ c p. ground arith) name (any-All is_ref_byte_forbidden name (ground arith)))

-- The members of one of the sets, whose lines have one tag, move the policy through `at`.
module _ (tag : Bytes) (at : SortedSet Bytes → RepoPolicy)
    (visible : (m : Bytes) → IsVisible (tag ∷ m ∷ [])) (field : IsField tag) where
  load_member_lines :
      (step : (s : SortedSet Bytes) (m : Bytes)
        → validate_snapshot_field m ≡ ok tt
        → load_line (at s) (tag ∷ m ∷ []) ≡ ok (at (insert m tt s)))
      (set acc : SortedSet Bytes) (text rest : Bytes)
      → member_lines tag set ≡ ok text
      → load_lines load_line (at acc) (lines (text ++ rest))
        ≡ load_lines load_line (at (insert_entries set acc)) (lines rest)
  unfolding member_lines insert_entries
  load_member_lines step [] acc text rest e = rw (← ok-injective e) refl
  load_member_lines step ((m, v) ∷ set) acc text rest e =
      let (_, valid, e1) = >>=-eq-ok (validate_snapshot_field m) _ e in
      let (more, e2, e3) = >>=-eq-ok (member_lines tag set) _ e1 in
      rw
        (
          ← ok-injective e3,
          append_assoc (line (tag ∷ m ∷ [])) more rest,
          load_lines-line load_line (at acc) (tag ∷ m ∷ []) (more ++ rest) (visible m)
              (field, (plain-IsField m valid, tt)),
          step acc m valid,
        )
        (load_member_lines step set (insert m tt acc) more rest e2)

  pub load_set :
      (step : (s : SortedSet Bytes) (m : Bytes)
        → validate_snapshot_field m ≡ ok tt
        → load_line (at s) (tag ∷ m ∷ []) ≡ ok (at (insert m tt s)))
      (set : SortedSet Bytes) (text rest : Bytes)
      → IsSorted set
      → member_lines tag set ≡ ok text
      → load_lines load_line (at []) (lines (text ++ rest))
        ≡ load_lines load_line (at set) (lines rest)
  load_set step set text rest sorted e =
      load_member_lines step set [] text rest e
      ∙ ap (λ s. load_lines load_line (at s) (lines rest)) (insert_entries-append [] set sorted)

abbrev pub protected_tag : Bytes
protected_tag = codes "protected_ref"

pub protected_tag-IsField : IsField protected_tag
unfolding validate_snapshot_field has_byte
protected_tag-IsField = plain-IsField protected_tag refl

pub load_protected_lines :
    (at : SortedSet Bytes → RepoPolicy)
    (step : (s : SortedSet Bytes) (m : Bytes)
      → validate_ref_name m ≡ ok tt
      → load_line (at s) (protected_tag ∷ m ∷ []) ≡ ok (at (insert m tt s)))
    (set acc : SortedSet Bytes)
    → All (λ entry. validate_ref_name entry.0 ≡ ok tt) set
    → load_lines load_line (at acc) (lines (protected_lines set)) ≡ ok (at (insert_entries set acc))
unfolding protected_lines insert_entries load_lines lines
load_protected_lines at step [] acc h = refl
load_protected_lines at step ((m, v) ∷ set) acc (valid, h) =
    rw
      (
        load_lines-line load_line (at acc) (protected_tag ∷ m ∷ []) (protected_lines set)
            (refl, refl) (protected_tag-IsField, (ref_name-IsField m valid, tt)),
        step acc m valid,
      )
      (load_protected_lines at step set (insert m tt acc) h)
