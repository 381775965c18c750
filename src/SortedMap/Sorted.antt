-- ===== src/SortedMap/Sorted.antt =====
-- The keys of a map stand in strictly increasing order, whatever is inserted and removed, and
-- inserting the entries of such a list one by one rebuilds it.
use Prim.Native.Nat.Ordering.{lt, gt}
use git_mesh.Prelude.{
  ◌≡◌, refl, none, [], ◌∷◌, ◌++◌, arith, ap, sym, ◌∙◌, subst, append-nil, append_assoc,
}
use git_mesh.Prelude.Order.{Ord}
use git_mesh.SortedMap.{SortedMap, get, insert, remove}

module _ {ℓ κ} {K : Type ℓ} {V : Type κ} ⦃o : Ord K⦄ where
  abbrev pub IsAbove : K → SortedMap K V → Type 0
  IsAbove k [] = Unit
  IsAbove k ((j, w) ∷ m) = (o.cmp k j ≡ lt) × IsAbove k m

  abbrev pub IsSorted : SortedMap K V → Type 0
  IsSorted [] = Unit
  IsSorted ((k, v) ∷ m) = IsAbove k m × IsSorted m

  IsAbove-trans : (i k : K) (m : SortedMap K V) → o.cmp i k ≡ lt → IsAbove k m → IsAbove i m
  IsAbove-trans i k [] p h = tt
  IsAbove-trans i k ((j, w) ∷ m) p (q, h) = (o.cmp_trans i k j p q, IsAbove-trans i k m p h)

  IsAbove-insert :
      (i k : K) (v : V) (m : SortedMap K V)
      → o.cmp i k ≡ lt
      → IsAbove i m
      → IsAbove i (insert k v m)
  unfolding insert
  IsAbove-insert i k v [] p h = (p, tt)
  IsAbove-insert i k v ((j, w) ∷ m) p (q, h) = ground (arith, IsAbove-insert i k v m p h)

  pub insert-IsSorted : (k : K) (v : V) (m : SortedMap K V) → IsSorted m → IsSorted (insert k v m)
  unfolding insert
  insert-IsSorted k v [] h = (tt, tt)
  insert-IsSorted k v ((j, w) ∷ m) (a, h) = ground (
    arith,
    insert-IsSorted k v m h,
    o.cmp_flip k j,
    o.eq_of_cmp k j,
    IsAbove-insert j k v m,
    IsAbove-trans k j m,
  )

  IsAbove-remove : (i k : K) (m : SortedMap K V) → IsAbove i m → IsAbove i (remove k m)
  unfolding remove
  IsAbove-remove i k [] h = tt
  IsAbove-remove i k ((j, w) ∷ m) (q, h) = ground (arith, IsAbove-remove i k m h)

  pub remove-IsSorted : (k : K) (m : SortedMap K V) → IsSorted m → IsSorted (remove k m)
  unfolding remove
  remove-IsSorted k [] h = tt
  remove-IsSorted k ((j, w) ∷ m) (a, h) =
      ground (arith, remove-IsSorted k m h, IsAbove-remove j k m a)

  -- Every key of `m` is below `k`.
  abbrev pub IsBelow : SortedMap K V → K → Type 0
  IsBelow [] k = Unit
  IsBelow ((j, w) ∷ m) k = (o.cmp k j ≡ gt) × IsBelow m k

  pub insert_last :
      (k : K) (v : V) (m : SortedMap K V) → IsBelow m k → insert k v m ≡ m ++ (k, v) ∷ []
  unfolding insert
  insert_last k v [] h = refl
  insert_last k v ((j, w) ∷ m) (p, h) = rw (p, insert) (ap (λ l. (j, w) ∷ l) (insert_last k v m h))

  pub get-IsBelow : (k : K) (m : SortedMap K V) → IsBelow m k → get k m ≡ none
  unfolding get
  get-IsBelow k [] h = refl
  get-IsBelow k ((j, w) ∷ m) (p, h) = ground (arith, get-IsBelow k m h)

  -- The entries of a list, inserted one by one.
  unfoldable pub insert_entries : SortedMap K V → SortedMap K V → SortedMap K V
  insert_entries [] m = m
  insert_entries ((k, v) ∷ es) m = insert_entries es (insert k v m)

  IsAbove-append :
      (j k : K) (v : V) (m es : SortedMap K V) → IsAbove j (m ++ (k, v) ∷ es) → o.cmp k j ≡ gt
  IsAbove-append j k v [] es (p, h) = rw (o.cmp_flip j k, p) refl
  IsAbove-append j k v ((i, w) ∷ m) es (p, h) = IsAbove-append j k v m es h

  IsSorted-IsBelow :
      (k : K) (v : V) (m es : SortedMap K V) → IsSorted (m ++ (k, v) ∷ es) → IsBelow m k
  IsSorted-IsBelow k v [] es h = tt
  IsSorted-IsBelow k v ((j, w) ∷ m) es (a, h) =
      (IsAbove-append j k v m es a, IsSorted-IsBelow k v m es h)

  pub insert_entries-append :
      (m es : SortedMap K V) → IsSorted (m ++ es) → insert_entries es m ≡ m ++ es
  unfolding insert_entries
  insert_entries-append m [] h = sym (append-nil m)
  insert_entries-append m ((k, v) ∷ es) h = rw (insert_last k v m (IsSorted-IsBelow k v m es h)) (
      insert_entries-append (m ++ (k, v) ∷ []) es
        (subst IsSorted (sym (append_assoc m ((k, v) ∷ []) es)) h)
      ∙ append_assoc m ((k, v) ∷ []) es)
