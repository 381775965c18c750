-- ===== src/SortedMap.antt =====
-- `std::collections::BTreeMap` as the list of its entries in the order of the keys, and
-- `BTreeSet<K>` as a map into the unit type. Laws of lookups hold for every such list; the order
-- of the keys is `IsSorted`.
pub mod Sorted
use Prim.Native.Nat.Ordering.{lt, eq, gt}
use git_mesh.Prelude.{
  ◌≡◌, ◌⊎◌, inl, inr, refl, Bool, true, false, not, ◌||◌, Option, none, some, List, [], ◌∷◌, arith,
  if◌then◌else◌, map,
}
use git_mesh.Prelude.Order.{Ord, ◌==◌, ==→eq, ==_self}

abbrev pub SortedMap {ℓ κ} : Type ℓ → Type κ → Type (ℓ ⊔ κ)
SortedMap K V = List (K × V)

module _ {ℓ κ} {K : Type ℓ} {V : Type κ} ⦃o : Ord K⦄ where
  unfoldable pub get : K → SortedMap K V → Option V
  get k [] = none
  get k ((j, w) ∷ m) = if k == j then some w else get k m

  unfoldable pub contains_key : K → SortedMap K V → Bool
  contains_key k m = elim (get k m) [ none ↦ false | some w ↦ true ]

  -- Replaces the value of a key that is there.
  unfoldable pub insert : K → V → SortedMap K V → SortedMap K V
  insert k v [] = (k, v) ∷ []
  insert k v ((j, w) ∷ m) =
      let rest = insert k v m in
      elim (o.cmp k j) [ lt ↦ (k, v) ∷ (j, w) ∷ m | eq ↦ (k, v) ∷ m | gt ↦ (j, w) ∷ rest ]

  unfoldable pub remove : K → SortedMap K V → SortedMap K V
  remove k [] = []
  remove k ((j, w) ∷ m) = let rest = remove k m in if k == j then rest else (j, w) ∷ rest

  pub get-insert :
      (k j : K) (v : V) (m : SortedMap K V)
      → get j (insert k v m) ≡ (if j == k then some v else get j m)
  unfolding get insert
  get-insert k j v [] = refl
  get-insert k j v ((i, w) ∷ m) = ground (
    arith,
    get-insert k j v m,
    o.eq_of_cmp k i,
    o.eq_of_cmp j k,
    o.eq_of_cmp j i,
    o.cmp_self i,
    o.cmp_self j,
  )

  pub get-insert_self : (k : K) (v : V) (m : SortedMap K V) → get k (insert k v m) ≡ some v
  get-insert_self k v m = rw (get-insert k k v m, o.cmp_self k)

  pub get-remove :
      (k j : K) (m : SortedMap K V) → get j (remove k m) ≡ (if j == k then none else get j m)
  unfolding get remove
  get-remove k j [] = ground arith
  get-remove k j ((i, w) ∷ m) = ground (
    arith,
    get-remove k j m,
    o.eq_of_cmp k i,
    o.eq_of_cmp j k,
    o.eq_of_cmp j i,
    o.cmp_self i,
    o.cmp_self j,
  )

  abbrev pub keys : SortedMap K V → List K
  keys m = map (λ (e : K × V). e.0) m

  abbrev pub values : SortedMap K V → List V
  values m = map (λ (e : K × V). e.1) m

abbrev pub SortedSet {ℓ} : Type ℓ → Type ℓ
SortedSet K = SortedMap K (Unit {0})

module _ {ℓ} {K : Type ℓ} ⦃o : Ord K⦄ where
  abbrev pub contains : K → SortedSet K → Bool
  contains k s = contains_key k s

  -- The flag says whether the value was new.
  abbrev pub insert_new : K → SortedSet K → Bool × SortedSet K
  insert_new k s = (not (contains k s), insert k tt s)

module _ {ℓ κ} {K : Type ℓ} {V : Type κ} ⦃o : Ord K⦄ where
  -- Where a lookup in an extended map comes from.
  pub get-insert_cases :
      (k j : K) (v w : V) (m : SortedMap K V)
      → get j (insert k v m) ≡ some w
      → ((j ≡ k) × (w ≡ v)) ⊎ (((j == k) ≡ false) × (get j m ≡ some w))
  get-insert_cases k j v w m e = ground (arith, get-insert k j v m, ==→eq j k)

  pub get-insert_other :
      (k j : K) (v : V) (m : SortedMap K V) → (j == k) ≡ false → get j (insert k v m) ≡ get j m
  get-insert_other k j v m h = rw (get-insert k j v m, h)

  pub contains_key-insert :
      (k j : K) (v : V) (m : SortedMap K V)
      → contains_key j (insert k v m) ≡ ((j == k) || contains_key j m)
  unfolding contains_key
  contains_key-insert k j v m = ground (arith, get-insert k j v m)

  pub contains_key_of_get :
      (k : K) (v : V) (m : SortedMap K V) → get k m ≡ some v → contains_key k m ≡ true
  unfolding contains_key
  contains_key_of_get k v m e = rw (e, contains_key)

  pub get_of_not_contains : (k : K) (m : SortedMap K V) → contains_key k m ≡ false → get k m ≡ none
  unfolding contains_key
  get_of_not_contains k m h = ground arith

  -- A key that is there differs from one that is not.
  pub keys_differ :
      (j k : K) (w : V) (m : SortedMap K V) → get j m ≡ some w → get k m ≡ none → (j == k) ≡ false
  keys_differ j k w m p q = ground (arith, ==→eq j k)

  pub contains-insert_self :
      (k : K) (v : V) (m : SortedMap K V) → contains_key k (insert k v m) ≡ true
  contains-insert_self k v m = rw (contains_key-insert k k v m, ==_self k) refl

  pub insert-insert : (k : K) (v : V) (m : SortedMap K V) → insert k v (insert k v m) ≡ insert k v m
  unfolding insert
  insert-insert k v [] = ground (arith, o.cmp_self k)
  insert-insert k v ((j, w) ∷ m) = ground (arith, insert-insert k v m, o.cmp_self k)
