-- ===== src/Identity/GrantStore/Epochs.antt =====
-- The latest epoch of a repository.
use git_mesh.Prelude.{
  ℕ, ◌≡◌, ◌≤◌, ◌<◌, refl, Bool, true, false, ◌&&◌, Option, none, some, List, [], ◌∷◌, arith, Bytes,
  ltb, eqb, eqb_self, is_empty, ◌⊎◌, if◌then◌else◌, Bool-cases, inl, inr,
}
use git_mesh.Prelude.Order.{◌==◌, nat_ord, list_ord}
use git_mesh.SortedMap.{SortedMap}
use git_mesh.Identity.Grant.{RepoKeyGrant}
use git_mesh.Identity.GrantStore.{
  GrantKey, RepoKeyGrantStore, later, latest_of, latest_epoch, select, grants_for_repo_epoch,
}

abbrev of_epoch : Bytes → ℕ → GrantKey → Bool
of_epoch repo_id epoch k = (k.0 == repo_id) && eqb k.1.0 epoch

apart : (a b : ℕ) → a < b → eqb a b ≡ false
apart a b h = ground arith

later_bounds :
    (epoch : ℕ) (o : Option ℕ)
    → (top : ℕ) × (later epoch o ≡ some top)
      × (epoch ≤ top)
      × ((most : ℕ) → o ≡ some most → most ≤ top)
later_bounds epoch none = (epoch, refl, omega arith, λ most e. absurd cc)
later_bounds epoch (some most) =
    (if ltb most epoch then epoch else most, refl, ground arith, λ other e. ground arith)

later_cases : (epoch n : ℕ) (o : Option ℕ) → later epoch o ≡ some n → (epoch ≡ n) ⊎ (o ≡ some n)
later_cases epoch n none h = inl cc
later_cases epoch n (some most) h = ground arith

more :
    (b : Bool) (g : RepoKeyGrant) (gs : List RepoKeyGrant)
    → is_empty gs ≡ false
    → is_empty (if b then g ∷ gs else gs) ≡ false
more true g gs h = refl
more false g gs h = h

nothing_later :
    (repo_id : Bytes) (n : ℕ) (m : SortedMap GrantKey RepoKeyGrant)
    → ((most : ℕ) → latest_of repo_id m ≡ some most → most < n)
    → select (of_epoch repo_id n) m ≡ []
unfolding latest_of select
nothing_later repo_id n [] bound = refl
nothing_later repo_id n (((r, (epoch, d)), g) ∷ m) bound = elim (Bool-cases (r == repo_id)) [
  | inr other ↦ rw other (nothing_later repo_id n m (λ most e. bound most (rw other e)))
  | inl same ↦
      let (top, at, above, over) = later_bounds epoch (latest_of repo_id m) in
      let low = bound top (rw same at) in
      rw (same, apart epoch n (omega arith))
        (nothing_later repo_id n m (λ most e. omega (arith, over most e)))
]

found_latest :
    (repo_id : Bytes) (n : ℕ) (m : SortedMap GrantKey RepoKeyGrant)
    → latest_of repo_id m ≡ some n
    → is_empty (select (of_epoch repo_id n) m) ≡ false
unfolding latest_of select
found_latest repo_id n [] h = cc
found_latest repo_id n (((r, (epoch, d)), g) ∷ m) h = elim (Bool-cases (r == repo_id)) [
  | inr other ↦ rw other (found_latest repo_id n m (rw other at h))
  | inl same ↦ elim (later_cases epoch n (latest_of repo_id m) (rw same at h)) [
    | inl here ↦ rw (same, here, eqb_self n) refl
    | inr below ↦
        rw same
          (more (eqb epoch n) g (select (of_epoch repo_id n) m) (found_latest repo_id n m below))
  ]
]

-- The latest epoch of a repository has a grant, and no later epoch has one.
pub latest_epoch-eq-some :
    (s : RepoKeyGrantStore) (repo_id : Bytes) (latest : ℕ)
    → latest_epoch s repo_id ≡ some latest
    → (is_empty (grants_for_repo_epoch s repo_id latest) ≡ false)
      × ((epoch : ℕ) → latest < epoch → grants_for_repo_epoch s repo_id epoch ≡ [])
unfolding latest_epoch grants_for_repo_epoch
latest_epoch-eq-some s repo_id latest h = (
  found_latest repo_id latest s.grants h,
  λ epoch above. nothing_later repo_id epoch s.grants (λ most e. ground arith),
)
