-- ===== src/Git/Pack/Resolve/Fresh.antt =====
-- The entries of a pack that are still to be resolved, and how calls use them up.
use git_mesh.Prelude.{
  ℕ, zero, suc, ◌≡◌, ◌≤◌, ◌<◌, refl, ap, arith, Bool, true, false, Option, none, some, List, [],
  ◌∷◌, get_elem?, set, replicate, ok, err,
}
use git_mesh.Prelude.Order.{nat_ord}
use git_mesh.Git.Oid.{oid_ord}
use git_mesh.Git.Object.{GitObject}
use git_mesh.Git.Pack.Resolve.{Resolving, Outcome, keep, mark}

-- The entries that are neither resolved nor being resolved.
abbrev pub fresh_of : List (Option GitObject) → List Bool → ℕ
fresh_of [] bs = 0
fresh_of (r ∷ rs) [] = 0
fresh_of (none ∷ rs) (false ∷ bs) = suc (fresh_of rs bs)
fresh_of (none ∷ rs) (true ∷ bs) = fresh_of rs bs
fresh_of (some o ∷ rs) (b ∷ bs) = fresh_of rs bs

abbrev pub fresh : Resolving → ℕ
fresh s = fresh_of s.resolved s.resolving

fresh_of_mark :
    (rs : List (Option GitObject)) (bs : List Bool) (i : ℕ)
    → get_elem? rs i ≡ some none
    → get_elem? bs i ≡ some false
    → suc (fresh_of rs (set bs i true)) ≡ fresh_of rs bs
fresh_of_mark [] bs i h k = cc
fresh_of_mark (r ∷ rs) [] i h k = cc
fresh_of_mark (none ∷ rs) (false ∷ bs) zero h k = refl
fresh_of_mark (some o ∷ rs) (b ∷ bs) zero h k = cc
fresh_of_mark (r ∷ rs) (true ∷ bs) zero h k = cc
fresh_of_mark (none ∷ rs) (false ∷ bs) (suc i) h k = ap suc (fresh_of_mark rs bs i h k)
fresh_of_mark (none ∷ rs) (true ∷ bs) (suc i) h k = fresh_of_mark rs bs i h k
fresh_of_mark (some o ∷ rs) (b ∷ bs) (suc i) h k = fresh_of_mark rs bs i h k

fresh_of_keep :
    (rs : List (Option GitObject)) (bs : List Bool) (i : ℕ) (o : GitObject)
    → fresh_of (set rs i (some o)) (set bs i false) ≤ fresh_of rs bs
fresh_of_keep [] bs i o = omega arith
fresh_of_keep (r ∷ rs) [] zero o = omega arith
fresh_of_keep (r ∷ rs) [] (suc i) o = omega arith
fresh_of_keep (none ∷ rs) (false ∷ bs) zero o = omega arith
fresh_of_keep (none ∷ rs) (true ∷ bs) zero o = omega arith
fresh_of_keep (some p ∷ rs) (b ∷ bs) zero o = omega arith
fresh_of_keep (none ∷ rs) (false ∷ bs) (suc i) o = omega (arith, fresh_of_keep rs bs i o)
fresh_of_keep (none ∷ rs) (true ∷ bs) (suc i) o = fresh_of_keep rs bs i o
fresh_of_keep (some p ∷ rs) (b ∷ bs) (suc i) o = fresh_of_keep rs bs i o

pub fresh-keep : (i : ℕ) (out : Outcome) → fresh (keep i out).0 ≤ fresh out.0
unfolding keep
fresh-keep i (s, ok o) = fresh_of_keep s.resolved s.resolving i o
fresh-keep i (s, err e) = omega arith

pub fresh-mark :
    (s : Resolving) (i : ℕ)
    → get_elem? s.resolved i ≡ some none
    → get_elem? s.resolving i ≡ some false
    → fresh (mark i s) ≤ fresh s
unfolding mark
fresh-mark s i to_do free = omega (arith, fresh_of_mark s.resolved s.resolving i to_do free)

pub marked_low :
    (s : Resolving) (i : ℕ) {k : ℕ}
    → get_elem? s.resolved i ≡ some none
    → get_elem? s.resolving i ≡ some false
    → fresh s < suc k
    → fresh (mark i s) < k
unfolding mark
marked_low s i to_do free low = omega (arith, fresh_of_mark s.resolved s.resolving i to_do free)

pub fresh_of-replicate : (n : ℕ) → fresh_of (replicate n none) (replicate n false) ≡ n
fresh_of-replicate zero = refl
fresh_of-replicate (suc n) = ap suc (fresh_of-replicate n)
