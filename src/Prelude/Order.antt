-- ===== src/Prelude/Order.antt =====
-- Rust's `Ord` as an interface: a three-way comparison with its laws. Equality is read off it.
use Prim.Native.Nat.{ℕ, compare, Ordering}
use Prim.Native.Nat.Ordering.{lt, eq, gt}
use mathlib.Core.Path.{◌≡◌, refl, ap}
use mathlib.Core.Bool.{Bool, true, false}
use mathlib.Core.Option.{Option, none, some}
use mathlib.Core.List.{List, [], ◌∷◌}
use native.Mathlib.Omega.{arith}

abbrev pub flip : Ordering → Ordering
flip lt = gt
flip eq = eq
flip gt = lt

pub record Ord {ℓ} (K : Type ℓ) : Type ℓ where
  pub cmp : K → K → Ordering
  pub cmp_self : (a : K) → cmp a a ≡ eq
  pub eq_of_cmp : (a b : K) → cmp a b ≡ eq → a ≡ b
  pub cmp_flip : (a b : K) → cmp b a ≡ flip (cmp a b)
  pub cmp_trans : (a b c : K) → cmp a b ≡ lt → cmp b c ≡ lt → cmp a c ≡ lt

abbrev is_eq : Ordering → Bool
is_eq lt = false
is_eq eq = true
is_eq gt = false

infix 50 ◌==◌
abbrev pub ◌==◌ {ℓ} : {K : Type ℓ} ⦃o : Ord K⦄ → K → K → Bool
◌==◌ ⦃o⦄ a b = is_eq (o.cmp a b)

module _ {ℓ} {K : Type ℓ} ⦃o : Ord K⦄ where
  pub ==_self : (a : K) → (a == a) ≡ true
  ==_self a = rw (o.cmp_self a)

  pub ==→eq : (a b : K) → (a == b) ≡ true → a ≡ b
  ==→eq a b h = ground (arith, o.eq_of_cmp a b)

-- Lexicographic composition.
abbrev pub then_with : Ordering → Ordering → Ordering
then_with lt second = lt
then_with eq second = second
then_with gt second = gt

pub nat_cmp_trans : (a b c : ℕ) → compare a b ≡ lt → compare b c ≡ lt → compare a c ≡ lt
nat_cmp_trans a b c p q = ground arith

pub nat_cmp_flip : (a b : ℕ) → compare b a ≡ flip (compare a b)
nat_cmp_flip a b = ground arith

pub nat_cmp_self : (a : ℕ) → compare a a ≡ eq
nat_cmp_self a = ground arith

pub nat_eq_of_cmp : (a b : ℕ) → compare a b ≡ eq → a ≡ b
nat_eq_of_cmp a b h = ground arith

instance abbrev pub nat_ord : Ord ℕ
nat_ord = record {
  cmp = compare;
  cmp_self = nat_cmp_self;
  eq_of_cmp = nat_eq_of_cmp;
  cmp_flip = nat_cmp_flip;
  cmp_trans = nat_cmp_trans;
}

module _ {ℓ} {A : Type ℓ} ⦃o : Ord A⦄ where
  abbrev pub list_cmp : List A → List A → Ordering
  list_cmp [] [] = eq
  list_cmp [] (y ∷ ys) = lt
  list_cmp (x ∷ xs) [] = gt
  list_cmp (x ∷ xs) (y ∷ ys) = then_with (o.cmp x y) (list_cmp xs ys)

  pub list_cmp_self : (xs : List A) → list_cmp xs xs ≡ eq
  list_cmp_self [] = refl
  list_cmp_self (x ∷ xs) = rw (o.cmp_self x) (list_cmp_self xs)

  pub list_eq_of_cmp : (xs ys : List A) → list_cmp xs ys ≡ eq → xs ≡ ys
  list_eq_of_cmp [] [] h = refl
  list_eq_of_cmp [] (y ∷ ys) h = cc
  list_eq_of_cmp (x ∷ xs) [] h = cc
  list_eq_of_cmp (x ∷ xs) (y ∷ ys) h = ground (arith, o.eq_of_cmp x y, list_eq_of_cmp xs ys)

  pub list_cmp-flip : (xs ys : List A) → list_cmp ys xs ≡ flip (list_cmp xs ys)
  list_cmp-flip [] [] = refl
  list_cmp-flip [] (y ∷ ys) = refl
  list_cmp-flip (x ∷ xs) [] = refl
  list_cmp-flip (x ∷ xs) (y ∷ ys) = ground (arith, o.cmp_flip x y, list_cmp-flip xs ys)

  pub list_cmp_trans :
      (xs ys zs : List A) → list_cmp xs ys ≡ lt → list_cmp ys zs ≡ lt → list_cmp xs zs ≡ lt
  list_cmp_trans [] ys [] p q = ground arith
  list_cmp_trans [] ys (z ∷ zs) p q = refl
  list_cmp_trans (x ∷ xs) [] zs p q = cc
  list_cmp_trans (x ∷ xs) (y ∷ ys) [] p q = cc
  list_cmp_trans (x ∷ xs) (y ∷ ys) (z ∷ zs) p q = grind (
    arith,
    o.cmp_trans x y z,
    o.eq_of_cmp x y,
    o.eq_of_cmp y z,
    o.cmp_self y,
    list_cmp_trans xs ys zs,
  )

  instance abbrev pub list_ord : Ord (List A)
  list_ord = record {
    cmp = list_cmp;
    cmp_self = list_cmp_self;
    eq_of_cmp = list_eq_of_cmp;
    cmp_flip = list_cmp-flip;
    cmp_trans = list_cmp_trans;
  }

module _ {ℓ} {A : Type ℓ} ⦃o : Ord A⦄ where
  -- `None` comes first.
  abbrev pub option_cmp : Option A → Option A → Ordering
  option_cmp none none = eq
  option_cmp none (some y) = lt
  option_cmp (some x) none = gt
  option_cmp (some x) (some y) = o.cmp x y

  pub option_cmp_self : (x : Option A) → option_cmp x x ≡ eq
  option_cmp_self none = refl
  option_cmp_self (some x) = o.cmp_self x

  pub option_eq_of_cmp : (x y : Option A) → option_cmp x y ≡ eq → x ≡ y
  option_eq_of_cmp (some x) (some y) h = ap some (o.eq_of_cmp x y h)
  option_eq_of_cmp none none h = refl
  option_eq_of_cmp none (some y) h = cc
  option_eq_of_cmp (some x) none h = cc

  pub option_cmp-flip : (x y : Option A) → option_cmp y x ≡ flip (option_cmp x y)
  option_cmp-flip (some x) (some y) = o.cmp_flip x y
  option_cmp-flip none none = refl
  option_cmp-flip none (some y) = refl
  option_cmp-flip (some x) none = refl

  pub option_cmp_trans :
      (x y z : Option A) → option_cmp x y ≡ lt → option_cmp y z ≡ lt → option_cmp x z ≡ lt
  option_cmp_trans (some x) (some y) (some z) p q = o.cmp_trans x y z p q
  option_cmp_trans none _ none p q = ground (arith, p, q)
  option_cmp_trans none _ (some z) p q = refl
  option_cmp_trans (some x) none z p q = cc
  option_cmp_trans (some x) (some y) none p q = cc

  instance abbrev pub option_ord : Ord (Option A)
  option_ord = record {
    cmp = option_cmp;
    cmp_self = option_cmp_self;
    eq_of_cmp = option_eq_of_cmp;
    cmp_flip = option_cmp-flip;
    cmp_trans = option_cmp_trans;
  }

module _ {ℓ κ} {A : Type ℓ} {B : Type κ} ⦃o : Ord A⦄ ⦃u : Ord B⦄ where
  abbrev pub pair_cmp : A × B → A × B → Ordering
  pair_cmp x y = then_with (o.cmp x.0 y.0) (u.cmp x.1 y.1)

  pub pair_cmp_self : (x : A × B) → pair_cmp x x ≡ eq
  pair_cmp_self x = rw (o.cmp_self x.0) (u.cmp_self x.1)

  pub pair_eq_of_cmp : (x y : A × B) → pair_cmp x y ≡ eq → x ≡ y
  pair_eq_of_cmp x y h = ground (arith, o.eq_of_cmp x.0 y.0, u.eq_of_cmp x.1 y.1)

  pub pair_cmp-flip : (x y : A × B) → pair_cmp y x ≡ flip (pair_cmp x y)
  pair_cmp-flip x y = ground (arith, o.cmp_flip x.0 y.0, u.cmp_flip x.1 y.1)

  pub pair_cmp_trans : (x y z : A × B) → pair_cmp x y ≡ lt → pair_cmp y z ≡ lt → pair_cmp x z ≡ lt
  pair_cmp_trans x y z p q = grind (
    arith,
    o.cmp_trans x.0 y.0 z.0,
    o.eq_of_cmp x.0 y.0,
    o.eq_of_cmp y.0 z.0,
    o.cmp_self y.0,
    u.cmp_trans x.1 y.1 z.1,
  )

  instance abbrev pub pair_ord : Ord (A × B)
  pair_ord = record {
    cmp = pair_cmp;
    cmp_self = pair_cmp_self;
    eq_of_cmp = pair_eq_of_cmp;
    cmp_flip = pair_cmp-flip;
    cmp_trans = pair_cmp_trans;
  }

-- The order of a type that is read through an injective key.
module _ {ℓ κ} {A : Type ℓ} {B : Type κ} ⦃o : Ord B⦄ (key : A → B)
    (key_injective : (x y : A) → key x ≡ key y → x ≡ y) where
  abbrev pub ord_by : Ord A
  ord_by = record {
    cmp = λ x y. o.cmp (key x) (key y);
    cmp_self = λ x. o.cmp_self (key x);
    eq_of_cmp = λ x y h. key_injective x y (o.eq_of_cmp (key x) (key y) h);
    cmp_flip = λ x y. o.cmp_flip (key x) (key y);
    cmp_trans = λ x y z. o.cmp_trans (key x) (key y) (key z);
  }
