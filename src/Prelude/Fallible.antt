-- ===== src/Prelude/Fallible.antt =====
-- Rust's `Result`, its `?` as the bind of a do block, and `ok_or`.
use mathlib.Core.Path.{◌≡◌, refl}
use mathlib.Core.Logic.{◌≢◌, ◌⊎◌, inl, inr}
use mathlib.Core.Bool.{Bool, true, false, not}
use mathlib.Core.Option.{Option, none, some}

pub data Result {ℓ κ} (E : Type ℓ) (A : Type κ) : Type (ℓ ⊔ κ) where
  ok : A → Result E A
  err : E → Result E A

infixl 5 ◌>>=◌ ◌>>◌
abbrev pub ◌>>=◌ {ℓ κ μ} :
    {E : Type ℓ} {A : Type κ} {B : Type μ} → Result E A → (A → Result E B) → Result E B
ok a >>= f = f a
err e >>= f = err e

abbrev pub ◌>>◌ {ℓ κ μ} :
    {E : Type ℓ} {A : Type κ} {B : Type μ} → Result E A → Result E B → Result E B
m >> k = m >>= λ _. k

abbrev pub ok_or {ℓ κ} : {E : Type ℓ} {A : Type κ} → Option A → E → Result E A
ok_or none e = err e
ok_or (some a) e = ok a

-- `if test { return Err(e) }`.
abbrev pub fail_if {ℓ} : {E : Type ℓ} → Bool → E → Result E (Unit {0})
fail_if true e = err e
fail_if false e = ok tt

abbrev pub map_err {ℓ κ μ} :
    {E : Type ℓ} {F : Type κ} {A : Type μ} → Result E A → (E → F) → Result F A
map_err (ok a) f = ok a
map_err (err e) f = err (f e)

-- A chain of `?` that succeeds has succeeded at its first step.
pub >>=-eq-ok {ℓ κ μ} :
    {E : Type ℓ} {A : Type κ} {B : Type μ} (first : Result E A) (rest : A → Result E B) {out : B}
    → (first >>= rest) ≡ ok out
    → (a : A) × (first ≡ ok a) × (rest a ≡ ok out)
>>=-eq-ok (err e) rest done = cc
>>=-eq-ok (ok a) rest done = (a, refl, done)

module _ {ℓ κ} {E : Type ℓ} {A : Type κ} where
  pub ok-injective : {a b : A} → ◌≡◌ {A = Result E A} (ok a) (ok b) → a ≡ b
  ok-injective h = cc

  pub Result-cases : (r : Result E A) → ((a : A) × (r ≡ ok a)) ⊎ ((e : E) × (r ≡ err e))
  Result-cases (ok a) = inl (a, refl)
  Result-cases (err e) = inr (e, refl)

-- What is behind a test runs only when the test fails.
pub fail_if-eq-ok {ℓ κ} :
    {E : Type ℓ} {A : Type κ} (test : Bool) (e : E) (rest : Result E A) {out : A}
    → (fail_if test e >> rest) ≡ ok out
    → (test ≡ false) × (rest ≡ ok out)
fail_if-eq-ok true e rest done = cc
fail_if-eq-ok false e rest done = (refl, done)

pub ok_or-eq-ok {ℓ κ} :
    {E : Type ℓ} {A : Type κ} (o : Option A) (e : E) {a : A}
    → ◌≡◌ {A = Result E A} (ok_or o e) (ok a)
    → o ≡ some a
ok_or-eq-ok none e h = cc
ok_or-eq-ok (some a) e h = cc

-- The result is a value, or the error `bad`.
abbrev pub FailsOnly {ℓ κ} : {E : Type ℓ} {A : Type κ} → E → Result E A → Type (ℓ ⊔ κ)
FailsOnly {E = E} bad r = (e : E) → r ≡ err e → e ≡ bad

module _ {ℓ κ μ} {E : Type ℓ} {A : Type κ} {B : Type μ} where
  pub >>=-FailsOnly :
      (bad : E) (first : Result E A) (rest : A → Result E B)
      → FailsOnly bad first
      → ((a : A) → first ≡ ok a → FailsOnly bad (rest a))
      → FailsOnly bad (first >>= rest)
  >>=-FailsOnly bad (ok a) rest h k e done = k a refl e done
  >>=-FailsOnly bad (err c) rest h k e done = h e cc

pub fail_if-FailsOnly {ℓ} : {E : Type ℓ} (test : Bool) (bad : E) → FailsOnly bad (fail_if test bad)
fail_if-FailsOnly true bad e h = cc
fail_if-FailsOnly false bad e h = cc

pub ok_or-FailsOnly {ℓ κ} :
    {E : Type ℓ} {A : Type κ} (o : Option A) (bad : E) → FailsOnly bad (ok_or o bad)
ok_or-FailsOnly none bad e h = cc
ok_or-FailsOnly (some a) bad e h = cc

module _ {ℓ κ μ} {E : Type ℓ} {A : Type κ} {B : Type μ} where
  -- An error that no step makes.
  pub >>=-avoids :
      (bad : E) (first : Result E A) (rest : A → Result E B)
      → first ≢ err bad
      → ((a : A) → rest a ≢ err bad)
      → (first >>= rest) ≢ err bad
  >>=-avoids bad (ok a) rest h k e = k a e
  >>=-avoids bad (err c) rest h k e = h cc

-- A test that must hold.
pub require-eq-ok {ℓ κ} :
    {E : Type ℓ} {A : Type κ} (test : Bool) (e : E) (rest : Result E A) {out : A}
    → (fail_if (not test) e >> rest) ≡ ok out
    → (test ≡ true) × (rest ≡ ok out)
require-eq-ok true e rest done = (refl, done)
require-eq-ok false e rest done = cc

pub map_err-eq-ok {ℓ κ μ} :
    {E : Type ℓ} {F : Type κ} {A : Type μ} (r : Result E A) (f : E → F) {a : A}
    → map_err r f ≡ ok a
    → r ≡ ok a
map_err-eq-ok (ok a) f h = cc
map_err-eq-ok (err e) f h = cc
