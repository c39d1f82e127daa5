-- ===== src/Prelude/Results.antt =====
-- Go's pair of a value and an error, of which a caller uses the one or the other.
use mathlib.Core.Path.{◌≡◌, refl, ap}
use mathlib.Core.Bool.{Bool, true, false}
use mathlib.Core.Logic.{◌⊎◌, inl, inr, ite}

pub data Result {ℓ} (E A : Type ℓ) : Type ℓ where
  ok : A → Result E A
  err : E → Result E A

infixl 5 ◌>>=◌ ◌>>◌
abbrev pub ◌>>=◌ {ℓ} : {E A B : Type ℓ} → Result E A → (A → Result E B) → Result E B
ok a >>= f = f a
err e >>= f = err e

abbrev pub ◌>>◌ {ℓ} : {E B : Type ℓ} → Result E (Unit {ℓ}) → Result E B → Result E B
m >> k = m >>= λ _. k

-- `if bad { return err }`.
abbrev pub fail_if {ℓ} : {E : Type ℓ} → Bool → E → Result E (Unit {ℓ})
fail_if true e = err e
fail_if false e = ok tt

pub Result-cases {ℓ} :
    {E A : Type ℓ} (r : Result E A) → ((a : A) × (r ≡ ok a)) ⊎ ((e : E) × (r ≡ err e))
Result-cases (ok a) = inl (a, refl)
Result-cases (err e) = inr (e, refl)

pub ite-bind {ℓ κ} :
    {P : Type κ} {E A B : Type ℓ} (d : Dec P) (x y : Result E A) (f : A → Result E B)
    → (ite d x y >>= f) ≡ ite d (x >>= f) (y >>= f)
ite-bind (yes p) x y f = refl
ite-bind (no n) x y f = refl

-- What a successful step and a passed check leave behind.
pub >>=_inv {ℓ} :
    {E A B : Type ℓ} (m : Result E A) (f : A → Result E B) (b : B)
    → (m >>= f) ≡ ok b
    → (a : A) × (m ≡ ok a) × (f a ≡ ok b)
>>=_inv (ok a) f b h = (a, refl, h)
>>=_inv (err e) f b h = cc

pub fail_if_inv {ℓ} :
    {E B : Type ℓ} (t : Bool) (e : E) (m : Result E B) (b : B)
    → (fail_if t e >> m) ≡ ok b
    → (t ≡ false) × (m ≡ ok b)
fail_if_inv true e m b h = cc
fail_if_inv false e m b h = (refl, h)

pub ok_inv : {E A : Type 0} (x y : A) → ◌≡◌ {A = Result E A} (ok x) (ok y) → x ≡ y
ok_inv x y e = ap (λ r. elim r [ ok z ↦ z | err _ ↦ x ]) e
