-- ===== src/Prelude/Results.antt =====
-- Go's pair of a value and an error, where the value is meaningful only without an error.
use mathlib.Core.Path.{◌≡◌, refl, ap}
use mathlib.Core.Bool.{Bool, true, false}
use mathlib.Core.Logic.{◌⊎◌, inl, inr}
use native.Mathlib.Omega.{arith}
use mathlib.Core.Option.{Option, none, some}

pub data Result {ℓ} (E : Type 0) (A : Type ℓ) : Type ℓ where
  err : E → Result E A
  ok : A → Result E A

infixl 5 ◌>>=◌ ◌>>◌
abbrev pub ◌>>=◌ {ℓ κ} :
    {E : Type 0} {A : Type ℓ} {B : Type κ} → Result E A → (A → Result E B) → Result E B
err e >>= next = err e
ok a >>= next = next a

abbrev pub ◌>>◌ {ℓ} : {E : Type 0} {B : Type ℓ} → Result E (Unit {0}) → Result E B → Result E B
err e >> next = err e
ok u >> next = next

-- `if test { return e }`: the error is returned where the test holds.
abbrev pub fail_if : {E : Type 0} → Bool → E → Result E (Unit {0})
fail_if true e = err e
fail_if false e = ok tt

-- The error of a call, changed before it is passed on.
abbrev pub map_err {ℓ} : {E G : Type 0} {A : Type ℓ} → (E → G) → Result E A → Result G A
map_err f (ok a) = ok a
map_err f (err e) = err (f e)

-- A value that has to be there.
abbrev pub or_err {ℓ} : {E : Type 0} {A : Type ℓ} → E → Option A → Result E A
or_err e none = err e
or_err e (some a) = ok a

module _ {ℓ} {E : Type 0} {A : Type ℓ} where
  pub Result-cases : (r : Result E A) → ((a : A) × (r ≡ ok a)) ⊎ ((e : E) × (r ≡ err e))
  Result-cases (ok a) = inl (a, refl)
  Result-cases (err e) = inr (e, refl)

  -- A chain succeeds only where its head does.
  pub head_of-ok {κ} :
      {B : Type κ} {b : B} (f : A → Result E B) (r : Result E A)
      → (r >>= f) ≡ ok b
      → (a : A) × (f a ≡ ok b) × (r ≡ ok a)
  head_of-ok f (err e) h = cc
  head_of-ok f (ok a) h = (a, h, refl)

  abbrev from_ok : A → Result E A → A
  from_ok other (ok a) = a
  from_ok other (err e) = other

  pub ok_inj : (a b : A) → ◌≡◌ {A = Result E A} (ok a) (ok b) → a ≡ b
  ok_inj a b h = ap (from_ok a) h

  pub next_of-ok : (a : A) (u : Result E (Unit {0})) (r : Result E A) → (u >> r) ≡ ok a → r ≡ ok a
  next_of-ok a (err e) r h = cc
  next_of-ok a (ok u) r h = h

  pub or_err-some : (a : A) (e : E) (o : Option A) → or_err e o ≡ ok a → o ≡ some a
  or_err-some a e none h = cc
  or_err-some a e (some b) h = ap some (ok_inj b a h)

  pub map_err-ok : {G : Type 0} (a : A) (f : E → G) (r : Result E A) → map_err f r ≡ ok a → r ≡ ok a
  map_err-ok a f (err e) h = cc
  map_err-ok a f (ok b) h = ground (arith, h)
