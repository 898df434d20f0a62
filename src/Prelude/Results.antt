-- ===== src/Prelude/Results.antt =====
-- `Result`, with the chaining of `?`.
use mathlib.Core.Path.{◌≡◌, refl}
use mathlib.Core.Logic.{◌⊎◌, inl, inr}

pub data Result (E A : Type 0) : Type 0 where
  ok : A → Result E A
  err : E → Result E A

module _ {E A : Type 0} where
  pub Result-cases : (r : Result E A) → ((a : A) × (r ≡ ok a)) ⊎ ((e : E) × (r ≡ err e))
  Result-cases (ok a) = inl (a, refl)
  Result-cases (err e) = inr (e, refl)

  pub ok_inj : {x y : A} → Path (Result E A) (ok x) (ok y) → x ≡ y
  ok_inj e = cc

abbrev pub and_then : {E A B : Type 0} → Result E A → (A → Result E B) → Result E B
and_then (ok a) f = f a
and_then (err e) f = err e

-- A chain that ends well was well at every step.
pub and_then-ok :
    {E A B : Type 0} (r : Result E A) (f : A → Result E B) (z : B)
    → and_then r f ≡ ok z
    → (a : A) × (r ≡ ok a) × (f a ≡ ok z)
and_then-ok (ok a) f z e = (a, refl, e)
and_then-ok (err x) f z e = cc
