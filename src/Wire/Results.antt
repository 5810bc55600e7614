-- ===== src/Wire/Results.antt =====
-- include/srnp/wire.h: what is returned, or thrown.
use srnp.Base.{◌≡◌, ◌≢◌, ◌⊎◌, inl, inr, refl}
use srnp.Wire.{Error, Result, ok, err}

pub Result-cases {ℓ} :
    {A : Type ℓ} (r : Result A) → ((e : Error) × (r ≡ err e)) ⊎ (a : A) × (r ≡ ok a)
Result-cases (err e) = inl (e, refl)
Result-cases (ok a) = inr (a, refl)

pub ok_injective {ℓ} : {A : Type ℓ} {a b : A} → Result.ok a ≡ ok b → a ≡ b
ok_injective e = cc

pub err_ok {ℓ} : {A : Type ℓ} {e : Error} {a : A} → Result.err e ≢ ok a
err_ok h = cc
