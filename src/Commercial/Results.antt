-- ===== src/Commercial/Results.antt =====
-- A chain of results that ends well went well at every link.
use caas_lite.Prelude.{◌≡◌, refl, ◌⊎◌, inl, inr, Bool, true, false, if◌then◌else◌}
use caas_lite.Commercial.Tables.{Error, Result, ok, err, ◌>>=◌}

pub Result-cases :
    {A : Type 0} (r : Result A) → ((e : Error) × (r ≡ err e)) ⊎ ((a : A) × (r ≡ ok a))
Result-cases (ok a) = inr (a, refl)
Result-cases (err e) = inl (e, refl)

pub bind-ok :
    {A B : Type 0} (r : Result A) (f : A → Result B) (b : B)
    → (r >>= f) ≡ ok b
    → (a : A) × (r ≡ ok a) × (f a ≡ ok b)
bind-ok (ok a) f b h = (a, refl, h)
bind-ok (err e) f b h = cc

pub guarded-ok :
    {A : Type 0} (b : Bool) (e : Error) (x y : A)
    → (if b then err e else ok x) ≡ ok y
    → (b ≡ false) × (x ≡ y)
guarded-ok true e x y h = cc
guarded-ok false e x y h = (refl, cc)

pub ok-injective : {A : Type 0} {x y : A} → ok x ≡ ok y → x ≡ y
ok-injective e = cc
