-- ===== src/Module/Results.antt =====
-- Facts on `Result`: what a chain of calls returned when it returned a value.
use blackstart.Prelude.{Bool, true, false, if◌then◌else◌, ◌≡◌, refl, ap, ◌⊎◌, inl, inr}
use blackstart.Module.{Error, Result, ok, err, ◌>>=◌}

abbrev from_ok : {A : Type 0} → A → Result A → A
from_ok a (err e) = a
from_ok a (ok b) = b

pub ok-inj : {A : Type 0} {a b : A} → ok a ≡ ok b → a ≡ b
ok-inj {a = a} h = ap (from_ok a) h

pub Result-cases :
    {A : Type 0} (r : Result A) → ((e : Error) × (r ≡ err e)) ⊎ ((a : A) × (r ≡ ok a))
Result-cases (err e) = inl (e, refl)
Result-cases (ok a) = inr (a, refl)

pub bind-ok :
    {A B : Type 0} (r : Result A) (next : A → Result B) (b : B)
    → (r >>= next) ≡ ok b
    → (a : A) × (r ≡ ok a) × (next a ≡ ok b)
bind-ok (err e) next b h = cc
bind-ok (ok a) next b h = (a, refl, h)

-- Every value that the result can be has the property.
abbrev pub Always : {A : Type 0} → (A → Type 0) → Result A → Type 0
Always {A = A} P r = (a : A) → r ≡ ok a → P a

pub bind-Always :
    {A B : Type 0} (P : B → Type 0) (r : Result A) (next : A → Result B)
    → ((a : A) → Always P (next a))
    → Always P (r >>= next)
bind-Always P (err e) next step b h = cc
bind-Always P (ok a) next step b h = step a b h

pub if-ok :
    {A : Type 0} (test : Bool) (e : Error) (r : Result A) (a : A)
    → (if test then err e else r) ≡ ok a
    → (test ≡ false) × (r ≡ ok a)
if-ok true e r a h = cc
if-ok false e r a h = (refl, h)

pub if-ok_then :
    {A : Type 0} (test : Bool) (e : Error) (r : Result A) (a : A)
    → (if test then r else err e) ≡ ok a
    → (test ≡ true) × (r ≡ ok a)
if-ok_then true e r a h = (refl, h)
if-ok_then false e r a h = cc
