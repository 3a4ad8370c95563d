-- ===== src/Prelude/Results.antt =====
-- What a Go function does: it returns a value, it returns an error, or it panics. `exhausted` is
-- the model's own: a loop on fuel has run out of it.
use mathlib.Core.Path.{◌≡◌, refl}
use mathlib.Core.Bool.{Bool, true, false}
use kumolo.Prelude.Tests.{if◌then◌else◌}

pub data Result {ℓ} (E : Type 0) (A : Type ℓ) : Type ℓ where
  ok : A → Result E A
  err : E → Result E A
  panic : Result E A
  exhausted : Result E A

infixl 5 ◌>>=◌ ◌>>◌
abbrev pub ◌>>=◌ {ℓ κ} :
    {E : Type 0} {A : Type ℓ} {B : Type κ} → Result E A → (A → Result E B) → Result E B
ok a >>= f = f a
err e >>= f = err e
panic >>= f = panic
exhausted >>= f = exhausted

abbrev pub ◌>>◌ {ℓ} : {E : Type 0} {B : Type ℓ} → Result E (Unit {0}) → Result E B → Result E B
m >> k = m >>= λ _. k

abbrev pub guard : {E : Type 0} → Bool → E → Result E (Unit {0})
guard true e = ok tt
guard false e = err e

-- The call returns a value of which `P` holds, or an error of which `Q` holds: it neither panics
-- nor runs out of fuel.
abbrev pub Returns {ℓ} :
    {E : Type 0} {A : Type ℓ} → (A → Type 0) → (E → Type 0) → Result E A → Type 0
Returns P Q (ok a) = P a
Returns P Q (err e) = Q e
Returns P Q panic = ⊥
Returns P Q exhausted = ⊥

pub Returns-bind {ℓ κ} :
    {E : Type 0} {A : Type ℓ} {B : Type κ} (P : A → Type 0) (R : B → Type 0) (Q : E → Type 0)
    (m : Result E A) (f : A → Result E B)
    → Returns P Q m
    → ((a : A) → P a → Returns R Q (f a))
    → Returns R Q (m >>= f)
Returns-bind P R Q (ok a) f h k = k a h
Returns-bind P R Q (err e) f h k = h
Returns-bind P R Q panic f h k = h
Returns-bind P R Q exhausted f h k = h

pub Returns-if {ℓ} :
    {E : Type 0} {A : Type ℓ} (P : A → Type 0) (Q : E → Type 0) (b : Bool) (x y : Result E A)
    → (b ≡ true → Returns P Q x)
    → (b ≡ false → Returns P Q y)
    → Returns P Q (if b then x else y)
Returns-if P Q true x y hx hy = hx refl
Returns-if P Q false x y hx hy = hy refl

-- The errors of a result may be widened.
pub Returns-err {ℓ} :
    {E : Type 0} {A : Type ℓ} (P : A → Type 0) (Q R : E → Type 0) (m : Result E A)
    → ((e : E) → Q e → R e)
    → Returns P Q m
    → Returns P R m
Returns-err P Q R (ok a) f h = h
Returns-err P Q R (err e) f h = f e h
Returns-err P Q R panic f h = h
Returns-err P Q R exhausted f h = h

-- A bind that returns has parts that return.
pub bind-eq-ok {ℓ κ} :
    {E : Type 0} {A : Type ℓ} {B : Type κ} (m : Result E A) (f : A → Result E B) {b : B}
    → (m >>= f) ≡ ok b
    → (a : A) × (m ≡ ok a) × (f a ≡ ok b)
bind-eq-ok (ok a) f h = (a, refl, h)
bind-eq-ok (err e) f h = cc
bind-eq-ok panic f h = cc
bind-eq-ok exhausted f h = cc
