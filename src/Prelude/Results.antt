-- ===== src/Prelude/Results.antt =====
-- Calls that may raise: a result, or the exception.
use mathlib.Core.Path.{◌≡◌, refl}
use native.Mathlib.Omega.{arith}
use mathlib.Core.Bool.{Bool, true, false}

pub data Result {ℓ} (E : Type 0) (A : Type ℓ) : Type ℓ where
  ok : A → Result E A
  err : E → Result E A

infixl 5 ◌>>=◌ ◌>>◌
abbrev pub ◌>>=◌ {ℓ κ} :
    {E : Type 0} {A : Type ℓ} {B : Type κ} → Result E A → (A → Result E B) → Result E B
ok a >>= f = f a
err e >>= f = err e

abbrev pub ◌>>◌ {ℓ} : {E : Type 0} {B : Type ℓ} → Result E (Unit {0}) → Result E B → Result E B
m >> k = m >>= λ _. k

-- `if test: raise e`
abbrev pub raise_if : {E : Type 0} → Bool → E → Result E (Unit {0})
raise_if true e = err e
raise_if false e = ok tt

abbrev pub is_ok {ℓ} : {E : Type 0} {A : Type ℓ} → Result E A → Bool
is_ok (ok a) = true
is_ok (err e) = false

-- The exceptions of one component, raised out of another.
abbrev pub map_err {ℓ} : {E F : Type 0} {A : Type ℓ} → (E → F) → Result E A → Result F A
map_err f (ok a) = ok a
map_err f (err e) = err (f e)

-- A chain that returns has passed through its first step.
pub bind-eq-ok {ℓ κ} :
    {Exc : Type 0} {A : Type ℓ} {B : Type κ} (first : Result Exc A) (rest : A → Result Exc B)
    {b : B}
    → (first >>= rest) ≡ ok b
    → (a : A) × (first ≡ ok a) × (rest a ≡ ok b)
bind-eq-ok (err x) rest returned = cc
bind-eq-ok (ok a) rest returned = (a, refl, returned)

pub ok_value {ℓ} :
    {E : Type 0} {A : Type ℓ} (m : Result E A) → is_ok m ≡ true → (a : A) × (m ≡ ok a)
ok_value (ok a) h = (a, refl)
ok_value (err e) h = cc

pub ok_unique {ℓ} :
    {Exc : Type 0} {A : Type ℓ} {r : Result Exc A} {a b : A} → r ≡ ok a → r ≡ ok b → a ≡ b
ok_unique p q = ground arith
