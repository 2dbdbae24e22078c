-- ===== src/Base/Outcome.antt =====
-- What Go returns as a pair of a value and an error: one of the two.
use mathlib.Core.Path.{◌≡◌, refl}
use mathlib.Core.Bool.{Bool, true, false}

pub data Result {ℓ κ} (E : Type ℓ) (A : Type κ) : Type (ℓ ⊔ κ) where
  done : A → Result E A
  fails : E → Result E A

infixl 5 ◌>>=◌ ◌>>◌
abbrev pub ◌>>=◌ {ℓ κ μ} :
    {E : Type ℓ} {A : Type κ} {B : Type μ} → Result E A → (A → Result E B) → Result E B
done a >>= f = f a
fails e >>= f = fails e

abbrev pub ◌>>◌ {ℓ κ} : {E : Type ℓ} {B : Type κ} → Result E (Unit {0}) → Result E B → Result E B
m >> k = m >>= λ _. k

-- `if !ok { return e }`
abbrev pub require {ℓ} : {E : Type ℓ} → Bool → E → Result E (Unit {0})
require true e = done tt
require false e = fails e

-- A value that is returned has the property.
abbrev pub Ensures {ℓ κ μ} : {E : Type ℓ} {A : Type κ} → (A → Type μ) → Result E A → Type μ
Ensures P (done a) = P a
Ensures P (fails e) = Unit

pub Ensures-bind {ℓ κ μ ν} :
    {E : Type ℓ} {A : Type κ} {B : Type μ} (P : A → Type ν) (Q : B → Type ν) (m : Result E A)
    (f : A → Result E B)
    → Ensures P m
    → ((a : A) → P a → Ensures Q (f a))
    → Ensures Q (m >>= f)
Ensures-bind P Q (done a) f h k = k a h
Ensures-bind P Q (fails e) f h k = tt

pub Ensures-require {ℓ} : {E : Type ℓ} (b : Bool) (e : E) → Ensures (λ _. b ≡ true) (require b e)
Ensures-require true e = refl
Ensures-require false e = tt

pub Ensures-eq {ℓ κ} : {E : Type ℓ} {A : Type κ} (m : Result E A) → Ensures (λ a. m ≡ done a) m
Ensures-eq (done a) = refl
Ensures-eq (fails e) = tt
