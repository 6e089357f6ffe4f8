-- ===== src/Prelude/Results.antt =====
-- A value, or the error that a function raises.
use mathlib.Core.Path.{◌≡◌, refl}

pub data Result {ℓ κ} (E : Type ℓ) (A : Type κ) : Type (ℓ ⊔ κ) where
  ok : A → Result E A
  error : E → Result E A

abbrev pub and_then {ℓ κ μ} :
    {E : Type ℓ} {A : Type κ} {B : Type μ} → Result E A → (A → Result E B) → Result E B
and_then (ok a) f = f a
and_then (error e) f = error e

-- Inversion of a chain that succeeds.
pub and_then-eq-ok {ℓ κ μ} :
    {E : Type ℓ} {A : Type κ} {B : Type μ} (r : Result E A) (f : A → Result E B) {b : B}
    → and_then r f ≡ ok b
    → (a : A) × (r ≡ ok a) × (f a ≡ ok b)
and_then-eq-ok (ok a) f h = (a, refl, h)
and_then-eq-ok (error e) f h = absurd (cc)

-- What the result is, if it is no error.
abbrev pub Holds {ℓ κ} : {E : Type ℓ} {A : Type κ} → Result E A → (A → Type 0) → Type 0
Holds (ok a) P = P a
Holds (error e) P = Unit

pub Holds-and_then {ℓ κ μ} :
    {E : Type ℓ} {A : Type κ} {B : Type μ} (r : Result E A) (f : A → Result E B) (P : A → Type 0)
    (Q : B → Type 0)
    → Holds r P
    → ((a : A) → P a → Holds (f a) Q)
    → Holds (and_then r f) Q
Holds-and_then (ok a) f P Q h k = k a h
Holds-and_then (error e) f P Q h k = tt
