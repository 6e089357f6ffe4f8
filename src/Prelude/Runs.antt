-- ===== src/Prelude/Runs.antt =====
-- The result of a loop that is given fuel.
use mathlib.Core.Path.{◌≡◌, refl}

-- `out_of_fuel` is no behaviour of the program: theorems show that it is never met.
pub data Run {ℓ} (A : Type ℓ) : Type ℓ where
  done : A → Run A
  out_of_fuel : Run A

-- The loop ends, with a result that satisfies `P`.
abbrev pub Returns {ℓ} : {A : Type ℓ} → Run A → (A → Type 0) → Type 0
Returns (done a) P = P a
Returns out_of_fuel P = ⊥

infixl 5 ◌>>=◌
abbrev pub ◌>>=◌ {ℓ κ} : {A : Type ℓ} {B : Type κ} → Run A → (A → Run B) → Run B
done a >>= f = f a
out_of_fuel >>= f = out_of_fuel

-- Inversion of a run that ends.
pub >>=-eq-done {ℓ κ} :
    {A : Type ℓ} {B : Type κ} (m : Run A) (k : A → Run B) {b : B}
    → (m >>= k) ≡ done b
    → (a : A) × (m ≡ done a) × (k a ≡ done b)
>>=-eq-done (done a) k h = (a, refl, h)
>>=-eq-done out_of_fuel k h = absurd (cc)

pub Returns-weaken {ℓ} :
    {A : Type ℓ} (r : Run A) (P Q : A → Type 0) → Returns r P → ((a : A) → P a → Q a) → Returns r Q
Returns-weaken (done a) P Q h k = k a h
Returns-weaken out_of_fuel P Q h k = h

pub Returns-bind {ℓ κ} :
    {A : Type ℓ} {B : Type κ} (r : Run A) (k : A → Run B) (P : A → Type 0) (Q : B → Type 0)
    → Returns r P
    → ((a : A) → P a → Returns (k a) Q)
    → Returns (r >>= k) Q
Returns-bind (done a) k P Q h next = next a h
Returns-bind out_of_fuel k P Q h next = h

pub Returns-done {ℓ} :
    {A : Type ℓ} (r : Run A) (P : A → Type 0) → Returns r P → (a : A) × (r ≡ done a) × P a
Returns-done (done a) P h = (a, refl, h)
Returns-done out_of_fuel P h = absurd h
