-- ===== src/Float.antt =====
-- The program's floating-point numbers: any type with the operations that the code uses. What a
-- theorem needs of them is a hypothesis, `IsOrdered`, which IEEE 754 comparisons meet.
pub mod Fixed
use pika_pika.Prelude.{ℕ, ◌≡◌, ◌⊎◌, Bool, true, List, [], ◌∷◌, if◌then◌else◌}
use pika_pika.Prelude.Int.{ℤ, pos}

pub record Float (W : Type 0) : Type 0 where
  -- The nearest number to an integer, and to m / 10 ^ k (a literal such as 0.85).
  pub of_int : ℤ → W
  pub decimal : ℕ → ℕ → W
  pub add : W → W → W
  pub sub : W → W → W
  pub mul : W → W → W
  pub div : W → W → W
  pub abs : W → W
  pub sqrt : W → W
  -- `round(x, digits)`.
  pub round : W → ℕ → W
  -- `sum(xs)`, whose intermediate precision depends on the version of Python.
  pub sum : List W → W
  -- `int(x)`, of a finite number.
  pub trunc : W → ℤ
  -- `round(x)`, to an integer.
  pub nearest : W → ℤ
  -- `struct.unpack("<f", raw)` over four bytes.
  pub float32 : List ℕ → W
  pub is_finite : W → Bool
  pub le : W → W → Bool
  pub lt : W → W → Bool

module _ {W : Type 0} ⦃fl : Float W⦄ where
  -- A comparison with NaN, also its own, is false.
  abbrev pub IsNumber : W → Type 0
  IsNumber a = fl.le a a ≡ true

  abbrev pub AreNumbers : W → W → Type 0
  AreNumbers a b = IsNumber a × IsNumber b

-- Away from NaN the two comparisons are those of a total order.
pub record IsOrdered (W : Type 0) ⦃fl : Float W⦄ : Type 0 where
  pub compared : (a b : W) → fl.le a b ≡ true → AreNumbers a b
  pub le-le : (a b c : W) → fl.le a b ≡ true → fl.le b c ≡ true → fl.le a c ≡ true
  pub lt-le : (a b : W) → fl.lt a b ≡ true → fl.le a b ≡ true
  pub lt_or_le : (a b : W) → AreNumbers a b → (fl.lt a b ≡ true) ⊎ (fl.le b a ≡ true)

module _ {W : Type 0} ⦃fl : Float W⦄ where
  -- `min(xs)` and `max(xs)` over a list that starts with `best`: an earlier item wins a tie.
  unfoldable pub min_from : W → List W → W
  min_from best [] = best
  min_from best (x ∷ xs) = min_from (if fl.lt x best then x else best) xs

  unfoldable pub max_from : W → List W → W
  max_from best [] = best
  max_from best (x ∷ xs) = max_from (if fl.lt best x then x else best) xs

  abbrev pub of_nat : ℕ → W
  of_nat n = fl.of_int (pos n)
