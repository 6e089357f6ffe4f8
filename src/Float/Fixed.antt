-- ===== src/Float/Fixed.antt =====
-- Numbers in hundredths, with an extra value for NaN: they meet the laws of `IsOrdered`, so that
-- the theorems that suppose these can be applied. The code's own numbers are not these.
use pika_pika.Prelude.{
  ℕ, ◌+◌, ◌*◌, ◌/◌, ◌^◌, Bool, true, false, Option, none, some, List, [], ◌∷◌, arith,
}
use pika_pika.Prelude.Int.{ℤ, pos, negsuc, pos_part, neg_part, sub_ℕ, leb_ℤ, ltb_ℤ}
use pika_pika.Float.{Float, IsOrdered}

abbrev pub Fixed : Type 0
Fixed = Option ℤ

abbrev lift2 : (ℤ → ℤ → ℤ) → Fixed → Fixed → Fixed
lift2 f (some a) (some b) = some (f a b)
lift2 f _ _ = none

abbrev compare_by : (ℤ → ℤ → Bool) → Fixed → Fixed → Bool
compare_by f (some a) (some b) = f a b
compare_by f _ _ = false

abbrev sum : ℤ → ℤ → ℤ
sum a b = sub_ℕ (pos_part a + pos_part b) (neg_part a + neg_part b)

abbrev difference : ℤ → ℤ → ℤ
difference a b = sub_ℕ (pos_part a + neg_part b) (neg_part a + pos_part b)

-- The quotient and the product keep the sign and drop what is below a hundredth.
abbrev magnitude : ℤ → ℕ
magnitude a = pos_part a + neg_part a

abbrev signed : ℤ → ℤ → ℕ → ℤ
signed (pos a) (pos b) m = pos m
signed (negsuc a) (negsuc b) m = pos m
signed _ _ m = sub_ℕ 0 m

abbrev times : ℤ → ℤ → ℤ
times a b = signed a b (magnitude a * magnitude b / 100)

abbrev quotient : ℤ → ℤ → ℤ
quotient a b = signed a b (magnitude a * 100 / magnitude b)

abbrev size : Fixed → Fixed
size (some a) = some (pos (magnitude a))
size none = none

abbrev total : List Fixed → Fixed
total [] = some (pos 0)
total (x ∷ xs) = lift2 sum x (total xs)

abbrev whole : Fixed → ℤ
whole none = pos 0
whole (some a) = signed a (pos 1) (magnitude a / 100)

-- A stand-in for the decoding of four bytes: hundredths, lowest byte first.
abbrev from_bytes : List ℕ → ℕ
from_bytes [] = 0
from_bytes (b ∷ bs) = b + 256 * from_bytes bs

abbrev is_number : Fixed → Bool
is_number none = false
is_number (some a) = true

instance abbrev pub fixed_float : Float Fixed
fixed_float = record {
  of_int = λ n. some (signed n (pos 1) (magnitude n * 100));
  decimal = λ m k. some (pos (m * 100 / 10 ^ k));
  add = lift2 sum;
  sub = lift2 difference;
  mul = lift2 times;
  div = lift2 quotient;
  abs = size;
  sqrt = λ x. x;
  round = λ x k. x;
  sum = total;
  trunc = whole;
  nearest = whole;
  float32 = λ bs. some (pos (from_bytes bs));
  is_finite = is_number;
  le = compare_by leb_ℤ;
  lt = compare_by ltb_ℤ;
}

pub Fixed-IsOrdered : IsOrdered Fixed
Fixed-IsOrdered = ground arith
