-- ===== src/Settings/Decimal.antt =====
-- `str` of an integer, and the value of a run of digits.
use pika_pika.Prelude.{
  ℕ, zero, suc, ◌+◌, ◌-◌, ◌*◌, ◌/◌, ◌%◌, ◌<◌, ◌++◌, ◌≡◌, refl, subst, true, false, inl, inr,
  Option-cases, some, [], ◌∷◌, ltb, if◌then◌else◌, arith, Bool-cases, All, All-append,
}
use pika_pika.Prelude.Int.{ℤ, pos, negsuc}
use pika_pika.Text.{Text}
use pika_pika.Settings.Pattern.{is_digit, is_word, begins_word, is_boundary, run}
use pika_pika.Settings.Pattern.Before.{digits}
use pika_pika.Settings.Pattern.Field.{IsNumber}

-- Fuel above the number is enough, since each round drops a digit.
unfoldable pub digits_from : ℕ → ℕ → Text
digits_from zero n = []
digits_from (suc fuel) n =
    let rest = digits_from fuel (n / 10) ++ (48 + n % 10) ∷ [] in
    if ltb n 10 then (48 + n) ∷ [] else rest

unfoldable pub str_nat : ℕ → Text
unfolding digits_from
str_nat n = digits_from (suc n) n

unfoldable pub str_int : ℤ → Text
unfolding str_nat
str_int (pos n) = str_nat n
str_int (negsuc n) = 45 ∷ str_nat (suc n)

unfoldable pub value_from : ℕ → Text → ℕ
value_from v [] = v
value_from v (c ∷ s) = value_from (v * 10 + (c - 48)) s

-- The number that a run of digits writes.
abbrev pub value : Text → ℕ
value = value_from 0

value-append : (v c : ℕ) (s : Text) → value_from v (s ++ c ∷ []) ≡ value_from v s * 10 + (c - 48)
unfolding value_from
value-append v c [] = refl
value-append v c (d ∷ s) = value-append (v * 10 + (d - 48)) c s

value-digits_from : (fuel n : ℕ) → n < fuel → value (digits_from fuel n) ≡ n
unfolding digits_from value_from
value-digits_from zero n h = absurd (omega arith)
value-digits_from (suc fuel) n h = elim (Bool-cases (ltb n 10)) [
  | inl one ↦ rw one (omega arith)
  | inr more ↦
      let smaller : n / 10 < fuel = ground arith in
      rw more (
        rw
          (
            value-append 0 (48 + n % 10) (digits_from fuel (n / 10)),
            value-digits_from fuel (n / 10) smaller,
          )
          (omega arith))
]

-- The value of a printed number is the number.
pub value-str_nat : (n : ℕ) → value (str_nat n) ≡ n
unfolding str_nat
value-str_nat n = value-digits_from (suc n) n (omega arith)

abbrev pub AreDigits : Text → Type 0
AreDigits = All (λ c. is_digit c ≡ true)

digits_from-AreDigits : (fuel n : ℕ) → AreDigits (digits_from fuel n)
unfolding digits_from is_digit
digits_from-AreDigits zero n = tt
digits_from-AreDigits (suc fuel) n = elim (Bool-cases (ltb n 10)) [
  | inl one ↦ rw one (ground arith, tt)
  | inr more ↦ rw more (
      All-append _ (digits_from fuel (n / 10)) ((48 + n % 10) ∷ [])
        (digits_from-AreDigits fuel (n / 10)) (ground arith, tt))
]

pub str_nat-AreDigits : (n : ℕ) → AreDigits (str_nat n)
unfolding str_nat
str_nat-AreDigits n = digits_from-AreDigits (suc n) n

append-cons : (s : Text) (c : ℕ) → (x : ℕ) × (y : Text) × (s ++ c ∷ [] ≡ x ∷ y)
append-cons [] c = (c, [], refl)
append-cons (x ∷ s) c = (x, s ++ c ∷ [], refl)

str_nat-cons : (n : ℕ) → (c : ℕ) × (s : Text) × (str_nat n ≡ c ∷ s)
unfolding str_nat digits_from
str_nat-cons n = elim (Bool-cases (ltb n 10)) [
  | inl one ↦ (48 + n, [], rw one refl)
  | inr more ↦ rw more (append-cons (digits_from n (n / 10)) (48 + n % 10))
]

-- Behind a number stands no further character of the word.
pub number-begins_word : (s m r : Text) → digits s ≡ some (m, r) → begins_word r ≡ false
unfolding run is_boundary is_digit is_word
number-begins_word [] m r h = absurd (cc)
number-begins_word (c ∷ s) m r h = elim (Option-cases (digits s)) [
  | inl e ↦ let h' = rw e at h in ground arith
  | inr (v, e) ↦ let h' = rw e at h in let ih = number-begins_word s v.0 v.1 e in ground arith
]

AreDigits-IsNumber :
    (c : ℕ) (s a : Text) → AreDigits (c ∷ s) → begins_word a ≡ false → IsNumber (c ∷ s) a
unfolding run is_boundary is_digit is_word begins_word
AreDigits-IsNumber c [] [] h e = ground arith
AreDigits-IsNumber c [] (x ∷ a) h e = ground arith
AreDigits-IsNumber c (d ∷ s) a h e = rw (h.0, AreDigits-IsNumber d s a h.1 e) refl

-- A printed number may stand wherever a number stood.
pub str_nat-IsNumber : (n : ℕ) {d a : Text} → IsNumber d a → IsNumber (str_nat n) a
str_nat-IsNumber n {d} {a} h =
    let shape = str_nat-cons n in
    let all = subst AreDigits shape.2 (str_nat-AreDigits n) in
    rw shape.2 (AreDigits-IsNumber shape.0 shape.1 a all (number-begins_word (d ++ a) d a h))
