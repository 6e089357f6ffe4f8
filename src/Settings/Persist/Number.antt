-- ===== src/Settings/Persist/Number.antt =====
-- The effect of putting a printed number in the place of the one that a key has.
use pika_pika.Prelude.{
  ℕ, ◌++◌, ◌≡◌, refl, sym, ◌∙◌, ap, true, ◌∷◌, Option, none, some, Option-cases, Bool, Bool-cases,
  false, inl, inr, All-weaken,
}
use pika_pika.Text.{Text}
use pika_pika.Settings.Pattern.{Hit, is_digit, replaced}
use pika_pika.Settings.Pattern.Before.{IsKey, line_ends, ends_differ}
use pika_pika.Settings.Pattern.Field.{number_of}
use pika_pika.Settings.Pattern.Again.{find-Found, find_again, Found}
use pika_pika.Settings.Pattern.Other.{AreApart, find-Keeps}
use pika_pika.Settings.Decimal.{str_nat, value, value-str_nat, str_nat-IsNumber, str_nat-AreDigits}
use pika_pika.Settings.Persist.{whole_number}
use pika_pika.Settings.Persist.Layout.{
  layout, layout-number, run-AreNumeric, digit-numeric, AreNumeric,
}

abbrev pub value_in : Option (Text × Bool) → Option ℕ
value_in none = none
value_in (some (d, false)) = none
value_in (some (d, true)) = some (value d)

-- The number that the first line of the key has: digits, behind which only blanks or a comment are left
-- of the line.
abbrev pub number_at : Text → Text → Option ℕ
number_at key text = value_in (number_of (whole_number key text))

-- A text in which the number of one key has been replaced.
pub record Rewritten (key : Text) (n : ℕ) (text new : Text) : Type 0 where
  pub hit : Hit
  pub found : whole_number key text ≡ some hit
  pub new_eq : new ≡ hit.before ++ (str_nat n ++ hit.after)

pub replaced-Rewritten :
    (key : Text) (n : ℕ) (text new : Text)
    → replaced (whole_number key text) (str_nat n) ≡ some new
    → Rewritten key n text new
unfolding replaced
replaced-Rewritten key n text new e = elim (Option-cases (whole_number key text)) [
  | inl f ↦ absurd (let e' = rw f at e in cc)
  | inr (h, f) ↦ let e' = rw f at e in record { hit = h; found = f; new_eq = cc }
]

pub str_nat-AreNumeric : (n : ℕ) → AreNumeric (str_nat n)
str_nat-AreNumeric n = All-weaken _ _ (str_nat n) digit-numeric (str_nat-AreDigits n)

module _ {key : Text} {n : ℕ} {text new : Text} (w : Rewritten key n text new) where
  abbrev found : Found key text w.hit
  found = find-Found key true text w.found

  pub Rewritten-layout : layout new ≡ layout text
  Rewritten-layout =
      ap layout w.new_eq
      ∙ layout-number w.hit.before w.hit.number (str_nat n) w.hit.after
          (run-AreNumeric is_digit (w.hit.number ++ w.hit.after) w.hit.number w.hit.after
            digit-numeric found.number_ends)
          (str_nat-AreNumeric n)
      ∙ ap layout (sym found.text_eq)

module _ (b : ℕ) (p : Text) {n : ℕ} {text new : Text} (w : Rewritten (b ∷ p) n text new) where
  -- The key has the new number.
  pub Rewritten-found :
      IsKey (b ∷ p)
      → ends_differ (b ∷ p) p ≡ true
      → whole_number (b ∷ p) new
        ≡ some (record { before = w.hit.before; number = str_nat n; after = w.hit.after })
  Rewritten-found k apart =
      let f = find-Found (b ∷ p) true text w.found in
      ap (whole_number (b ∷ p)) w.new_eq
      ∙ find_again b p k apart true text w.found (str_nat n) w.hit.after
          (str_nat-IsNumber n f.number_ends)

  -- It is all of the line, if the old number was.
  pub Rewritten-number :
      {v : ℕ}
      → IsKey (b ∷ p)
      → ends_differ (b ∷ p) p ≡ true
      → number_at (b ∷ p) text ≡ some v
      → number_at (b ∷ p) new ≡ some n
  Rewritten-number {v} k apart e =
      let e' = rw w.found at e in
      elim (Bool-cases (line_ends false w.hit.after)) [
        | inl ends ↦ rw (Rewritten-found k apart, ends, value-str_nat n) refl
        | inr more ↦ absurd (let e'' = rw more at e' in cc)
      ]

-- Another key keeps its number.
pub Rewritten-other :
    {key : Text} {n : ℕ} {text new : Text} (b : ℕ) (p : Text)
    → AreApart key b p
    → Rewritten key n text new
    → number_at (b ∷ p) new ≡ number_at (b ∷ p) text
Rewritten-other {key} {n} {text} {new} b p k w =
    let f = find-Found key true text w.found in
    ap (number_at (b ∷ p)) w.new_eq
    ∙ ap value_in (find-Keeps true text k w.found (str_nat n) (str_nat-IsNumber n f.number_ends))
    ∙ ap (number_at (b ∷ p)) (sym f.text_eq)

-- A text in which the key has a number can be rewritten.
pub number_at-Rewritten :
    (key : Text) (n : ℕ) (text : Text) {v : ℕ}
    → number_at key text ≡ some v
    → (new : Text) × (replaced (whole_number key text) (str_nat n) ≡ some new)
unfolding replaced
number_at-Rewritten key n text e = elim (Option-cases (whole_number key text)) [
  | inl f ↦ absurd (let e' = rw f at e in cc)
  | inr (h, f) ↦ (h.before ++ (str_nat n ++ h.after), rw f refl)
]
