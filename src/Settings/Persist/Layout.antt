-- ===== src/Settings/Persist/Layout.antt =====
-- The text of pika.yaml without the characters of numbers: its keys, their order, the lines and the
-- comments.
use pika_pika.Prelude.{
  ℕ, ◌++◌, ◌==◌, ◌≡◌, refl, Bool, true, not, ◌||◌, [], ◌∷◌, keep, keep-append, All, some, arith,
  Option-cases, inl, inr,
}
use pika_pika.Text.{Text}
use pika_pika.Settings.Pattern.{is_digit, is_decimal, run}

-- The characters of `[0-9.]` and the sign.
unfoldable pub is_numeric : ℕ → Bool
is_numeric c = is_decimal c || c == 45

abbrev unnumeric : ℕ → Bool
unnumeric c = not (is_numeric c)

abbrev pub layout : Text → Text
layout = keep unnumeric

abbrev pub AreNumeric : Text → Type 0
AreNumeric = All (λ c. is_numeric c ≡ true)

layout-AreNumeric : (s : Text) → AreNumeric s → layout s ≡ []
layout-AreNumeric [] h = refl
layout-AreNumeric (c ∷ s) h = rw h.0 (layout-AreNumeric s h.1)

-- A number in the middle of a text leaves no trace in the layout.
pub layout-number :
    (b m n a : Text) → AreNumeric m → AreNumeric n → layout (b ++ (n ++ a)) ≡ layout (b ++ (m ++ a))
layout-number b m n a h k =
    rw
      (
        keep-append unnumeric b (n ++ a),
        keep-append unnumeric b (m ++ a),
        keep-append unnumeric n a,
        keep-append unnumeric m a,
        layout-AreNumeric m h,
        layout-AreNumeric n k,
      )
      refl

pub run-AreNumeric :
    (cls : ℕ → Bool) (s m r : Text)
    → ((c : ℕ) → cls c ≡ true → is_numeric c ≡ true)
    → run cls s ≡ some (m, r)
    → AreNumeric m
unfolding run
run-AreNumeric cls [] m r k h = absurd (cc)
run-AreNumeric cls (c ∷ s) m r k h = elim (Option-cases (run cls s)) [
  | inl e ↦ let h' = rw e at h in ground (arith, k c)
  | inr (v, e) ↦
      let h' = rw e at h in let ih = run-AreNumeric cls s v.0 v.1 k e in ground (arith, k c)
]

pub digit-numeric : (c : ℕ) → is_digit c ≡ true → is_numeric c ≡ true
unfolding is_numeric is_decimal is_digit
digit-numeric c h = ground arith

pub decimal-numeric : (c : ℕ) → is_decimal c ≡ true → is_numeric c ≡ true
unfolding is_numeric is_decimal
decimal-numeric c h = ground arith
