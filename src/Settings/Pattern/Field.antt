-- ===== src/Settings/Pattern/Field.antt =====
-- One match of `key\s*\d+\b`: what it consists of, and that it is found again with another number.
use pika_pika.Prelude.{
  ℕ, ◌++◌, ◌==◌, ◌≡◌, refl, sym, ◌∙◌, ap, subst, ◌⊎◌, inl, inr, Bool, true, false, Option, none,
  some, [], ◌∷◌, arith, Bool-cases, Option-cases, append_assoc,
}
use pika_pika.Text.{Text}
use pika_pika.Settings.Pattern.{Hit, is_digit, run, behind, blanks, skip_blanks, is_blank, field}
use pika_pika.Settings.Pattern.Before.{
  digits, line_ends, is_blanks, ends_differ, EndsIn, IsKey, skip-EndsIn, behind-EndsIn,
}

-- The number, and whether nothing else but a comment is left of its line.
abbrev pub number_of : Option Hit → Option (Text × Bool)
number_of none = none
number_of (some h) = some (h.number, line_ends false h.after)

-- A number and what stands behind it, where the number ends.
abbrev pub IsNumber : Text → Text → Type 0
IsNumber d a = digits (d ++ a) ≡ some (d, a)

pub run-append : (cls : ℕ → Bool) (s m r : Text) → run cls s ≡ some (m, r) → s ≡ m ++ r
unfolding run
run-append cls [] m r h = absurd (cc)
run-append cls (c ∷ s) m r h = elim (Option-cases (run cls s)) [
  | inl e ↦ let h' = rw e at h in ground arith
  | inr (v, e) ↦ let ih = run-append cls s v.0 v.1 e in let h' = rw e at h in ground arith
]

-- A number begins with no blank.
blanks-digits :
    (s : Text) {v : Text × Text} → digits s ≡ some v → (skip_blanks s ≡ s) × (blanks s ≡ [])
unfolding run is_digit is_blank skip_blanks blanks
blanks-digits [] h = absurd (cc)
blanks-digits (c ∷ s) h = ground arith

skip-IsNumber :
    (y d a : Text) → is_blanks y ≡ true → IsNumber d a → skip_blanks (y ++ (d ++ a)) ≡ d ++ a
unfolding skip_blanks run
skip-IsNumber [] d a b n = (blanks-digits (d ++ a) n).0
skip-IsNumber (c ∷ y) d a b n = ground (arith, skip-IsNumber y d a)

blanks-IsNumber : (y d a : Text) → is_blanks y ≡ true → IsNumber d a → blanks (y ++ (d ++ a)) ≡ y
unfolding blanks run
blanks-IsNumber [] d a b n = (blanks-digits (d ++ a) n).1
blanks-IsNumber (c ∷ y) d a b n = ground (arith, blanks-IsNumber y d a)

behind-append : (p t : Text) → behind p (p ++ t) ≡ some t
unfolding behind
behind-append [] t = refl
behind-append (c ∷ p) t = ground (arith, behind-append p t)

pub behind-eq : (p s t : Text) → behind p s ≡ some t → s ≡ p ++ t
unfolding behind
behind-eq [] s t h = cc
behind-eq (c ∷ p) [] t h = absurd (cc)
behind-eq (c ∷ p) (d ∷ s) t h = ground (arith, behind-eq p s t)

pub blanks-skip : (s : Text) → s ≡ blanks s ++ skip_blanks s
unfolding blanks skip_blanks
blanks-skip [] = refl
blanks-skip (c ∷ s) = ground (arith, blanks-skip s)

blanks-is_blanks : (s : Text) → is_blanks (blanks s) ≡ true
unfolding blanks
blanks-is_blanks [] = refl
blanks-is_blanks (c ∷ s) = ground (arith, blanks-is_blanks s)

-- The same match with another number and another text behind it.
pub field_again :
    (key y d a : Text)
    → is_blanks y ≡ true
    → IsNumber d a
    → field key digits ((key ++ y) ++ (d ++ a))
      ≡ some (record { before = key ++ y; number = d; after = a })
unfolding field
field_again key y d a b n = rw (append_assoc key y (d ++ a)) (
    rw
      (
        field,
        behind-append key (y ++ (d ++ a)),
        skip-IsNumber y d a b n,
        blanks-IsNumber y d a b n,
        n,
      )
      refl)

-- What a match consists of.
pub record Consists (key s : Text) (h : Hit) : Type 0 where
  pub gap : Text
  pub gap_blank : is_blanks gap ≡ true
  pub before_eq : h.before ≡ key ++ gap
  pub text_eq : s ≡ h.before ++ (h.number ++ h.after)
  pub number_ends : IsNumber h.number h.after

parts-Consists :
    (key s rest m r : Text)
    → behind key s ≡ some rest
    → digits (skip_blanks rest) ≡ some (m, r)
    → Consists key s (record { before = key ++ blanks rest; number = m; after = r })
parts-Consists key s rest m r f g =
    let numbered = run-append is_digit (skip_blanks rest) m r g in
    record {
      gap = blanks rest;
      gap_blank = blanks-is_blanks rest;
      before_eq = refl;
      text_eq =
          behind-eq key s rest f
          ∙ ap (λ (t : Text). key ++ t)
              (blanks-skip rest ∙ ap (λ (t : Text). blanks rest ++ t) numbered)
          ∙ sym (append_assoc key (blanks rest) (m ++ r));
      number_ends = subst (λ (t : Text). digits t ≡ some (m, r)) numbered g;
    }

pub field-Consists : (key s : Text) {h : Hit} → field key digits s ≡ some h → Consists key s h
unfolding field
field-Consists key s {h} e = elim (Option-cases (behind key s)) [
  | inl f ↦ absurd (let e' = rw (field, f) at e in cc)
  | inr (rest, f) ↦ elim (Option-cases (digits (skip_blanks rest))) [
    | inl g ↦ absurd (let e' = rw (field, f, g) at e in cc)
    | inr (v, g) ↦
        let e' = rw (field, f, g) at e in
        subst (Consists key s) (cc) (parts-Consists key s rest v.0 v.1 f g)
  ]
]

module _ {key : Text} (k : IsKey key) where
  pub field-EndsIn :
      (b : ℕ) (p : Text) (c : ℕ) {x : Text}
      → ends_differ key p ≡ true
      → EndsIn key x
      → ((t : Text) → field (b ∷ p) digits (c ∷ (x ++ t)) ≡ none)
        ⊎ ((m : Text × Bool) × ((t : Text)
              → number_of (field (b ∷ p) digits (c ∷ (x ++ t))) ≡ some m))
  unfolding field behind
  field-EndsIn b p c {x} h e = elim (Bool-cases (b == c)) [
    | inr other ↦ inl (λ t. rw (field, other) refl)
    | inl same ↦ elim (behind-EndsIn p h e) [
      | inl none_of ↦ inl (λ t. rw (field, same, none_of t) refl)
      | inr (y, e', f) ↦ elim (skip-EndsIn k e') [
        | inl g ↦ inl (λ t. rw (field, same, f t, g t) refl)
        | inr (m, r, v, g, ends) ↦ inr ((m, v), λ t. rw (field, same, f t, g t, ends t) refl)
      ]
    ]
  ]
