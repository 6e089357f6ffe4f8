-- ===== src/Settings/Pattern/Before.antt =====
-- What a search for `key\s*\d+\b` has passed over before it comes to a number, and that neither the
-- number nor what follows it changes how that is read.
use pika_pika.Prelude.{
  ℕ, ◌++◌, ◌==◌, ◌≡◌, refl, ◌⊎◌, inl, inr, Bool, true, false, not, ◌&&◌, ◌||◌, Option, none, some,
  [], ◌∷◌, if◌then◌else◌, arith, Bool-cases, append_assoc,
}
use pika_pika.Text.{Text}
use pika_pika.Settings.Pattern.{
  is_digit, is_word, begins_word, is_boundary, run, behind, skip_blanks, is_blank,
}

abbrev pub digits : Text → Option (Text × Text)
digits = run is_digit

-- Nothing but blanks, or blanks and a comment, is left of a line; `seen` is that a blank has come.
unfoldable pub line_ends : Bool → Text → Bool
line_ends seen [] = true
line_ends seen (c ∷ s) =
    if c == 10 then true else if c == 32 || c == 9 then line_ends true s else (seen && c == 35)

-- Two literals that differ at a place that both have.
unfoldable pub differ : Text → Text → Bool
differ [] q = false
differ (c ∷ p) [] = false
differ (c ∷ p) (d ∷ q) = if c == d then differ p q else true

-- Every end of a literal but the empty one differs from the key.
unfoldable pub ends_differ : Text → Text → Bool
ends_differ key [] = true
ends_differ key (c ∷ p) = differ (c ∷ p) key && ends_differ key p

abbrev pub is_blanks : Text → Bool
is_blanks [] = true
is_blanks (c ∷ s) = is_blank c && is_blanks s

pub behind-differ : (p q t : Text) → differ p q ≡ true → behind p (q ++ t) ≡ none
unfolding differ behind
behind-differ [] q t h = absurd (cc)
behind-differ (c ∷ p) [] t h = absurd (cc)
behind-differ (c ∷ p) (d ∷ q) t h = ground (arith, behind-differ p q t)

-- What ends in a key and blanks.
pub data EndsIn (key : Text) : Text → Type 0 where
  key_and_blanks : (y : Text) → is_blanks y ≡ true → EndsIn key (key ++ y)
  more : (c : ℕ) {x : Text} → EndsIn key x → EndsIn key (c ∷ x)

-- A key that begins with a blank, and whose first other character is no digit.
pub record IsKey (key : Text) : Type 0 where
  pub no_word : (t : Text) → begins_word (key ++ t) ≡ false
  pub no_number : (t : Text) → digits (key ++ t) ≡ none
  pub no_number_behind : (t : Text) → digits (skip_blanks (key ++ t)) ≡ none
  pub no_line_end : (seen : Bool) (t : Text) → line_ends seen (key ++ t) ≡ false

-- A number that is read in the same way whatever text stands at the end.
abbrev pub IsSettled : (Text → Option (Text × Text)) → Type 0
IsSettled f =
    ((t : Text) → f t ≡ none)
    ⊎ ((m : Text) × (r : Text) × (b : Bool) × ((t : Text) → f t ≡ some (m, r ++ t))
        × ((t : Text) → line_ends false (r ++ t) ≡ b))

module _ {key : Text} (k : IsKey key) where
  begins-EndsIn : {x : Text} → EndsIn key x → (b : Bool) × ((t : Text) → begins_word (x ++ t) ≡ b)
  unfolding begins_word
  begins-EndsIn (key_and_blanks y h) = (false, λ t. rw (append_assoc key y t) (k.no_word (y ++ t)))
  begins-EndsIn (more c e) = (is_word c, λ t. refl)

  line-EndsIn :
      {x : Text} (seen : Bool)
      → EndsIn key x
      → (b : Bool) × ((t : Text) → line_ends seen (x ++ t) ≡ b)
  unfolding line_ends
  line-EndsIn seen (key_and_blanks y h) =
      (false, λ t. rw (append_assoc key y t) (k.no_line_end seen (y ++ t)))
  line-EndsIn seen (more c {x} e) = elim (Bool-cases (c == 10)) [
    | inl feed ↦ (true, λ t. rw feed refl)
    | inr no_feed ↦ elim (Bool-cases (c == 32 || c == 9)) [
      | inl blank ↦
          let later = line-EndsIn true e in (later.0, λ t. rw (no_feed, blank) (later.1 t))
      | inr other ↦ (seen && c == 35, λ t. rw (no_feed, other) refl)
    ]
  ]

  run_at :
      (c : ℕ) (x : Text) (b : Bool)
      → ((t : Text) → begins_word (x ++ t) ≡ b)
      → (l : Bool) × ((t : Text) → line_ends false (x ++ t) ≡ l)
      → IsSettled (λ t. digits (x ++ t))
      → IsSettled (λ t. digits (c ∷ (x ++ t)))
  unfolding run is_boundary
  run_at c x b h l (inr (m, r, v, e, ends)) = elim (Bool-cases (is_digit c)) [
    | inl d ↦ inr (c ∷ m, r, v, (λ t. rw (d, e t) refl), ends)
    | inr n ↦ inl (λ t. rw n refl)
  ]
  run_at c x b h l (inl e) = elim (Bool-cases (is_digit c)) [
    | inr n ↦ inl (λ t. rw n refl)
    | inl d ↦ elim (Bool-cases (if is_word c then not b else b)) [
      | inl ends ↦ inr (c ∷ [], x, l.0, (λ t. rw (d, e t, h t, ends) refl), l.1)
      | inr goes_on ↦ inl (λ t. rw (d, e t, h t, goes_on) refl)
    ]
  ]

  run-EndsIn : {x : Text} → EndsIn key x → IsSettled (λ t. digits (x ++ t))
  run-EndsIn (key_and_blanks y h) = inl (λ t. rw (append_assoc key y t) (k.no_number (y ++ t)))
  run-EndsIn (more c {x} e) =
      let b = begins-EndsIn e in run_at c x b.0 b.1 (line-EndsIn false e) (run-EndsIn e)

  pub skip-EndsIn : {x : Text} → EndsIn key x → IsSettled (λ t. digits (skip_blanks (x ++ t)))
  unfolding skip_blanks
  skip-EndsIn (key_and_blanks y h) =
      inl (λ t. rw (append_assoc key y t) (k.no_number_behind (y ++ t)))
  skip-EndsIn (more c {x} e) = elim (Bool-cases (is_blank c)) [
    | inl blank ↦ rw blank (skip-EndsIn e)
    | inr other ↦ rw other (run-EndsIn (more c e))
  ]

pub behind-EndsIn :
    {key : Text} (p : Text) {x : Text}
    → ends_differ key p ≡ true
    → EndsIn key x
    → ((t : Text) → behind p (x ++ t) ≡ none)
      ⊎ ((y : Text) × EndsIn key y × ((t : Text) → behind p (x ++ t) ≡ some (y ++ t)))
unfolding ends_differ behind
behind-EndsIn [] {x} h e = inr (x, e, λ t. refl)
behind-EndsIn {key} (c ∷ p) h (key_and_blanks y b) =
    inl (λ t. rw (append_assoc key y t) (behind-differ (c ∷ p) key (y ++ t) (ground arith)))
behind-EndsIn (c ∷ p) h (more d e) = elim (Bool-cases (c == d)) [
  | inl same ↦ rw same (behind-EndsIn p (ground arith) e)
  | inr other ↦ rw other (inl (λ t. refl))
]
