-- ===== src/Settings/Pattern/Again.antt =====
-- A number that is put in the place of the one that a search found is found by the same search.
use pika_pika.Prelude.{
  ℕ, ◌++◌, ◌==◌, ◌≡◌, refl, sym, ap, subst, ◌⊎◌, inl, inr, Bool, true, false, Option, none, some,
  [], ◌∷◌, Option-cases,
}
use pika_pika.Text.{Text}
use pika_pika.Settings.Pattern.{Hit, field, search_lines, any_line}
use pika_pika.Settings.Pattern.Before.{digits, ends_differ, EndsIn, key_and_blanks, more, IsKey}
use pika_pika.Settings.Pattern.Field.{IsNumber, Consists, field-Consists, field_again, field-EndsIn}

abbrev pub find : Text → Bool → Text → Option Hit
find key = search_lines any_line (field key digits)

-- What a search finds.
pub record Found (key s : Text) (h : Hit) : Type 0 where
  pub before_ends : EndsIn key h.before
  pub text_eq : s ≡ h.before ++ (h.number ++ h.after)
  pub number_ends : IsNumber h.number h.after

Consists-Found : {key s : Text} {h : Hit} → Consists key s h → Found key s h
Consists-Found {key} c = record {
  before_ends = subst (EndsIn key) (sym c.before_eq) (key_and_blanks c.gap c.gap_blank);
  text_eq = c.text_eq;
  number_ends = c.number_ends;
}

Found-cons :
    {key s : Text} {h : Hit} (c : ℕ)
    → Found key s h
    → Found key (c ∷ s) (record h { before = c ∷ h.before })
Found-cons c f = record {
  before_ends = more c f.before_ends;
  text_eq = ap (λ (t : Text). c ∷ t) f.text_eq;
  number_ends = f.number_ends;
}

-- A search either finds a match at once, or one further on.
pub find-cases :
    (key : Text) (start : Bool) (c : ℕ) (s : Text) {h : Hit}
    → find key start (c ∷ s) ≡ some h
    → ((start ≡ true) × (field key digits (c ∷ s) ≡ some h))
      ⊎ ((h' : Hit) × (find key (c == 10) s ≡ some h')
          × (h ≡ record h' { before = c ∷ h'.before })
          × ((start ≡ false) ⊎ ((start ≡ true) × (field key digits (c ∷ s) ≡ none))))
unfolding search_lines
find-cases key false c s e = elim (Option-cases (find key (c == 10) s)) [
  | inl f ↦ absurd (let e' = rw f at e in cc)
  | inr (h', f) ↦ let e' = rw f at e in inr (h', f, cc, inl refl)
]
find-cases key true c s e = elim (Option-cases (field key digits (c ∷ s))) [
  | inr (h', f) ↦ let e' = rw f at e in inl (refl, cc)
  | inl n ↦ elim (Option-cases (find key (c == 10) s)) [
    | inl f ↦ absurd (let e' = rw (n, f) at e in cc)
    | inr (h', f) ↦ let e' = rw (n, f) at e in inr (h', f, cc, inr (refl, n))
  ]
]

pub find-Found :
    (key : Text) (start : Bool) (s : Text) {h : Hit} → find key start s ≡ some h → Found key s h
unfolding search_lines
find-Found key false [] e = absurd (cc)
find-Found key true [] e = absurd (cc)
find-Found key start (c ∷ s) e = elim (find-cases key start c s e) [
  | inl (t, f) ↦ Consists-Found (field-Consists key (c ∷ s) f)
  | inr (h', f, same, _) ↦
      subst (Found key (c ∷ s)) (sym same) (Found-cons c (find-Found key (c == 10) s f))
]

abbrev Again : Text → Bool → Hit → Type 0
Again key start h =
    (d a : Text)
    → IsNumber d a
    → find key start (h.before ++ (d ++ a))
      ≡ some (record { before = h.before; number = d; after = a })

module _ (b : ℕ) (p : Text) (k : IsKey (b ∷ p)) (apart : ends_differ (b ∷ p) p ≡ true) where
  abbrev key : Text
  key = b ∷ p

  at_once : (s : Text) {h : Hit} → Consists key s h → Again key true h
  unfolding search_lines
  at_once s c d a n = rw c.before_eq (rw (field_again key c.gap d a c.gap_blank n) refl)

  further_on :
      (start : Bool) (c : ℕ) (s : Text) (h : Hit)
      → Found key s h
      → Again key (c == 10) h
      → (start ≡ false) ⊎ ((start ≡ true) × (field key digits (c ∷ s) ≡ none))
      → Again key start (record h { before = c ∷ h.before })
  unfolding search_lines
  further_on start c s h f again (inl e) d a n = rw (e, again d a n) refl
  further_on start c s h f again (inr (e, none_here)) d a n =
      elim (field-EndsIn k b p c apart f.before_ends) [
        | inl settled ↦ rw (e, settled (d ++ a), again d a n) refl
        | inr (m, settled) ↦
            let none_there = subst (λ t. field key digits (c ∷ t) ≡ none) f.text_eq none_here in
            let e' = rw none_there at (settled (h.number ++ h.after)) in absurd (cc)
      ]

  pub find_again :
      (start : Bool) (s : Text) {h : Hit}
      → find key start s ≡ some h
      → (d a : Text) → IsNumber d a
      → find key start (h.before ++ (d ++ a))
        ≡ some (record { before = h.before; number = d; after = a })
  unfolding search_lines
  find_again false [] e = absurd (cc)
  find_again true [] e = absurd (cc)
  find_again start (c ∷ s) e = elim (find-cases key start c s e) [
    | inl (t, f) ↦ rw t (at_once (c ∷ s) (field-Consists key (c ∷ s) f))
    | inr (h', f, same, why) ↦
        subst (Again key start) (sym same)
          (further_on start c s h' (find-Found key (c == 10) s f) (find_again (c == 10) s f) why)
  ]
