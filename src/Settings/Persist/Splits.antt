-- ===== src/Settings/Persist/Splits.antt =====
-- Every pattern splits the text in which it matches around a run of the characters of numbers.
use pika_pika.Prelude.{
  ℕ, ◌++◌, ◌==◌, ◌≡◌, refl, sym, ◌∙◌, ap, subst, Bool, true, false, List, [], ◌∷◌, Option, none,
  some, Option-cases, inl, inr, All, arith, Bool-cases, append_assoc,
}
use pika_pika.Text.{Text}
use pika_pika.Settings.Pattern.{
  Hit, is_digit, is_decimal, run, signed_run, behind, blanks, skip_blanks, field, cons_hit,
  search_lines, first_hit, replaced,
}
use pika_pika.Settings.Pattern.Field.{run-append, behind-eq, blanks-skip}
use pika_pika.Settings.Persist.{in_block, prefix_hit, Replacement, replace_all}
use pika_pika.Settings.Persist.Layout.{
  layout, layout-number, run-AreNumeric, digit-numeric, decimal-numeric, AreNumeric, is_numeric,
}

abbrev pub IsSplit : Text → Hit → Type 0
IsSplit s h = (s ≡ h.before ++ (h.number ++ h.after)) × AreNumeric h.number

abbrev pub Splits : (Text → Option Hit) → Type 0
Splits m = (s : Text) (h : Hit) → m s ≡ some h → IsSplit s h

abbrev pub ReadsNumber : (Text → Option (Text × Text)) → Type 0
ReadsNumber f = (s m r : Text) → f s ≡ some (m, r) → (s ≡ m ++ r) × AreNumeric m

run-ReadsNumber :
    (cls : ℕ → Bool) → ((c : ℕ) → cls c ≡ true → is_numeric c ≡ true) → ReadsNumber (run cls)
run-ReadsNumber cls k s m r e = (run-append cls s m r e, run-AreNumeric cls s m r k e)

pub digits-ReadsNumber : ReadsNumber (run is_digit)
digits-ReadsNumber = run-ReadsNumber is_digit digit-numeric

pub decimal-ReadsNumber : ReadsNumber (run is_decimal)
decimal-ReadsNumber = run-ReadsNumber is_decimal decimal-numeric

pub signed-ReadsNumber : ReadsNumber signed_run
unfolding signed_run is_numeric
signed-ReadsNumber [] m r e = absurd (cc)
signed-ReadsNumber (c ∷ s) m r e = elim (Bool-cases (c == 45)) [
  | inr other ↦ let e' = rw other at e in digits-ReadsNumber (c ∷ s) m r e'
  | inl minus ↦ elim (Option-cases (run is_digit s)) [
    | inl f ↦ absurd (let e' = rw (minus, f) at e in cc)
    | inr (v, f) ↦
        let e' = rw (minus, f) at e in
        let inner = digits-ReadsNumber s v.0 v.1 f in
        let same_m : c ∷ v.0 ≡ m = cc in
        let same_r : v.1 ≡ r = cc in
        rw (sym same_m, sym same_r) (ap (λ (t : Text). c ∷ t) inner.0, (ground arith, inner.1))
  ]
]

pub field-Splits :
    (key : Text) (number : Text → Option (Text × Text))
    → ReadsNumber number
    → Splits (field key number)
unfolding field
field-Splits key number k s h e = elim (Option-cases (behind key s)) [
  | inl f ↦ absurd (let e' = rw (field, f) at e in cc)
  | inr (rest, f) ↦ elim (Option-cases (number (skip_blanks rest))) [
    | inl g ↦ absurd (let e' = rw (field, f, g) at e in cc)
    | inr (v, g) ↦
        let e' = rw (field, f, g) at e in
        let numbered = k (skip_blanks rest) v.0 v.1 g in
        let same : record { before = key ++ blanks rest; number = v.0; after = v.1 } ≡ h = cc in
        subst (IsSplit s) same (
          behind-eq key s rest f
              ∙ ap (λ (t : Text). key ++ t)
                  (blanks-skip rest ∙ ap (λ (t : Text). blanks rest ++ t) numbered.0)
              ∙ sym (append_assoc key (blanks rest) (v.0 ++ v.1)),
          numbered.1,
        )
  ]
]

IsSplit-cons :
    (c : ℕ) (s : Text) (h : Hit)
    → IsSplit s h
    → IsSplit (c ∷ s) (record h { before = c ∷ h.before })
IsSplit-cons c s h (e, n) = (ap (λ (t : Text). c ∷ t) e, n)

cons_hit-Splits :
    (c : ℕ) (s : Text) (o : Option Hit) {h : Hit}
    → ((h' : Hit) → o ≡ some h' → IsSplit s h')
    → cons_hit c o ≡ some h
    → IsSplit (c ∷ s) h
cons_hit-Splits c s none k e = absurd (cc)
cons_hit-Splits c s (some h') {h} k e =
    let same : record h' { before = c ∷ h'.before } ≡ h = cc in
    subst (IsSplit (c ∷ s)) same (IsSplit-cons c s h' (k h' refl))

pub search-Splits :
    (passes : Text → Bool) (m : Text → Option Hit) (start : Bool)
    → Splits m
    → Splits (search_lines passes m start)
unfolding search_lines
search-Splits passes m start k [] h e = absurd (cc)
search-Splits passes m false k (c ∷ s) h e =
    cons_hit-Splits c s (search_lines passes m (c == 10) s) (search-Splits passes m (c == 10) k s) e
search-Splits passes m true k (c ∷ s) h e = elim (Option-cases (m (c ∷ s))) [
  | inr (h', f) ↦ let e' = rw f at e in k (c ∷ s) h (f ∙ (cc))
  | inl f ↦ elim (Bool-cases (passes (c ∷ s))) [
    | inr no_more ↦ absurd (let e' = rw (f, no_more) at e in cc)
    | inl on ↦
        let e' = rw (f, on) at e in
        cons_hit-Splits c s (search_lines passes m (c == 10) s)
          (search-Splits passes m (c == 10) k s) e'
  ]
]

prefix_hit-Splits :
    (p s : Text) (o : Option Hit) {h : Hit}
    → ((h' : Hit) → o ≡ some h' → IsSplit s h')
    → prefix_hit p o ≡ some h
    → IsSplit (p ++ s) h
prefix_hit-Splits p s none k e = absurd (cc)
prefix_hit-Splits p s (some h') {h} k e =
    let same : record h' { before = p ++ h'.before } ≡ h = cc in
    let inner = k h' refl in
    subst (IsSplit (p ++ s)) same (
      ap (λ (t : Text). p ++ t) inner.0 ∙ sym (append_assoc p h'.before (h'.number ++ h'.after)),
      inner.1,
    )

pub in_block-Splits :
    (header : Text) (m : Text → Option Hit) → Splits m → Splits (in_block header m)
unfolding in_block
in_block-Splits header m k s h e = elim (Option-cases (behind header s)) [
  | inl f ↦ absurd (let e' = rw (in_block, f) at e in cc)
  | inr (rest, f) ↦
      let e' = rw (in_block, f) at e in
      rw (behind-eq header s rest f)
        (prefix_hit-Splits header rest _ (search-Splits _ m true k rest) e')
]

-- Replacing the number of a match keeps the layout.
pub replaced-layout :
    (m : Text → Option Hit) (number text : Text) {new : Text}
    → Splits m
    → AreNumeric number
    → replaced (first_hit m text) number ≡ some new
    → layout new ≡ layout text
unfolding replaced
replaced-layout m number text {new} k n e = elim (Option-cases (first_hit m text)) [
  | inl f ↦ absurd (let e' = rw f at e in cc)
  | inr (h, f) ↦
      let e' = rw f at e in
      let same : h.before ++ (number ++ h.after) ≡ new = cc in
      let split = search-Splits _ m true k text h f in
      ap layout (sym same)
      ∙ layout-number h.before h.number number h.after split.1 n
      ∙ ap layout (sym split.0)
]

abbrev pub IsNumeric : Replacement → Type 0
IsNumeric r = Splits r.0 × AreNumeric r.1

pub replace_all-layout :
    (rs : List Replacement) (text new : Text)
    → All IsNumeric rs
    → replace_all rs text ≡ some new
    → layout new ≡ layout text
unfolding replace_all
replace_all-layout [] text new k e = ap layout (cc)
replace_all-layout ((m, number) ∷ rs) text new (k, ks) e =
    elim (Option-cases (replaced (first_hit m text) number)) [
      | inl f ↦ absurd (let e' = rw f at e in cc)
      | inr (t, f) ↦
          let e' = rw f at e in
          replace_all-layout rs t new ks e' ∙ replaced-layout m number text k.0 k.1 f
    ]
