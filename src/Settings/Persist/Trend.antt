-- ===== src/Settings/Persist/Trend.antt =====
-- `_persist_trend_config` gives both settings their numbers, and fails on no file that has both.
use pika_pika.Prelude.{
  ℕ, ◌≡◌, ◌==◌, refl, ◌∙◌, Bool, true, false, some, Option-cases, inl, inr, [], ◌∷◌, Option,
}
use pika_pika.Text.{Text}
use pika_pika.Settings.Pattern.{Hit, is_digit, run, field, search_lines, any_line, behind}
use pika_pika.Settings.Pattern.Again.{find, find-cases}
use pika_pika.Settings.Persist.{
  window_key, display_key, literal, insert_webapp_key, persist_trend_config, whole_number,
}
use pika_pika.Settings.Persist.Keys.{
  window_rest, display_rest, window-IsKey, display-IsKey, window-ends_differ, display-ends_differ,
  window-display-AreApart, display-window-AreApart,
}
use pika_pika.Settings.Persist.Layout.{layout}
use pika_pika.Settings.Persist.Number.{
  number_at, Rewritten, replaced-Rewritten, Rewritten-layout, Rewritten-number, Rewritten-other,
  number_at-Rewritten,
}

abbrev line_of : Text → Bool → Text → Option Hit
line_of key = search_lines any_line (literal key)

field-literal :
    (key s : Text) {h : Hit}
    → field key (run is_digit) s ≡ some h
    → (h' : Hit) × (literal key s ≡ some h')
unfolding field literal
field-literal key s e = elim (Option-cases (behind key s)) [
  | inl f ↦ absurd (let e' = rw (field, f) at e in cc)
  | inr (rest, f) ↦ (record { before = key; number = []; after = rest }, rw (literal, f) refl)
]

line_of-cons :
    (key : Text) (start : Bool) (c : ℕ) (s : Text) {x : Hit}
    → line_of key (c == 10) s ≡ some x
    → (h' : Hit) × (line_of key start (c ∷ s) ≡ some h')
unfolding search_lines
line_of-cons key false c s {x} e = (record x { before = c ∷ x.before }, rw e refl)
line_of-cons key true c s {x} e = elim (Option-cases (literal key (c ∷ s))) [
  | inl f ↦ (record x { before = c ∷ x.before }, rw (f, e) refl)
  | inr (h, f) ↦ (h, rw f refl)
]

-- A key that has a number has a line.
find-line_of :
    (key : Text) (start : Bool) (s : Text) {h : Hit}
    → find key start s ≡ some h
    → (h' : Hit) × (line_of key start s ≡ some h')
unfolding search_lines
find-line_of key false [] e = absurd (cc)
find-line_of key true [] e = absurd (cc)
find-line_of key start (c ∷ s) e = elim (find-cases key start c s e) [
  | inl (t, f) ↦ let l = field-literal key (c ∷ s) f in (l.0, rw (t, l.1) refl)
  | inr (h', f, same, why) ↦ line_of-cons key start c s (find-line_of key (c == 10) s f).1
]

insert_webapp_key-number_at :
    (key text : Text) (n : ℕ) {v : ℕ}
    → number_at key text ≡ some v
    → insert_webapp_key text key n ≡ some text
unfolding insert_webapp_key
insert_webapp_key-number_at key text n e = elim (Option-cases (whole_number key text)) [
  | inl f ↦ absurd (let e' = rw f at e in cc)
  | inr (h, f) ↦ rw (insert_webapp_key, (find-line_of key true text f).1) refl
]

-- What the two replacements make of a text.
record BothRewritten (window display : ℕ) (text new : Text) : Type 0 where
  first : Text
  of_window : Rewritten window_key window text first
  of_display : Rewritten display_key display first new

module _ {window display : ℕ} {text new : Text} (b : BothRewritten window display text new) where
  both-window :
      {v : ℕ} → number_at window_key text ≡ some v → number_at window_key new ≡ some window
  both-window e =
      Rewritten-other 32 window_rest display-window-AreApart b.of_display
      ∙ Rewritten-number 32 window_rest b.of_window window-IsKey window-ends_differ e

  both-display :
      {v : ℕ} → number_at display_key text ≡ some v → number_at display_key new ≡ some display
  both-display f =
      Rewritten-number 32 display_rest b.of_display display-IsKey display-ends_differ
        (Rewritten-other 32 display_rest window-display-AreApart b.of_window ∙ f)

  both-layout : layout new ≡ layout text
  both-layout = Rewritten-layout b.of_display ∙ Rewritten-layout b.of_window

-- A text in which both keys have a whole number, however large (behind the digits only blanks or a
-- comment are left of the line), is always rewritten, and in the new text the first line of each key
-- has the number that was asked for as its whole number, while the two texts are the same without the
-- characters of numbers.
pub persist_trend_config-rewrites :
    (text : Text) (window display old_window old_display : ℕ)
    → number_at window_key text ≡ some old_window
    → number_at display_key text ≡ some old_display
    → (new : Text) × (persist_trend_config text window display ≡ some new)
      × (number_at window_key new ≡ some window)
      × (number_at display_key new ≡ some display)
      × (layout new ≡ layout text)
unfolding persist_trend_config
persist_trend_config-rewrites text window display old_window old_display e f =
    let first = number_at-Rewritten window_key window text e in
    let of_window = replaced-Rewritten window_key window text first.0 first.1 in
    let kept = Rewritten-other 32 display_rest window-display-AreApart of_window ∙ f in
    let second = number_at-Rewritten display_key display first.0 kept in
    let b : BothRewritten window display text second.0 = record {
      first = first.0;
      of_window = of_window;
      of_display = replaced-Rewritten display_key display first.0 second.0 second.1;
    } in
    (
      second.0,
      rw
          (
            insert_webapp_key-number_at window_key text window e,
            insert_webapp_key-number_at display_key text display f,
            first.1,
          )
          second.1,
      both-window b e,
      both-display b f,
      both-layout b,
    )
