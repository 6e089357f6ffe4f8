-- ===== src/Settings/Persist/Rate.antt =====
-- `_persist_nominal_rate_hz` changes one number, and that to the rate.
use pika_pika.Prelude.{ℕ, ◌≡◌, refl, some}
use pika_pika.Text.{Text}
use pika_pika.Settings.Pattern.{replaced}
use pika_pika.Settings.Persist.{nominal_rate_key, persist_nominal_rate_hz}
use pika_pika.Settings.Persist.Keys.{
  nominal_rate_rest, nominal_rate-IsKey, nominal_rate-ends_differ,
}
use pika_pika.Settings.Persist.Layout.{layout}
use pika_pika.Settings.Persist.Number.{
  number_at, replaced-Rewritten, Rewritten-layout, Rewritten-found, Rewritten-number,
  number_at-Rewritten,
}

-- A rewritten text is the same without the characters of numbers.
pub persist_nominal_rate_hz-layout :
    (text new : Text) (rate : ℕ)
    → persist_nominal_rate_hz text rate ≡ some new
    → layout new ≡ layout text
unfolding persist_nominal_rate_hz replaced
persist_nominal_rate_hz-layout text new rate e =
    Rewritten-layout (replaced-Rewritten nominal_rate_key rate text new e)

-- A text in which the first `nominal_rate_hz` line with digits has a whole number (behind the digits
-- only blanks or a comment are left of the line) is always rewritten. In the new text this line has the
-- given rate as its whole number, the two texts are the same without the characters of numbers (so
-- that keys, lines and the words of comments stay), and a later rewriting of the new text, to
-- whatever rate, gives what it would have given on the old one.
pub persist_nominal_rate_hz-number_at :
    (text : Text) (rate old_rate : ℕ)
    → number_at nominal_rate_key text ≡ some old_rate
    → (new : Text) × (persist_nominal_rate_hz text rate ≡ some new)
      × (number_at nominal_rate_key new ≡ some rate)
      × (layout new ≡ layout text)
      × ((later : ℕ) → persist_nominal_rate_hz new later ≡ persist_nominal_rate_hz text later)
unfolding persist_nominal_rate_hz replaced
persist_nominal_rate_hz-number_at text rate old_rate old =
    let (new, e) = number_at-Rewritten nominal_rate_key rate text old in
    let w = replaced-Rewritten nominal_rate_key rate text new e in
    let again =
      Rewritten-found 32 nominal_rate_rest w nominal_rate-IsKey nominal_rate-ends_differ in
    (
      new,
      e,
      Rewritten-number 32 nominal_rate_rest w nominal_rate-IsKey nominal_rate-ends_differ old,
      Rewritten-layout w,
      λ later. rw (again, w.found) refl,
    )
