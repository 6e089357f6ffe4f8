-- ===== src/Observations/Export/Page.antt =====
-- observation_service.py: `_render_chart_html`, which puts JSON into a script of a page.
use pika_pika.Prelude.{
  ℕ, zero, suc, ◌≤◌, ◌≢◌, inl, inr, Bool-cases, Option, none, some, [], ◌∷◌, ◌++◌, arith, ◌==◌,
  if◌then◌else◌, length, All, All-append,
}
use pika_pika.Text.{Text, codes}

-- What follows a text at the start of another.
unfoldable pub after_prefix : Text → Text → Option Text
after_prefix [] s = some s
after_prefix (c ∷ p) [] = none
after_prefix (c ∷ p) (d ∷ s) = let rest = after_prefix p s in if c == d then rest else none

-- `str.replace` of a text that is not empty, from left to right, with at most `left` characters to go.
unfoldable pub replace_loop : ℕ → Text → Text → Text → Text
replace_loop zero old new s = s
replace_loop (suc left) old new [] = []
replace_loop (suc left) old new (c ∷ s) = elim (after_prefix old (c ∷ s)) [
  | none ↦ c ∷ replace_loop left old new s
  | some rest ↦ new ++ replace_loop left old new rest
]

unfoldable pub replace : Text → Text → Text → Text
replace old new s = replace_loop (length s) old new s

unfoldable pub safe_payload : Text → Text
safe_payload payload = replace (codes "<") (codes "\\u003c") payload

-- The template and the payload that `json.dumps` makes of the notes.
unfoldable pub render_chart_html : Text → Text → Text
render_chart_html template payload = replace (codes "__PAYLOAD__") (safe_payload payload) template

abbrev NoTag : Text → Type 0
NoTag s = All (λ c. c ≢ 60) s

escaped-NoTag : NoTag (codes "\\u003c")
escaped-NoTag = (
  (λ e. absurd (omega arith)),
  (
    (λ e. absurd (omega arith)),
    (
      (λ e. absurd (omega arith)),
      (
        (λ e. absurd (omega arith)),
        ((λ e. absurd (omega arith)), ((λ e. absurd (omega arith)), tt)),
      ),
    ),
  ),
)

replace_loop-NoTag :
    (left : ℕ) (s : Text)
    → length s ≤ left
    → NoTag (replace_loop left (codes "<") (codes "\\u003c") s)
unfolding replace_loop after_prefix
replace_loop-NoTag zero [] h = tt
replace_loop-NoTag zero (c ∷ s) h = absurd (omega arith)
replace_loop-NoTag (suc left) [] h = tt
replace_loop-NoTag (suc left) (c ∷ s) h = elim (Bool-cases (60 == c)) [
  | inl e ↦
      rw (replace_loop, after_prefix, e)
        (All-append (λ d. d ≢ 60) (codes "\\u003c")
          (replace_loop left (codes "<") (codes "\\u003c") s) escaped-NoTag
          (replace_loop-NoTag left s (omega arith)))
  | inr e ↦
      rw (replace_loop, after_prefix, e)
        ((λ same. ground (arith, same)), replace_loop-NoTag left s (omega arith))
]

-- The payload of the page's script has no `<`, so that no text of a note can end the script.
pub safe_payload-NoTag : (payload : Text) → All (λ c. c ≢ 60) (safe_payload payload)
unfolding safe_payload replace
safe_payload-NoTag payload = replace_loop-NoTag (length payload) payload (omega arith)
