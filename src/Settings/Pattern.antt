-- ===== src/Settings/Pattern.antt =====
-- main.py: the regular expressions by which a number in pika.yaml is found and replaced, in Python's
-- order of attempts. `\d`, `\s` and `\w` are those of ASCII.
pub mod Before
pub mod Field
pub mod Again
pub mod Other
use pika_pika.Prelude.{
  ℕ, ◌++◌, ◌==◌, leb, Bool, true, false, not, ◌&&◌, ◌||◌, Option, none, some, List, [], ◌∷◌,
  if◌then◌else◌,
}
use pika_pika.Text.{Text, codes}

-- A match: the text before the number, the number, and the text behind it.
pub record Hit : Type 0 where
  pub before : Text
  pub number : Text
  pub after : Text

abbrev within : ℕ → ℕ → ℕ → Bool
within a b c = leb a c && leb c b

-- `\d`.
unfoldable pub is_digit : ℕ → Bool
is_digit c = within 48 57 c

-- `[0-9.]`.
unfoldable pub is_decimal : ℕ → Bool
is_decimal c = within 48 57 c || c == 46

-- `\w`.
unfoldable pub is_word : ℕ → Bool
is_word c = within 48 57 c || (within 65 90 c || (within 97 122 c || c == 95))

-- `\s`.
unfoldable pub is_blank : ℕ → Bool
is_blank c = within 9 13 c || within 28 32 c

unfoldable pub begins_word : Text → Bool
unfolding is_word
begins_word [] = false
begins_word (c ∷ s) = is_word c

-- `\b`, between a character and the text behind it.
unfoldable pub is_boundary : ℕ → Text → Bool
unfolding begins_word is_word
is_boundary c s = if is_word c then not (begins_word s) else begins_word s

-- A class of characters, one or more times, up to `\b`: the longest such run, and what follows it.
unfoldable pub run : (ℕ → Bool) → Text → Option (Text × Text)
run cls [] = none
run cls (c ∷ s) =
    if cls c
    then elim (run cls s) [
      | some (m, r) ↦ some (c ∷ m, r)
      | none ↦ if is_boundary c s then some (c ∷ [], s) else none
    ]
    else none

-- `-?\d+\b`.
unfoldable pub signed_run : Text → Option (Text × Text)
signed_run [] = none
signed_run (c ∷ s) =
    if c == 45
    then elim (run is_digit s) [ some (m, r) ↦ some (c ∷ m, r) | none ↦ none ]
    else run is_digit (c ∷ s)

-- What follows a literal.
unfoldable pub behind : Text → Text → Option Text
behind [] s = some s
behind (c ∷ p) [] = none
behind (c ∷ p) (d ∷ s) = if c == d then behind p s else none

-- `\s*` and what it leaves.
unfoldable pub blanks : Text → Text
blanks [] = []
blanks (c ∷ s) = if is_blank c then c ∷ blanks s else []

unfoldable pub skip_blanks : Text → Text
skip_blanks [] = []
skip_blanks (c ∷ s) = if is_blank c then skip_blanks s else c ∷ s

abbrev pub hit_of : Text → Option (Text × Text) → Option Hit
hit_of b none = none
hit_of b (some (m, r)) = some (record { before = b; number = m; after = r })

-- `key\s*` and a number.
unfoldable pub field : Text → (Text → Option (Text × Text)) → Text → Option Hit
unfolding behind blanks skip_blanks
field key number s = elim (behind key s) [
  | none ↦ none
  | some rest ↦ hit_of (key ++ blanks rest) (number (skip_blanks rest))
]

abbrev pub cons_hit : ℕ → Option Hit → Option Hit
cons_hit c none = none
cons_hit c (some h) = some (record h { before = c ∷ h.before })

abbrev pub or_hit : Option Hit → Option Hit → Option Hit
or_hit (some h) other = some h
or_hit none other = other

-- The first match that begins a line, in a text that begins one or not, as long as each line that
-- is passed over satisfies the test.
unfoldable pub search_lines : (Text → Bool) → (Text → Option Hit) → Bool → Text → Option Hit
search_lines passes m at_start [] = none
search_lines passes m false (c ∷ s) = cons_hit c (search_lines passes m (c == 10) s)
search_lines passes m true (c ∷ s) =
    or_hit (m (c ∷ s))
      (if passes (c ∷ s) then cons_hit c (search_lines passes m (c == 10) s) else none)

abbrev pub any_line : Text → Bool
any_line s = true

-- `(?m)^…`.
abbrev pub first_hit : (Text → Option Hit) → Text → Option Hit
first_hit m = search_lines any_line m true

-- `re.subn(pattern, \g<1>number\2, text, count=1)`, `none` for no substitution.
unfoldable pub replaced : Option Hit → Text → Option Text
replaced none number = none
replaced (some h) number = some (h.before ++ (number ++ h.after))
