-- ===== src/Settings/Persist.antt =====
-- main.py: `_persist_nominal_rate_hz`, `_persist_trend_config` and `_persist_anomalies_config`, from
-- the text of pika.yaml to the text that replaces it; `none` is FileNotFoundError, before a write.
pub mod Rate
pub mod Layout
pub mod Number
pub mod Keys
pub mod Trend
pub mod Splits
pub mod Thresholds
pub mod Examples
use pika_pika.Prelude.{
  ℕ, ◌++◌, ◌==◌, Bool, true, false, Option, none, some, List, [], ◌∷◌, if◌then◌else◌,
}
use pika_pika.Prelude.Int.{ℤ}
use pika_pika.Text.{Text, codes}
use pika_pika.Web.Storage.{starts_with}
use pika_pika.Settings.Pattern.{
  Hit, is_digit, is_decimal, run, signed_run, behind, blanks, skip_blanks, hit_of, field,
  search_lines, first_hit, replaced,
}
use pika_pika.Settings.Decimal.{str_nat, str_int}

abbrev pub nominal_rate_key : Text
nominal_rate_key = codes "  nominal_rate_hz:"

abbrev pub window_key : Text
window_key = codes "  history_window_minutes:"

abbrev pub display_key : Text
display_key = codes "  history_display_points:"

-- The first line that begins with the key and a whole number.
abbrev pub whole_number : Text → Text → Option Hit
whole_number key = first_hit (field key (run is_digit))

unfoldable pub persist_nominal_rate_hz : Text → ℕ → Option Text
persist_nominal_rate_hz text sample_rate =
    replaced (whole_number nominal_rate_key text) (str_nat sample_rate)

-- A literal at the beginning of a line.
unfoldable pub literal : Text → Text → Option Hit
literal p s = elim (behind p s) [ none ↦ none | some rest ↦ hit_of p (some ([], rest)) ]

-- A run of blanks up to its last line feed, and what is left of it.
unfoldable pub last_newline : Text → Option (Text × Text)
last_newline [] = none
last_newline (c ∷ s) = elim (last_newline s) [
  | some (u, v) ↦ some (c ∷ u, v)
  | none ↦ if c == 10 then some (c ∷ [], s) else none
]

-- `(webapp:\s*\n)`.
unfoldable pub webapp_line : Text → Option Hit
unfolding last_newline behind blanks skip_blanks
webapp_line s = elim (behind (codes "webapp:") s) [
  | none ↦ none
  | some rest ↦ elim (last_newline (blanks rest)) [
    | none ↦ none
    | some (u, v) ↦ hit_of (codes "webapp:" ++ u) (some ([], v ++ skip_blanks rest))
  ]
]

-- The key is given as the beginning of its line, two blanks and a colon included.
unfoldable pub insert_webapp_key : Text → Text → ℕ → Option Text
unfolding literal webapp_line
insert_webapp_key text key value = elim (first_hit (literal key) text) [
  | some h ↦ some text
  | none ↦
      replaced (first_hit webapp_line text) (key ++ (codes " " ++ (str_nat value ++ (10 ∷ []))))
]

abbrev pub then_also : Option Text → (Text → Option Text) → Option Text
then_also none f = none
then_also (some text) f = f text

unfoldable pub persist_trend_config : Text → ℕ → ℕ → Option Text
persist_trend_config text window display =
    then_also (insert_webapp_key text window_key window) (λ inserted.
      then_also (insert_webapp_key inserted display_key display) (λ both.
        then_also (replaced (whole_number window_key both) (str_nat window))
          (λ first. replaced (whole_number display_key first) (str_nat display))))

abbrev pub prefix_hit : Text → Option Hit → Option Hit
prefix_hit p none = none
prefix_hit p (some h) = some (record h { before = p ++ h.before })

-- A number in a block: `(  sag:\n(?:    .*\n)*?    key:\s*)` and a number.
unfoldable pub in_block : Text → (Text → Option Hit) → Text → Option Hit
in_block header m s = elim (behind header s) [
  | none ↦ none
  | some rest ↦ prefix_hit header (search_lines (starts_with (codes "    ")) m true rest)
]

abbrev pub sag_header : Text
sag_header = codes "  sag:" ++ (10 ∷ [])

abbrev pub swell_header : Text
swell_header = codes "  swell:" ++ (10 ∷ [])

pub record Anomalies (W : Type 0) : Type 0 where
  pub sag_threshold_pct : ℤ
  pub swell_threshold_pct : ℤ
  pub sag_min_duration_ms : ℤ
  pub swell_min_duration_ms : ℤ
  pub target_mains_vrms : W
  pub sag_cooldown_ms : ℤ
  pub swell_cooldown_ms : ℤ

-- A pattern and the number that is put in.
abbrev pub Replacement : Type 0
Replacement = (Text → Option Hit) × Text

-- `print_tenths` is the format `.1f`.
unfoldable pub replacements : {W : Type 0} → (W → Text) → Anomalies W → List Replacement
replacements print_tenths values =
    (
      in_block sag_header (field (codes "    threshold_pct:") signed_run),
      str_int values.sag_threshold_pct,
    )
    ∷ (
      in_block sag_header (field (codes "    min_duration_ms:") (run is_digit)),
      str_int values.sag_min_duration_ms,
    )
    ∷ (
      in_block swell_header (field (codes "    threshold_pct:") signed_run),
      str_int values.swell_threshold_pct,
    )
    ∷ (
      in_block swell_header (field (codes "    min_duration_ms:") (run is_digit)),
      str_int values.swell_min_duration_ms,
    )
    ∷ (field (codes "  target_mains_vrms:") (run is_decimal), print_tenths values.target_mains_vrms)
    ∷ (field (codes "  sag_cooldown_ms:") (run is_digit), str_int values.sag_cooldown_ms)
    ∷ (field (codes "  swell_cooldown_ms:") (run is_digit), str_int values.swell_cooldown_ms)
    ∷ []

unfoldable pub replace_all : List Replacement → Text → Option Text
replace_all [] text = some text
replace_all ((pattern, number) ∷ rest) text =
    then_also (replaced (first_hit pattern text) number) (λ t. replace_all rest t)

unfoldable pub persist_anomalies_config :
    {W : Type 0} → (W → Text) → Text → Anomalies W → Option Text
persist_anomalies_config print_tenths text values =
    replace_all (replacements print_tenths values) text
