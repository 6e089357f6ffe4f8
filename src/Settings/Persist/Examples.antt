-- ===== src/Settings/Persist/Examples.antt =====
-- Runs of the functions that rewrite pika.yaml on two small files, and applications of the theorems.
use pika_pika.Prelude.{ℕ, ◌++◌, ◌≡◌, refl, none, some, [], ◌∷◌}
use pika_pika.Float.Fixed.{fixed_float}
use pika_pika.Text.{Text, codes}
use pika_pika.Settings.Pattern.{
  is_digit, is_word, is_blank, begins_word, is_boundary, run, behind, blanks, skip_blanks, field,
  search_lines, replaced,
}
use pika_pika.Settings.Pattern.{first_hit, is_decimal}
use pika_pika.Settings.Pattern.Before.{line_ends}
use pika_pika.Settings.Decimal.{digits_from, str_nat, value_from}
use pika_pika.Settings.Persist.{
  nominal_rate_key, window_key, display_key, persist_nominal_rate_hz, persist_trend_config, literal,
  webapp_line, last_newline, insert_webapp_key,
}
use pika_pika.Settings.Persist.Layout.{layout}
use pika_pika.Settings.Persist.Number.{number_at}
use pika_pika.Settings.Persist.Rate.{persist_nominal_rate_hz-number_at}
use pika_pika.Settings.Persist.Trend.{persist_trend_config-rewrites}

abbrev pub newline : Text
newline = 10 ∷ []

-- The sections of pika.yaml with the whole numbers.
abbrev pub with_rate : Text → Text
with_rate rate =
    codes "sampling:"
    ++ (newline ++ (codes "  nominal_rate_hz: " ++ (rate ++ (codes "  # Hz" ++ newline))))

abbrev pub with_trend : Text → Text → Text
with_trend window display =
    codes "webapp:"
    ++ (newline
        ++ (codes "  history_window_minutes: "
            ++ (window
                ++ (codes "  # shown"
                    ++ (newline ++ (codes "  history_display_points: " ++ (display ++ newline)))))))

rate_replaced :
    persist_nominal_rate_hz (with_rate (codes "10000")) 150_000 ≡ some (with_rate (codes "150000"))
unfolding persist_nominal_rate_hz search_lines field run is_digit is_word is_blank begins_word
    is_boundary behind blanks skip_blanks replaced str_nat digits_from
rate_replaced = refl

-- A missing key is inserted below the section's name, and then has the number.
key_inserted :
    persist_trend_config
      (codes "webapp:" ++ (newline ++ codes "  history_display_points: 800"))
      30
      900
    ≡ some (
        codes "webapp:"
        ++ (newline
            ++ (codes "  history_window_minutes: 30"
                ++ (newline ++ codes "  history_display_points: 900"))))
unfolding persist_trend_config insert_webapp_key literal webapp_line last_newline search_lines field
    run is_digit is_word is_blank begins_word is_boundary behind blanks skip_blanks replaced str_nat
    digits_from
key_inserted = refl

old_rate : number_at nominal_rate_key (with_rate (codes "10000")) ≡ some 10_000
unfolding search_lines field run is_digit is_word is_blank begins_word is_boundary behind blanks
    skip_blanks value_from line_ends
old_rate = refl

-- A number with a fraction is no whole number.
fraction_is_no_whole_number : number_at nominal_rate_key (with_rate (codes "10000.5")) ≡ none
unfolding search_lines field run is_digit is_word is_blank begins_word is_boundary behind blanks
    skip_blanks value_from line_ends
fraction_is_no_whole_number = refl

persist_nominal_rate_hz-number_at_example :
    (new : Text) × (persist_nominal_rate_hz (with_rate (codes "10000")) 150_000 ≡ some new)
    × (number_at nominal_rate_key new ≡ some 150_000)
    × (layout new ≡ layout (with_rate (codes "10000")))
    × ((later : ℕ)
        → persist_nominal_rate_hz new later
          ≡ persist_nominal_rate_hz (with_rate (codes "10000")) later)
persist_nominal_rate_hz-number_at_example =
    persist_nominal_rate_hz-number_at (with_rate (codes "10000")) 150_000 10_000 old_rate

pub old_window : number_at window_key (with_trend (codes "60") (codes "800")) ≡ some 60
unfolding search_lines field run is_digit is_word is_blank begins_word is_boundary behind blanks
    skip_blanks value_from line_ends
old_window = refl

pub old_display : number_at display_key (with_trend (codes "60") (codes "800")) ≡ some 800
unfolding search_lines field run is_digit is_word is_blank begins_word is_boundary behind blanks
    skip_blanks value_from line_ends
old_display = refl

persist_trend_config-rewrites_example :
    (new : Text) × (persist_trend_config (with_trend (codes "60") (codes "800")) 120 1500
      ≡ some new)
    × (number_at window_key new ≡ some 120)
    × (number_at display_key new ≡ some 1500)
    × (layout new ≡ layout (with_trend (codes "60") (codes "800")))
persist_trend_config-rewrites_example =
    persist_trend_config-rewrites (with_trend (codes "60") (codes "800")) 120 1500 60 800 old_window
      old_display

-- A fraction behind the digits stays.
fraction_kept :
    persist_nominal_rate_hz (with_rate (codes "10000.5")) 20_000
    ≡ some (with_rate (codes "20000.5"))
unfolding persist_nominal_rate_hz search_lines field run is_digit is_word is_blank begins_word
    is_boundary behind blanks skip_blanks replaced str_nat digits_from
fraction_kept = refl

-- So does a point at the end of a number.
point_kept :
    replaced
      (first_hit
        (field (codes "  target_mains_vrms:") (run is_decimal))
        (codes "  target_mains_vrms: 120."))
      (codes "125.0")
    ≡ some (codes "  target_mains_vrms: 125.0.")
unfolding search_lines field run is_decimal is_word is_blank begins_word is_boundary behind blanks
    skip_blanks replaced
point_kept = refl
