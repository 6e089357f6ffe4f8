-- ===== src/Settings/Persist/Keys.antt =====
-- The keys of pika.yaml that stand directly in a section, and how they differ.
use pika_pika.Prelude.{◌≡◌, refl, true}
use pika_pika.Text.{Text, codes}
use pika_pika.Settings.Pattern.{begins_word, is_word, run, is_digit, skip_blanks, is_blank}
use pika_pika.Settings.Pattern.Before.{IsKey, line_ends, differ, ends_differ}
use pika_pika.Settings.Pattern.Other.{AreApart, stops, is_one_line}
use pika_pika.Settings.Persist.{nominal_rate_key, window_key, display_key}

-- The keys without their first blank.
abbrev pub nominal_rate_rest : Text
nominal_rate_rest = codes " nominal_rate_hz:"

abbrev pub window_rest : Text
window_rest = codes " history_window_minutes:"

abbrev pub display_rest : Text
display_rest = codes " history_display_points:"

pub nominal_rate-IsKey : IsKey nominal_rate_key
unfolding begins_word is_word run is_digit skip_blanks is_blank line_ends
nominal_rate-IsKey = record {
  no_word = λ t. refl;
  no_number = λ t. refl;
  no_number_behind = λ t. refl;
  no_line_end = λ seen t. refl;
}

pub window-IsKey : IsKey window_key
unfolding begins_word is_word run is_digit skip_blanks is_blank line_ends
window-IsKey = record {
  no_word = λ t. refl;
  no_number = λ t. refl;
  no_number_behind = λ t. refl;
  no_line_end = λ seen t. refl;
}

pub display-IsKey : IsKey display_key
unfolding begins_word is_word run is_digit skip_blanks is_blank line_ends
display-IsKey = record {
  no_word = λ t. refl;
  no_number = λ t. refl;
  no_number_behind = λ t. refl;
  no_line_end = λ seen t. refl;
}

pub nominal_rate-ends_differ : ends_differ nominal_rate_key nominal_rate_rest ≡ true
unfolding ends_differ differ
nominal_rate-ends_differ = refl

pub window-ends_differ : ends_differ window_key window_rest ≡ true
unfolding ends_differ differ
window-ends_differ = refl

pub display-ends_differ : ends_differ display_key display_rest ≡ true
unfolding ends_differ differ
display-ends_differ = refl

pub window-display-AreApart : AreApart window_key 32 display_rest
unfolding ends_differ differ stops is_one_line is_blank is_digit
window-display-AreApart = record {
  is_key = window-IsKey;
  one_line = refl;
  ends = refl;
  differs = refl;
  stop = refl;
}

pub display-window-AreApart : AreApart display_key 32 window_rest
unfolding ends_differ differ stops is_one_line is_blank is_digit
display-window-AreApart = record {
  is_key = display-IsKey;
  one_line = refl;
  ends = refl;
  differs = refl;
  stop = refl;
}
