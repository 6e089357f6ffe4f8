-- ===== src/Settings/Update/Examples.antt =====
-- Requests for settings on small files, and applications of the theorems.
use pika_pika.Prelude.{
  ℕ, ◌++◌, ◌≡◌, refl, true, false, Option, none, some, List, [], ◌∷◌, arith, ok, error,
}
use pika_pika.Prelude.Int.{pos, negsuc}
use pika_pika.Float.Fixed.{Fixed, fixed_float}
use pika_pika.Text.{Text, codes, same}
use pika_pika.Web.Storage.{starts_with}
use pika_pika.Observations.Validate.{int}
use pika_pika.History.Trend.{peek_decimated_rate}
use pika_pika.Settings.Pattern.{
  is_digit, is_decimal, is_word, is_blank, begins_word, is_boundary, run, signed_run, behind,
  blanks, skip_blanks, field, search_lines, replaced,
}
use pika_pika.Settings.Decimal.{digits_from, str_nat, str_int}
use pika_pika.Settings.Persist.{
  window_key, display_key, persist_nominal_rate_hz, in_block, replacements, replace_all,
  persist_anomalies_config,
}
use pika_pika.Settings.Persist.Layout.{is_numeric}
use pika_pika.Settings.Persist.Number.{number_at}
use pika_pika.Settings.Persist.Layout.{AreNumeric}
use pika_pika.Settings.Config.{
  null, attribute_error, get_history_max_points, Node, mapping, end, entry, lookup, get, get_or,
  or_empty, window_from, int_of, clamp, setting, nested_setting, get_history_window_minutes,
  get_history_display_points, get_sag_threshold_pct, get_swell_threshold_pct, get_target_mains_vrms,
  get_sag_min_duration_ms, get_swell_min_duration_ms, get_sag_cooldown_ms, get_swell_cooldown_ms,
}
use pika_pika.Settings.Config.Defaults.{load_config, get_anomalies_config}
use pika_pika.Settings.Update.{Server, Library, int_or, float_or, pika_yaml_path, saved, write_text}
use pika_pika.Settings.Update.Rate.{
  rate_updated, rate_not_allowed, is_among, is_allowed_rate, save_rate, write_rate, request_rate,
  update_sample_rate, RateOutcome, update_sample_rate-RateOutcome,
}
use pika_pika.Settings.Update.Trend.{TrendBody, trend_updated, payload_of, update_trend_config}
use pika_pika.Settings.Update.Trend.Outcome.{TrendOutcome, update_trend_config-TrendOutcome}
use pika_pika.Settings.Update.Trend.Shows.{LoadsTrend, update_trend_config-shows}
use pika_pika.Settings.Update.Limits.{
  AnomaliesBody, is_mains, values_of, broken_limit, answer_anomalies, save_anomalies,
  write_anomalies, check_anomalies, request_anomalies, update_anomalies_config,
}
use pika_pika.Settings.Update.Limits.Outcome.{
  AnomaliesOutcome, update_anomalies_config-AnomaliesOutcome,
}
use pika_pika.Settings.Persist.Examples.{newline, with_rate, with_trend, old_window, old_display}

abbrev number_or_zero : Option ℕ → ℕ
number_or_zero none = 0
number_or_zero (some n) = n

abbrev trend_node : ℕ → ℕ → Node Fixed
trend_node window display = mapping (
    entry (codes "webapp")
      (mapping (
        entry (codes "history_window_minutes") (Node.int (pos window))
          (entry (codes "history_display_points") (Node.int (pos display)) end)))
      end)

-- A reader of YAML that knows the two numbers of the trend pane.
abbrev library : Library Fixed
library = record {
  builtins = record {
    str_int = str_int;
    str_real = λ x. codes "0.0";
    lower = λ s. s;
    parse_int = λ s. none;
    parse_float = λ s. none;
  };
  print_tenths = λ x. codes "120.0";
  safe_load = λ t. some (
      trend_node (number_or_zero (number_at window_key t))
        (number_or_zero (number_at display_key t)));
}

abbrev server : Text → Server Fixed
server t = record {
  files = record { pika_yaml = some t; beside = none };
  config = trend_node 60 800;
  restarts = 0;
}

update_sample_rate-RateOutcome_example :
    RateOutcome library (some (some (int (pos 150_000)))) (server (with_rate (codes "10000"))) (
      update_sample_rate library
        (some (some (int (pos 150_000))))
        (server (with_rate (codes "10000"))))
update_sample_rate-RateOutcome_example =
    update_sample_rate-RateOutcome library (some (some (int (pos 150_000))))
      (server (with_rate (codes "10000")))

-- This request is met, and one for a rate between two allowed ones is not.
rate_accepted :
    (update_sample_rate library
      (some (some (int (pos 150_000))))
      (server (with_rate (codes "10000")))).0
    ≡ rate_updated 150_000 false
unfolding update_sample_rate int_or request_rate is_allowed_rate is_among pika_yaml_path write_rate
    save_rate persist_nominal_rate_hz search_lines field run is_digit is_word is_blank begins_word
    is_boundary behind blanks skip_blanks replaced str_nat digits_from
rate_accepted = refl

rate_refused :
    (update_sample_rate library
      (some (some (int (pos 150))))
      (server (with_rate (codes "10000")))).0
    ≡ rate_not_allowed
unfolding update_sample_rate int_or request_rate is_allowed_rate is_among
rate_refused = refl

library-LoadsTrend : LoadsTrend (with_trend (codes "60") (codes "800")) 120 1500 library.safe_load
unfolding lookup same
library-LoadsTrend t p e f = (
  trend_node 120 1500,
  rw (e, f) refl,
  record {
    top = _;
    webapp = _;
    is_mapping = refl;
    has_webapp = refl;
    has_window = refl;
    has_display = refl;
  },
)

abbrev trend_server : Server Fixed
trend_server = server (with_trend (codes "60") (codes "800"))

abbrev trend_request : TrendBody Fixed
trend_request = record {
  history_window_minutes = some (int (pos 120));
  history_display_points = some (int (pos 1500));
}

old_window_minutes :
    get_history_window_minutes library.builtins.parse_int trend_server.config ≡ ok (pos 60)
unfolding get_history_window_minutes get_or get lookup same or_empty window_from int_of clamp
old_window_minutes = refl

old_display_points :
    get_history_display_points library.builtins.parse_int trend_server.config ≡ ok (pos 800)
unfolding get_history_display_points get_or get lookup same or_empty int_of clamp
old_display_points = refl

update_trend_config-shows_example :
    (update_trend_config library none (some trend_request) trend_server).0
    ≡ trend_updated (payload_of (peek_decimated_rate none) (pos 120) (pos 1500))
update_trend_config-shows_example =
    update_trend_config-shows library none 120 1500 60 800 (pos 60) (pos 800) trend_server
      (with_trend (codes "60") (codes "800")) (omega arith) (omega arith) refl old_window
      old_display old_window_minutes old_display_points library-LoadsTrend

update_trend_config-TrendOutcome_example :
    TrendOutcome library none
      (some trend_request)
      trend_server
      (update_trend_config library none (some trend_request) trend_server)
update_trend_config-TrendOutcome_example =
    update_trend_config-TrendOutcome library none (some trend_request) trend_server

prints_tenths : (x : Fixed) → is_mains x ≡ true → AreNumeric (library.print_tenths x)
unfolding is_numeric is_decimal
prints_tenths x h = (refl, (refl, (refl, (refl, (refl, tt)))))

abbrev lines : List Text → Text
lines [] = []
lines (l ∷ ls) = l ++ (newline ++ lines ls)

abbrev thresholds : Text
thresholds = lines (
    codes "anomalies:"
    ∷ codes "  sag:"
    ∷ codes "    threshold_pct: -10  # low"
    ∷ codes "    min_duration_ms: 9"
    ∷ codes "  swell:"
    ∷ codes "    threshold_pct: 10"
    ∷ codes "    min_duration_ms: 9"
    ∷ codes "  target_mains_vrms: 119.9"
    ∷ codes "  sag_cooldown_ms: 1000"
    ∷ codes "  swell_cooldown_ms: 1000"
    ∷ [])

abbrev thresholds_request : AnomaliesBody Fixed
thresholds_request = record {
  sag_threshold_pct = some (int (negsuc 14));
  swell_threshold_pct = none;
  sag_min_duration_ms = none;
  swell_min_duration_ms = none;
  target_mains_vrms = none;
  sag_cooldown_ms = none;
  swell_cooldown_ms = none;
}

update_anomalies_config-AnomaliesOutcome_example :
    AnomaliesOutcome library prints_tenths
      (server thresholds)
      (update_anomalies_config library (some thresholds_request) (server thresholds))
update_anomalies_config-AnomaliesOutcome_example =
    update_anomalies_config-AnomaliesOutcome library prints_tenths (some thresholds_request)
      (server thresholds)

-- The request is met.
thresholds_accepted :
    (update_anomalies_config library (some thresholds_request) (server thresholds)).1.restarts ≡ 1
unfolding update_anomalies_config int_or float_or values_of broken_limit request_anomalies
    check_anomalies write_anomalies save_anomalies answer_anomalies pika_yaml_path
    persist_anomalies_config replacements replace_all in_block starts_with search_lines field run
    signed_run is_digit is_decimal is_word is_blank begins_word is_boundary behind blanks
    skip_blanks replaced str_int str_nat digits_from saved write_text load_config
    get_anomalies_config get_sag_threshold_pct get_swell_threshold_pct get_target_mains_vrms
    get_sag_min_duration_ms get_swell_min_duration_ms get_sag_cooldown_ms get_swell_cooldown_ms
    nested_setting setting get_or get lookup same int_of
thresholds_accepted = refl

-- The getter of the window raises an exception on an empty section, which it means to allow for.
empty_section :
    get_history_window_minutes {W = Fixed} library.builtins.parse_int
      (mapping (entry (codes "webapp") null end))
    ≡ error attribute_error
unfolding get_history_window_minutes get_history_max_points setting get_or get lookup same or_empty
    window_from
empty_section = refl
