-- ===== src/Settings/Update/Trend/Shows.antt =====
-- A request for trend settings in their ranges is met.
use pika_pika.Prelude.{ℕ, ◌≡◌, refl, ap, ◌∙◌, ◌≤◌, true, Option, some, List, ok, arith}
use pika_pika.Prelude.Int.{ℤ, pos}
use pika_pika.Float.{Float}
use pika_pika.Text.{Text, codes}
use pika_pika.History.Trend.{peek_decimated_rate}
use pika_pika.Observations.Validate.{int}
use pika_pika.Settings.Persist.{window_key, display_key, persist_trend_config}
use pika_pika.Settings.Persist.Number.{number_at}
use pika_pika.Settings.Persist.Trend.{persist_trend_config-rewrites}
use pika_pika.Settings.Config.{
  Node, mapping, Fields, lookup, get_history_window_minutes, get_history_display_points,
}
use pika_pika.Settings.Config.Defaults.{load_config}
use pika_pika.Settings.Config.Range.{get_history_settings-IsSetting}
use pika_pika.Settings.Update.{
  pika_yaml_path, write_text, Server, Library, saved, is_between, int_or,
}
use pika_pika.Settings.Update.Trend.{
  trend_updated, payload_of, trend_config_payload, answer_trend, save_trend, write_trend,
  request_trend, requested, update_trend_config, trend_window_min, trend_window_max,
  trend_display_min, trend_display_max,
}

-- A YAML value in which the two settings of the `webapp` section are these numbers.
pub record HasTrend {W : Type 0} (window display : ℕ) (n : Node W) : Type 0 where
  pub top : Fields W
  pub webapp : Fields W
  pub is_mapping : n ≡ mapping top
  pub has_webapp : lookup (codes "webapp") top ≡ some (mapping webapp)
  pub has_window : lookup (codes "history_window_minutes") webapp ≡ some (Node.int (pos window))
  pub has_display : lookup (codes "history_display_points") webapp ≡ some (Node.int (pos display))

-- On the text that is written, `safe_load` reads in the `webapp` section the numbers of the first
-- lines of the two keys.
abbrev pub LoadsTrend : {W : Type 0} → Text → ℕ → ℕ → (Text → Option (Node W)) → Type 0
LoadsTrend {W} old window display safe_load =
    (t : Text)
    → persist_trend_config old window display ≡ some t
    → number_at window_key t ≡ some window
    → number_at display_key t ≡ some display
    → (n : Node W) × (safe_load t ≡ some n) × HasTrend window display n

module _ {W : Type 0} ⦃fl : Float W⦄ (lib : Library W) (trend : Option (List ℕ)) where
  payload-HasTrend :
      (window display : ℕ) (n : Node W)
      → (1 ≤ window) × (window ≤ 720)
      → (100 ≤ display) × (display ≤ 2000)
      → HasTrend window display n
      → trend_config_payload lib trend n
        ≡ ok (payload_of (peek_decimated_rate trend) (pos window) (pos display))
  unfolding trend_config_payload
  payload-HasTrend window display n w d h =
      let read =
        get_history_settings-IsSetting lib.builtins.parse_int h.top h.webapp (pos window)
          (pos display) h.has_webapp h.has_window h.has_display in
      let minutes = read.0.1 ∙ ap ok (read.0.3 (omega arith)) in
      let points = read.1.1 ∙ ap ok (read.1.3 (omega arith)) in
      rw (h.is_mapping, minutes, points) refl

  -- The file that is loaded again is the one that has been written.
  reload :
      (s : Server W) (old new : Text) (n : Node W)
      → s.files.pika_yaml ≡ some old
      → lib.safe_load new ≡ some n
      → (saved lib s new).config ≡ n
  unfolding saved write_text load_config
  reload s old new n e f = rw e (rw f refl)

  path_of :
      (s : Server W) (old : Text) → s.files.pika_yaml ≡ some old → pika_yaml_path s.files ≡ some old
  unfolding pika_yaml_path
  path_of s old e = rw e refl

  -- A request for a window from 1 to 720 minutes and from 100 to 2000 display points is answered
  -- with success and with just these numbers, on a state in which pika.yaml is there, both keys have a
  -- whole number in it (behind the digits only blanks or a comment are left of the line) and the two
  -- getters raise no exception, where `yaml.safe_load` reads in the `webapp` section of the text that
  -- is written the numbers of the first lines of the two keys.
  pub update_trend_config-shows :
      (window display old_window old_display : ℕ) (default_window default_display : ℤ)
      (s : Server W) (old : Text)
      → (1 ≤ window) × (window ≤ 720)
      → (100 ≤ display) × (display ≤ 2000)
      → s.files.pika_yaml ≡ some old
      → number_at window_key old ≡ some old_window
      → number_at display_key old ≡ some old_display
      → get_history_window_minutes lib.builtins.parse_int s.config ≡ ok default_window
      → get_history_display_points lib.builtins.parse_int s.config ≡ ok default_display
      → LoadsTrend old window display lib.safe_load
      → (update_trend_config lib trend
          (some (record {
            history_window_minutes = some (int (pos window));
            history_display_points = some (int (pos display));
          }))
          s).0
        ≡ trend_updated (payload_of (peek_decimated_rate trend) (pos window) (pos display))
  unfolding update_trend_config requested int_or request_trend write_trend save_trend answer_trend
  update_trend_config-shows window display old_window old_display default_window default_display s
        old w d e f g a b loads =
      let rewritten = persist_trend_config-rewrites old window display old_window old_display f g in
      let loaded = loads rewritten.0 rewritten.1 rewritten.2 rewritten.3 in
      let in_window : is_between trend_window_min trend_window_max (pos window) ≡ true =
        ground arith in
      let in_display : is_between trend_display_min trend_display_max (pos display) ≡ true =
        ground arith in
      let again = reload s old rewritten.0 loaded.0 e loaded.1 in
      let payload = payload-HasTrend window display loaded.0 w d loaded.2 in
      rw (a, b, in_window, in_display, path_of s old e, rewritten.1)
        (rw (save_trend, again, payload) refl)
