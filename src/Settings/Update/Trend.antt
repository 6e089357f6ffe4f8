-- ===== src/Settings/Update/Trend.antt =====
-- main.py: `_trend_config_payload`, `get_trend_config` and `update_trend_config`.
pub mod Outcome
pub mod Shows
use pika_pika.Prelude.{
  ℕ, ◌*◌, Bool, true, false, Option, none, some, List, if◌then◌else◌, Result, ok, error, and_then,
}
use pika_pika.Prelude.Int.{ℤ, pos, times, pos_part}
use pika_pika.Float.{Float}
use pika_pika.Text.{Text}
use pika_pika.History.Trend.{peek_decimated_rate}
use pika_pika.Observations.Validate.{Value}
use pika_pika.Settings.Persist.{persist_trend_config}
use pika_pika.Settings.Config.{Node, Raised, get_history_window_minutes, get_history_display_points}
use pika_pika.Settings.Update.{pika_yaml_path, Server, Library, int_or, saved, is_between}

pub record TrendPayload : Type 0 where
  pub history_window_minutes : ℤ
  pub history_display_points : ℤ
  pub iec_rate : ℕ
  pub source_points : ℤ
  pub window_seconds : ℤ

pub data TrendReply : Type 0 where
  window_out_of_range display_out_of_range trend_no_file trend_failed : TrendReply
  trend_updated : TrendPayload → TrendReply

pub record TrendBody (W : Type 0) : Type 0 where
  pub history_window_minutes : Option (Value W)
  pub history_display_points : Option (Value W)

-- `TREND_WINDOW_MIN` to `TREND_DISPLAY_MAX`.
abbrev pub trend_window_min : ℤ
trend_window_min = pos 1

abbrev pub trend_window_max : ℤ
trend_window_max = pos 720

abbrev pub trend_display_min : ℤ
trend_display_min = pos 100

abbrev pub trend_display_max : ℤ
trend_display_max = pos 2000

-- The payload; `trend` is the file of which the rate is read.
unfoldable pub payload_of : ℕ → ℤ → ℤ → TrendPayload
payload_of iec_rate window_minutes display_points = record {
  history_window_minutes = window_minutes;
  history_display_points = display_points;
  iec_rate = iec_rate;
  source_points = times (60 * iec_rate) window_minutes;
  window_seconds = times 60 window_minutes;
}

module _ {W : Type 0} ⦃fl : Float W⦄ (lib : Library W) where
  unfoldable pub trend_config_payload : Option (List ℕ) → Node W → Result Raised TrendPayload
  trend_config_payload trend config =
      and_then (get_history_window_minutes lib.builtins.parse_int config) (λ window_minutes.
        and_then (get_history_display_points lib.builtins.parse_int config) (λ display_points.
          ok (payload_of (peek_decimated_rate trend) window_minutes display_points)))

  unfoldable pub answer_trend : Server W → Result Raised TrendPayload → TrendReply × Server W
  answer_trend s (ok payload) = (trend_updated payload, s)
  answer_trend s (error e) = (trend_failed, s)

  -- With the text that replaces the file's.
  unfoldable pub save_trend : Option (List ℕ) → Server W → Option Text → TrendReply × Server W
  save_trend trend s none = (trend_failed, s)
  save_trend trend s (some new) =
      let t = saved lib s new in answer_trend t (trend_config_payload trend t.config)

  -- With the file's text.
  unfoldable pub write_trend :
      Option (List ℕ) → Server W → ℕ → ℕ → Option Text → TrendReply × Server W
  write_trend trend s window display none = (trend_no_file, s)
  write_trend trend s window display (some old) =
      save_trend trend s (persist_trend_config old window display)

  unfoldable pub request_trend :
      Option (List ℕ) → Server W → Option ℤ → Option ℤ → TrendReply × Server W
  request_trend trend s none display = (trend_failed, s)
  request_trend trend s (some window) none = (trend_failed, s)
  request_trend trend s (some window) (some display) =
      if is_between trend_window_min trend_window_max window
      then if is_between trend_display_min trend_display_max display
        then write_trend trend s (pos_part window) (pos_part display) (pika_yaml_path s.files)
        else (display_out_of_range, s)
      else (window_out_of_range, s)

  -- `int(body.get(key, getter()))`: the getter is called in any case.
  unfoldable pub requested : Result Raised ℤ → Option (Value W) → Option ℤ
  requested (error e) field = none
  requested (ok default) field = int_or lib default field

  -- `none` is a body that is no JSON object.
  unfoldable pub update_trend_config :
      Option (List ℕ) → Option (TrendBody W) → Server W → TrendReply × Server W
  update_trend_config trend none s = (trend_failed, s)
  update_trend_config trend (some b) s =
      request_trend trend s
        (requested (get_history_window_minutes lib.builtins.parse_int s.config)
          b.history_window_minutes)
        (requested (get_history_display_points lib.builtins.parse_int s.config)
          b.history_display_points)
