-- ===== src/Settings/Config/Defaults.antt =====
-- config_service.py: `load_config`, `_get_defaults` and `get_anomalies_config`.
use pika_pika.Prelude.{Option, none, some, Result, ok, and_then}
use pika_pika.Prelude.Int.{ℤ, pos, negsuc}
use pika_pika.Float.{Float, of_nat}
use pika_pika.Text.{Text, codes}
use pika_pika.Settings.Config.{
  Node, int, real, text, mapping, Fields, end, entry, Raised, get_sag_threshold_pct,
  get_swell_threshold_pct, get_target_mains_vrms, get_sag_min_duration_ms,
  get_swell_min_duration_ms, get_sag_cooldown_ms, get_swell_cooldown_ms,
}

module _ {W : Type 0} where
  abbrev pub whole : ℤ → Node W
  whole z = int z

module _ {W : Type 0} ⦃fl : Float W⦄ where
  abbrev pub sensor_defaults : Fields W
  sensor_defaults = entry (codes "adc_vref") (real (fl.decimal 495 2)) (
      entry (codes "adc_bits") (whole (pos 16)) (
        entry (codes "transformer_ratio") (real (fl.decimal 1200 1)) (
          entry (codes "target_mains_vrms") (real (fl.decimal 1200 1))
            (entry (codes "active_channels") (whole (pos 1)) end))))

  abbrev pub detection_defaults : Fields W
  detection_defaults = entry (codes "ac_freq_hz") (whole (pos 60)) (
      entry (codes "rms_window_cycles") (whole (pos 30))
        (entry (codes "learn_cycles") (whole (pos 1000)) end))

  abbrev pub anomaly_defaults : ℤ → Text → ℤ → Node W
  anomaly_defaults threshold duration_key duration =
      mapping
        (entry (codes "threshold_pct") (whole threshold) (entry duration_key (whole duration) end))

  abbrev pub anomalies_defaults : Fields W
  anomalies_defaults =
      entry (codes "sag") (anomaly_defaults (negsuc 9) (codes "min_duration_ms") (pos 9)) (
        entry (codes "swell") (anomaly_defaults (pos 10) (codes "min_duration_ms") (pos 9)) (
          entry (codes "spike") (anomaly_defaults (pos 20) (codes "max_duration_ms") (pos 100))
            end))

  abbrev pub review_defaults : Fields W
  review_defaults = entry (codes "interruption_pct") (whole (pos 10)) (
      entry (codes "deep_sag_pct") (whole (pos 70)) (
        entry (codes "damaging_swell_pct") (whole (pos 120)) (
          entry (codes "sustained_duration_ms") (whole (pos 60_000)) (
            entry (codes "range_b_low_pct") (real (fl.sub (of_nat 0) (fl.decimal 133 1)))
              (entry (codes "range_b_high_pct") (real (fl.decimal 58 1)) end)))))

  abbrev pub debounce_defaults : Fields W
  debounce_defaults = entry (codes "sag_cooldown_ms") (whole (pos 1000)) (
      entry (codes "swell_cooldown_ms") (whole (pos 1000))
        (entry (codes "spike_cooldown_ms") (whole (pos 1000)) end))

  abbrev pub webapp_defaults : Fields W
  webapp_defaults = entry (codes "history_window_minutes") (whole (pos 60)) (
      entry (codes "history_display_points") (whole (pos 800))
        (entry (codes "history_max_points") (whole (pos 20_000)) end))

  unfoldable pub get_defaults : Node W
  get_defaults = mapping (
      entry (codes "sensor") (mapping sensor_defaults) (
        entry (codes "detection") (mapping detection_defaults) (
          entry (codes "anomalies") (mapping anomalies_defaults) (
            entry (codes "review") (mapping review_defaults) (
              entry (codes "debounce") (mapping debounce_defaults) (
                entry (codes "logging") (mapping (entry (codes "level") (text (codes "info")) end))
                  (entry (codes "webapp") (mapping webapp_defaults) end)))))))

  -- The text of the file, `none` if there is none; `safe_load` is `none` where it raises.
  unfoldable pub load_config : (Text → Option (Node W)) → Option Text → Node W
  load_config safe_load none = get_defaults
  load_config safe_load (some t) = elim (safe_load t) [ none ↦ get_defaults | some n ↦ n ]

pub record AnomaliesConfig (W : Type 0) : Type 0 where
  pub sag_threshold_pct : Node W
  pub swell_threshold_pct : Node W
  pub sag_min_duration_ms : ℤ
  pub swell_min_duration_ms : ℤ
  pub target_mains_vrms : Node W
  pub sag_cooldown_ms : ℤ
  pub swell_cooldown_ms : ℤ

module _ {W : Type 0} ⦃fl : Float W⦄ (parse_int : Text → Option ℤ) where
  unfoldable pub get_anomalies_config : Node W → Result Raised (AnomaliesConfig W)
  get_anomalies_config c = and_then (get_sag_threshold_pct c) (λ sag.
      and_then (get_swell_threshold_pct c) (λ swell.
        and_then (get_sag_min_duration_ms parse_int c) (λ sag_ms.
          and_then (get_swell_min_duration_ms parse_int c) (λ swell_ms.
            and_then (get_target_mains_vrms c) (λ mains.
              and_then (get_sag_cooldown_ms parse_int c) (λ sag_cool.
                and_then (get_swell_cooldown_ms parse_int c) (λ swell_cool. ok (record {
                  sag_threshold_pct = sag;
                  swell_threshold_pct = swell;
                  sag_min_duration_ms = sag_ms;
                  swell_min_duration_ms = swell_ms;
                  target_mains_vrms = mains;
                  sag_cooldown_ms = sag_cool;
                  swell_cooldown_ms = swell_cool;
                }))))))))
