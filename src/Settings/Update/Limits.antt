-- ===== src/Settings/Update/Limits.antt =====
-- main.py: `update_anomalies_config`.
pub mod Outcome
use pika_pika.Prelude.{
  ℕ, Bool, true, false, ◌&&◌, Option, none, some, if◌then◌else◌, Result, ok, error,
}
use pika_pika.Prelude.Int.{ℤ, pos, negsuc}
use pika_pika.Float.{Float}
use pika_pika.Text.{Text}
use pika_pika.Observations.Validate.{Value}
use pika_pika.Settings.Persist.{Anomalies, persist_anomalies_config}
use pika_pika.Settings.Config.{Raised}
use pika_pika.Settings.Config.Defaults.{AnomaliesConfig, get_anomalies_config}
use pika_pika.Settings.Update.{
  pika_yaml_path, Server, Library, int_or, float_or, saved, restarted, is_between,
}

-- The fields of the request, in the order in which they are tested.
pub data Limit : Type 0 where
  sag_threshold swell_threshold sag_duration swell_duration mains sag_cooldown swell_cooldown :
      Limit

pub data AnomaliesReply (W : Type 0) : Type 0 where
  out_of_limit : Limit → AnomaliesReply W
  anomalies_no_file anomalies_failed : AnomaliesReply W
  anomalies_updated : AnomaliesConfig W → AnomaliesReply W

pub record AnomaliesBody (W : Type 0) : Type 0 where
  pub sag_threshold_pct : Option (Value W)
  pub swell_threshold_pct : Option (Value W)
  pub sag_min_duration_ms : Option (Value W)
  pub swell_min_duration_ms : Option (Value W)
  pub target_mains_vrms : Option (Value W)
  pub sag_cooldown_ms : Option (Value W)
  pub swell_cooldown_ms : Option (Value W)

module _ {W : Type 0} ⦃fl : Float W⦄ where
  abbrev pub is_mains : W → Bool
  is_mains x = fl.le (fl.decimal 900 1) x && fl.le x (fl.decimal 1400 1)

  -- The first limit that the values break.
  unfoldable pub broken_limit : Anomalies W → Option Limit
  broken_limit v =
      if is_between (negsuc 49) (negsuc 0) v.sag_threshold_pct
      then if is_between (pos 1) (pos 50) v.swell_threshold_pct
        then if is_between (pos 1) (pos 60_000) v.sag_min_duration_ms
          then if is_between (pos 1) (pos 60_000) v.swell_min_duration_ms
            then if is_mains v.target_mains_vrms
              then if is_between (pos 0) (pos 60_000) v.sag_cooldown_ms
                then if is_between (pos 0) (pos 60_000) v.swell_cooldown_ms
                  then none
                  else some swell_cooldown
                else some sag_cooldown
              else some mains
            else some swell_duration
          else some sag_duration
        else some swell_threshold
      else some sag_threshold

abbrev pub with_some {ℓ κ} : {A : Type ℓ} {B : Type κ} → Option A → (A → Option B) → Option B
with_some none f = none
with_some (some a) f = f a

module _ {W : Type 0} ⦃fl : Float W⦄ (lib : Library W) where
  unfoldable pub values_of : AnomaliesBody W → Option (Anomalies W)
  values_of b = with_some (int_or lib (negsuc 9) b.sag_threshold_pct) (λ sag.
      with_some (int_or lib (pos 10) b.swell_threshold_pct) (λ swell.
        with_some (int_or lib (pos 9) b.sag_min_duration_ms) (λ sag_ms.
          with_some (int_or lib (pos 9) b.swell_min_duration_ms) (λ swell_ms.
            with_some (float_or lib (fl.decimal 1200 1) b.target_mains_vrms) (λ mains_v.
              with_some (int_or lib (pos 1000) b.sag_cooldown_ms) (λ sag_cool.
                with_some (int_or lib (pos 1000) b.swell_cooldown_ms) (λ swell_cool. some (record {
                  sag_threshold_pct = sag;
                  swell_threshold_pct = swell;
                  sag_min_duration_ms = sag_ms;
                  swell_min_duration_ms = swell_ms;
                  target_mains_vrms = mains_v;
                  sag_cooldown_ms = sag_cool;
                  swell_cooldown_ms = swell_cool;
                }))))))))

  unfoldable pub answer_anomalies :
      Server W → Result Raised (AnomaliesConfig W) → AnomaliesReply W × Server W
  answer_anomalies s (ok c) = (anomalies_updated c, s)
  answer_anomalies s (error e) = (anomalies_failed, s)

  -- With the text that replaces the file's.
  unfoldable pub save_anomalies : Server W → Option Text → AnomaliesReply W × Server W
  save_anomalies s none = (anomalies_failed, s)
  save_anomalies s (some new) =
      let t = restarted (saved lib s new) in
      answer_anomalies t (get_anomalies_config lib.builtins.parse_int t.config)

  -- With the file's text.
  unfoldable pub write_anomalies :
      Server W → Anomalies W → Option Text → AnomaliesReply W × Server W
  write_anomalies s v none = (anomalies_no_file, s)
  write_anomalies s v (some old) =
      save_anomalies s (persist_anomalies_config lib.print_tenths old v)

  unfoldable pub check_anomalies :
      Server W → Anomalies W → Option Limit → AnomaliesReply W × Server W
  check_anomalies s v (some limit) = (out_of_limit limit, s)
  check_anomalies s v none = write_anomalies s v (pika_yaml_path s.files)

  unfoldable pub request_anomalies : Server W → Option (Anomalies W) → AnomaliesReply W × Server W
  request_anomalies s none = (anomalies_failed, s)
  request_anomalies s (some v) = check_anomalies s v (broken_limit v)

  -- `none` is a body that is no JSON object.
  unfoldable pub update_anomalies_config :
      Option (AnomaliesBody W) → Server W → AnomaliesReply W × Server W
  update_anomalies_config none s = (anomalies_failed, s)
  update_anomalies_config (some b) s = request_anomalies s (values_of b)
