-- ===== src/Settings/Update/Limits/Outcome.antt =====
-- A request for log thresholds either changes nothing or writes thresholds within the limits.
use pika_pika.Prelude.{
  suc, ◌≡◌, refl, ◌⊎◌, inl, inr, Bool, true, false, Option, none, some, arith, Result, ok, error,
  if◌then◌else◌, ◌&&◌,
}
use pika_pika.Prelude.Int.{ℤ, pos, negsuc}
use pika_pika.Float.{Float}
use pika_pika.Text.{Text}
use pika_pika.Settings.Persist.{Anomalies, persist_anomalies_config}
use pika_pika.Settings.Persist.Layout.{layout, AreNumeric}
use pika_pika.Settings.Persist.Thresholds.{persist_anomalies_config-layout}
use pika_pika.Settings.Config.{Raised}
use pika_pika.Settings.Config.Range.{IsBetween}
use pika_pika.Settings.Config.Defaults.{load_config, AnomaliesConfig, get_anomalies_config}
use pika_pika.Settings.Update.{
  pika_yaml_path, pika_yaml_path-write_text, Server, Library, saved, restarted, is_between,
}
use pika_pika.Settings.Update.Limits.{
  Limit, sag_threshold, swell_threshold, sag_duration, swell_duration, mains, sag_cooldown,
  swell_cooldown, AnomaliesReply, anomalies_updated, anomalies_failed, AnomaliesBody, is_mains,
  broken_limit, answer_anomalies, save_anomalies, write_anomalies, check_anomalies,
  request_anomalies, update_anomalies_config,
}

abbrev pub has_updated : {W : Type 0} → AnomaliesReply W → Bool
has_updated (anomalies_updated p) = true
has_updated _ = false

-- The seven limits.
pub record IsWithinLimits {W : Type 0} ⦃fl : Float W⦄ (v : Anomalies W) : Type 0 where
  pub sag_threshold : IsBetween (negsuc 49) (negsuc 0) v.sag_threshold_pct
  pub swell_threshold : IsBetween (pos 1) (pos 50) v.swell_threshold_pct
  pub sag_duration : IsBetween (pos 1) (pos 60_000) v.sag_min_duration_ms
  pub swell_duration : IsBetween (pos 1) (pos 60_000) v.swell_min_duration_ms
  pub from_90 : fl.le (fl.decimal 900 1) v.target_mains_vrms ≡ true
  pub to_140 : fl.le v.target_mains_vrms (fl.decimal 1400 1) ≡ true
  pub sag_cooldown : IsBetween (pos 0) (pos 60_000) v.sag_cooldown_ms
  pub swell_cooldown : IsBetween (pos 0) (pos 60_000) v.swell_cooldown_ms

passed :
    (b : Bool) (l : Limit) (rest : Option Limit)
    → (if b then rest else some l) ≡ none
    → (b ≡ true) × (rest ≡ none)
passed true l rest e = (refl, e)
passed false l rest e = absurd (cc)

both : (a b : Bool) → a && b ≡ true → (a ≡ true) × (b ≡ true)
both true b e = (refl, e)
both false b e = absurd (cc)

is_between-IsBetween : (low high z : ℤ) → is_between low high z ≡ true → IsBetween low high z
is_between-IsBetween low high z e = ground arith

broken_limit-IsWithinLimits :
    {W : Type 0} ⦃fl : Float W⦄ (v : Anomalies W) → broken_limit v ≡ none → IsWithinLimits v
unfolding broken_limit
broken_limit-IsWithinLimits ⦃fl = fl⦄ v e =
    let a = passed (is_between (negsuc 49) (negsuc 0) v.sag_threshold_pct) sag_threshold _ e in
    let b = passed (is_between (pos 1) (pos 50) v.swell_threshold_pct) swell_threshold _ a.1 in
    let c = passed (is_between (pos 1) (pos 60_000) v.sag_min_duration_ms) sag_duration _ b.1 in
    let d = passed (is_between (pos 1) (pos 60_000) v.swell_min_duration_ms) swell_duration _ c.1 in
    let f = passed (is_mains v.target_mains_vrms) mains _ d.1 in
    let g = passed (is_between (pos 0) (pos 60_000) v.sag_cooldown_ms) sag_cooldown _ f.1 in
    let h = passed (is_between (pos 0) (pos 60_000) v.swell_cooldown_ms) swell_cooldown none g.1 in
    let volts = both (fl.le (fl.decimal 900 1) v.target_mains_vrms) _ f.0 in
    record {
      sag_threshold = is_between-IsBetween (negsuc 49) (negsuc 0) v.sag_threshold_pct a.0;
      swell_threshold = is_between-IsBetween (pos 1) (pos 50) v.swell_threshold_pct b.0;
      sag_duration = is_between-IsBetween (pos 1) (pos 60_000) v.sag_min_duration_ms c.0;
      swell_duration = is_between-IsBetween (pos 1) (pos 60_000) v.swell_min_duration_ms d.0;
      from_90 = volts.0;
      to_140 = volts.1;
      sag_cooldown = is_between-IsBetween (pos 0) (pos 60_000) v.sag_cooldown_ms g.0;
      swell_cooldown = is_between-IsBetween (pos 0) (pos 60_000) v.swell_cooldown_ms h.0;
    }

-- From one state to the next, thresholds have been written.
pub record IsAnomaliesSaved {W : Type 0} ⦃fl : Float W⦄ (lib : Library W) (s : Server W)
    (r : AnomaliesReply W) (t : Server W) : Type 0 where
  pub values : Anomalies W
  pub old : Text
  pub new : Text
  pub within : IsWithinLimits values
  pub was : pika_yaml_path s.files ≡ some old
  pub written : persist_anomalies_config lib.print_tenths old values ≡ some new
  pub now : pika_yaml_path t.files ≡ some new
  pub kept : layout new ≡ layout old
  pub loaded : t.config ≡ load_config lib.safe_load t.files.pika_yaml
  pub restart : t.restarts ≡ suc s.restarts
  pub reply : (r, t) ≡ answer_anomalies lib t (get_anomalies_config lib.builtins.parse_int t.config)

module _ {W : Type 0} ⦃fl : Float W⦄ (lib : Library W)
    (prints : (x : W) → is_mains x ≡ true → AreNumeric (lib.print_tenths x)) where
  abbrev pub AnomaliesOutcome : Server W → AnomaliesReply W × Server W → Type 0
  AnomaliesOutcome s r = ((r.1 ≡ s) × (has_updated r.0 ≡ false)) ⊎ IsAnomaliesSaved lib s r.0 r.1

  written-IsAnomaliesSaved :
      (s : Server W) (r : AnomaliesReply W) (v : Anomalies W) (old new : Text)
      → IsWithinLimits v
      → pika_yaml_path s.files ≡ some old
      → persist_anomalies_config lib.print_tenths old v ≡ some new
      → (let t = restarted (saved lib s new) in
          (r, t) ≡ answer_anomalies lib t (get_anomalies_config lib.builtins.parse_int t.config))
      → IsAnomaliesSaved lib s r (restarted (saved lib s new))
  unfolding saved
  written-IsAnomaliesSaved s r v old new w e f h = record {
    values = v;
    old = old;
    new = new;
    within = w;
    was = e;
    written = f;
    now = pika_yaml_path-write_text s.files old new e;
    kept =
        persist_anomalies_config-layout lib.print_tenths v old new
          (prints v.target_mains_vrms (rw (w.from_90, w.to_140) refl)) f;
    loaded = refl;
    restart = refl;
    reply = h;
  }

  answered :
      (s : Server W) (o : Result Raised (AnomaliesConfig W)) (v : Anomalies W) (old new : Text)
      → IsWithinLimits v
      → pika_yaml_path s.files ≡ some old
      → persist_anomalies_config lib.print_tenths old v ≡ some new
      → get_anomalies_config lib.builtins.parse_int (restarted (saved lib s new)).config ≡ o
      → AnomaliesOutcome s (answer_anomalies lib (restarted (saved lib s new)) o)
  unfolding answer_anomalies
  answered s (ok c) v old new w e f h =
      inr (written-IsAnomaliesSaved s (anomalies_updated c) v old new w e f (rw h refl))
  answered s (error x) v old new w e f h =
      inr (written-IsAnomaliesSaved s anomalies_failed v old new w e f (rw h refl))

  save_anomalies-AnomaliesOutcome :
      (s : Server W) (v : Anomalies W) (old : Text) (o : Option Text)
      → IsWithinLimits v
      → pika_yaml_path s.files ≡ some old
      → persist_anomalies_config lib.print_tenths old v ≡ o
      → AnomaliesOutcome s (save_anomalies lib s o)
  unfolding save_anomalies
  save_anomalies-AnomaliesOutcome s v old none w e f = inl (refl, refl)
  save_anomalies-AnomaliesOutcome s v old (some new) w e f = answered s _ v old new w e f refl

  write_anomalies-AnomaliesOutcome :
      (s : Server W) (v : Anomalies W) (path : Option Text)
      → IsWithinLimits v
      → pika_yaml_path s.files ≡ path
      → AnomaliesOutcome s (write_anomalies lib s v path)
  unfolding write_anomalies
  write_anomalies-AnomaliesOutcome s v none w e = inl (refl, refl)
  write_anomalies-AnomaliesOutcome s v (some old) w e =
      save_anomalies-AnomaliesOutcome s v old _ w e refl

  check_anomalies-AnomaliesOutcome :
      (s : Server W) (v : Anomalies W) (limit : Option Limit)
      → broken_limit v ≡ limit
      → AnomaliesOutcome s (check_anomalies lib s v limit)
  unfolding check_anomalies
  check_anomalies-AnomaliesOutcome s v (some l) e = inl (refl, refl)
  check_anomalies-AnomaliesOutcome s v none e =
      write_anomalies-AnomaliesOutcome s v _ (broken_limit-IsWithinLimits v e) refl

  request_anomalies-AnomaliesOutcome :
      (s : Server W) (values : Option (Anomalies W))
      → AnomaliesOutcome s (request_anomalies lib s values)
  unfolding request_anomalies
  request_anomalies-AnomaliesOutcome s none = inl (refl, refl)
  request_anomalies-AnomaliesOutcome s (some v) = check_anomalies-AnomaliesOutcome s v _ refl

  -- Whatever the request and the state, where the format `.1f` prints every number from 90 to 140 with
  -- digits, a sign and a point only: `update_anomalies_config` either answers with no success and
  -- leaves the files, the configuration and the scheduled restarts as they are, or it has saved seven
  -- values, each within its limits: the file that `_pika_yaml_path` leads to is what
  -- `_persist_anomalies_config` makes of it with these values and is otherwise the same up to the
  -- characters of numbers, the configuration is the one loaded from the new files, one more restart
  -- is scheduled, and the answer has the thresholds of the new configuration, or is no success if a
  -- getter raises an exception on it.
  pub update_anomalies_config-AnomaliesOutcome :
      (body : Option (AnomaliesBody W)) (s : Server W)
      → AnomaliesOutcome s (update_anomalies_config lib body s)
  unfolding update_anomalies_config
  update_anomalies_config-AnomaliesOutcome none s = inl (refl, refl)
  update_anomalies_config-AnomaliesOutcome (some b) s = request_anomalies-AnomaliesOutcome s _
