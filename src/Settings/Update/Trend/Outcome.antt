-- ===== src/Settings/Update/Trend/Outcome.antt =====
-- A request for trend settings either changes nothing or writes settings in their ranges.
use pika_pika.Prelude.{
  ℕ, ◌≡◌, refl, ◌⊎◌, inl, inr, ◌≤◌, Bool, true, false, Option, none, some, List, arith, Bool-cases,
  Result, ok, error,
}
use pika_pika.Prelude.Int.{ℤ, pos, negsuc}
use pika_pika.Float.{Float}
use pika_pika.Text.{Text}
use pika_pika.Observations.Validate.{Value}
use pika_pika.Settings.Persist.{persist_trend_config}
use pika_pika.Settings.Config.{Raised, get_history_window_minutes, get_history_display_points}
use pika_pika.Settings.Config.Defaults.{load_config}
use pika_pika.Settings.Update.{
  pika_yaml_path, pika_yaml_path-write_text, Server, Library, int_or, saved, is_between,
}
use pika_pika.Settings.Update.Trend.{
  TrendReply, TrendPayload, trend_updated, trend_failed, TrendBody, trend_config_payload,
  answer_trend, save_trend, write_trend, request_trend, update_trend_config, trend_window_min,
  trend_window_max, requested, trend_display_min, trend_display_max,
}

abbrev pub has_updated : TrendReply → Bool
has_updated (trend_updated p) = true
has_updated _ = false

requested-some :
    {W : Type 0} ⦃fl : Float W⦄ (lib : Library W) (r : Result Raised ℤ) (field : Option (Value W))
    {z : ℤ}
    → requested lib r field ≡ some z
    → (default : ℤ) × (r ≡ ok default) × (int_or lib default field ≡ some z)
unfolding requested
requested-some lib (error e) field h = absurd (cc)
requested-some lib (ok default) field h = (default, refl, h)

-- From one state to the next, the two settings that a request asks for have been written.
pub record IsTrendSaved {W : Type 0} ⦃fl : Float W⦄ (lib : Library W) (trend : Option (List ℕ))
    (body : TrendBody W) (s : Server W) (r : TrendReply) (t : Server W) : Type 0 where
  pub window : ℕ
  pub display : ℕ
  pub old : Text
  pub new : Text
  pub asked_window :
      (default : ℤ) × (get_history_window_minutes lib.builtins.parse_int s.config ≡ ok default)
      × (int_or lib default body.history_window_minutes ≡ some (pos window))
  pub asked_display :
      (default : ℤ) × (get_history_display_points lib.builtins.parse_int s.config ≡ ok default)
      × (int_or lib default body.history_display_points ≡ some (pos display))
  pub window_range : (1 ≤ window) × (window ≤ 720)
  pub display_range : (100 ≤ display) × (display ≤ 2000)
  pub was : pika_yaml_path s.files ≡ some old
  pub written : persist_trend_config old window display ≡ some new
  pub now : pika_yaml_path t.files ≡ some new
  pub loaded : t.config ≡ load_config lib.safe_load t.files.pika_yaml
  pub no_restart : t.restarts ≡ s.restarts
  pub reply : (r, t) ≡ answer_trend lib t (trend_config_payload lib trend t.config)

module _ {W : Type 0} ⦃fl : Float W⦄ (lib : Library W) (trend : Option (List ℕ)) where
  -- Nothing has changed and the answer is no success.
  abbrev pub IsUnchanged : Server W → TrendReply × Server W → Type 0
  IsUnchanged s r = (r.1 ≡ s) × (has_updated r.0 ≡ false)

  -- Either nothing has changed, or the two settings have been saved.
  abbrev pub TrendOutcome : Option (TrendBody W) → Server W → TrendReply × Server W → Type 0
  TrendOutcome none s r = IsUnchanged s r
  TrendOutcome (some b) s r = IsUnchanged s r ⊎ IsTrendSaved lib trend b s r.0 r.1

  module _ (body : TrendBody W) (s : Server W) (window display : ℕ)
      (asked_window : requested lib
          (get_history_window_minutes lib.builtins.parse_int s.config)
          body.history_window_minutes
        ≡ some (pos window))
      (asked_display : requested lib
          (get_history_display_points lib.builtins.parse_int s.config)
          body.history_display_points
        ≡ some (pos display))
      (window_range : (1 ≤ window) × (window ≤ 720))
      (display_range : (100 ≤ display) × (display ≤ 2000)) where
    -- The text that was written determines the rest.
    written-IsTrendSaved :
        (r : TrendReply) (old new : Text)
        → pika_yaml_path s.files ≡ some old
        → persist_trend_config old window display ≡ some new
        → (let t = saved lib s new in
            (r, t) ≡ answer_trend lib t (trend_config_payload lib trend t.config))
        → IsTrendSaved lib trend body s r (saved lib s new)
    unfolding saved
    written-IsTrendSaved r old new e f h = record {
      window = window;
      display = display;
      old = old;
      new = new;
      asked_window = requested-some lib _ body.history_window_minutes asked_window;
      asked_display = requested-some lib _ body.history_display_points asked_display;
      window_range = window_range;
      display_range = display_range;
      was = e;
      written = f;
      now = pika_yaml_path-write_text s.files old new e;
      loaded = refl;
      no_restart = refl;
      reply = h;
    }

    answered :
        (o : Result Raised TrendPayload) (old new : Text)
        → pika_yaml_path s.files ≡ some old
        → persist_trend_config old window display ≡ some new
        → trend_config_payload lib trend (saved lib s new).config ≡ o
        → TrendOutcome (some body) s (answer_trend lib (saved lib s new) o)
    unfolding answer_trend
    answered (ok p) old new e f h =
        inr (written-IsTrendSaved (trend_updated p) old new e f (rw h refl))
    answered (error x) old new e f h =
        inr (written-IsTrendSaved trend_failed old new e f (rw h refl))

    save_trend-TrendOutcome :
        (old : Text) (o : Option Text)
        → pika_yaml_path s.files ≡ some old
        → persist_trend_config old window display ≡ o
        → TrendOutcome (some body) s (save_trend lib trend s o)
    unfolding save_trend
    save_trend-TrendOutcome old none e f = inl (refl, refl)
    save_trend-TrendOutcome old (some new) e f = answered _ old new e f refl

    write_trend-TrendOutcome :
        (path : Option Text)
        → pika_yaml_path s.files ≡ path
        → TrendOutcome (some body) s (write_trend lib trend s window display path)
    unfolding write_trend
    write_trend-TrendOutcome none e = inl (refl, refl)
    write_trend-TrendOutcome (some old) e = save_trend-TrendOutcome old _ e refl

  request_trend-TrendOutcome :
      (body : TrendBody W) (s : Server W) (window display : Option ℤ)
      → requested lib
          (get_history_window_minutes lib.builtins.parse_int s.config)
          body.history_window_minutes
        ≡ window
      → requested lib
          (get_history_display_points lib.builtins.parse_int s.config)
          body.history_display_points
        ≡ display
      → TrendOutcome (some body) s (request_trend lib trend s window display)
  unfolding request_trend
  request_trend-TrendOutcome body s none display e f = inl (refl, refl)
  request_trend-TrendOutcome body s (some window) none e f = inl (refl, refl)
  request_trend-TrendOutcome body s (some (negsuc n)) (some display) e f =
      let outside : is_between trend_window_min trend_window_max (negsuc n) ≡ false =
        ground arith in
      rw (request_trend, outside) (inl (refl, refl))
  request_trend-TrendOutcome body s (some (pos window)) (some (negsuc n)) e f =
      elim (Bool-cases (is_between trend_window_min trend_window_max (pos window))) [
        | inr outside ↦ rw (request_trend, outside) (inl (refl, refl))
        | inl w ↦
            let outside : is_between trend_display_min trend_display_max (negsuc n) ≡ false =
              ground arith in
            rw (request_trend, w, outside) (inl (refl, refl))
      ]
  request_trend-TrendOutcome body s (some (pos window)) (some (pos display)) e f =
      elim (Bool-cases (is_between trend_window_min trend_window_max (pos window))) [
        | inr outside ↦ rw (request_trend, outside) (inl (refl, refl))
        | inl w ↦ elim (Bool-cases (is_between trend_display_min trend_display_max (pos display))) [
          | inr outside ↦ rw (request_trend, w, outside) (inl (refl, refl))
          | inl d ↦
              rw (request_trend, w, d)
                (write_trend-TrendOutcome body s window display e f (ground arith) (ground arith)
                  (pika_yaml_path s.files) refl)
        ]
      ]

  -- Whatever the request and the state, `update_trend_config` either answers with no success and
  -- leaves the files, the configuration and the scheduled restarts as they are, or the request is an
  -- object and its two settings are saved. Each is `int` of the field of the request, or of what
  -- the getter gives on the configuration where the field is missing, a window from 1 to 720 and from
  -- 100 to 2000 display points; the file that `_pika_yaml_path` leads to is what
  -- `_persist_trend_config` makes of the old one for these two numbers, the configuration is the
  -- one loaded from the new files, no restart is scheduled, and the answer is the payload of the
  -- new configuration, or no success if a getter raises an exception on it.
  pub update_trend_config-TrendOutcome :
      (body : Option (TrendBody W)) (s : Server W)
      → TrendOutcome body s (update_trend_config lib trend body s)
  unfolding update_trend_config
  update_trend_config-TrendOutcome none s = (refl, refl)
  update_trend_config-TrendOutcome (some b) s = request_trend-TrendOutcome b s _ _ refl refl
