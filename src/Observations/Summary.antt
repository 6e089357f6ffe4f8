-- ===== src/Observations/Summary.antt =====
-- observation_service.py: `build_summary`. A sentence is the constructor that stands for it, with the
-- numbers that it prints.
use pika_pika.Prelude.{
  ℕ, ◌-◌, Bool, true, false, not, ◌&&◌, Option, none, some, List, [], ◌∷◌, ◌++◌, if◌then◌else◌,
  length, take,
}
use pika_pika.Prelude.Int.{ℤ}
use pika_pika.Float.{Float, of_nat}
use pika_pika.Text.{Text, strip}
use pika_pika.History.Format.{Columns}
use pika_pika.Review.{EventType}
use pika_pika.Observations.Stats.{LowRun, Notch, is_zero}
use pika_pika.Observations.Note.{Kind, lights, tv, TvCount, one, several, Entry}

-- A row of `stats["events"]`.
pub record EventRow (W : Type 0) : Type 0 where
  pub id : ℕ
  pub type : EventType
  pub timestamp : ℕ
  pub peak_rms_v : W
  pub duration_ms : W
  pub needs_review : Bool

pub data Coverage : Type 0 where
  no_coverage full partial : Coverage

-- What `stats.update` adds when the window has intervals.
pub record Measures (W : Type 0) : Type 0 where
  pub median_vrms_v : W
  pub lowest_vrms_v : W
  pub lowest_vrms_ns : ℕ
  pub lowest_vs_nominal_pct : W
  pub lowest_vs_median_pct : W
  pub highest_vrms_v : W
  pub highest_vrms_ns : ℕ
  pub highest_vs_nominal_pct : W
  pub highest_vs_median_pct : W
  pub low_run : Option LowRun
  pub high_run_s : W
  pub notch : Option (Notch W)

-- The dictionary `stats` of `correlate`, without the summary. `measures` is `none` where
-- `interval_count` is 0.
pub record Stats (W : Type 0) : Type 0 where
  pub window_start_ns : ℤ
  pub window_end_ns : ℤ
  pub nominal_v : W
  pub sag_log_v : W
  pub swell_log_v : W
  pub interval_count : ℕ
  pub coverage : Coverage
  pub events : List (EventRow W)
  pub low_run_s : W
  pub measures : Option (Measures W)
  pub intervals : Columns W

pub data Direction : Type 0 where
  above below : Direction

pub data Sentence (W : Type 0) : Type 0 where
  logged : List (EventRow W) → ℕ → Sentence W
  none_logged no_trend partial_trend : Sentence W
  plugged_in : Text → Sentence W
  -- With the nominal voltage and the median that it is compared with, where there are such bits.
  lowest_was : W → Option (W × W) → Option (W × W) → Sentence W
  highest_was : W → Option (W × Direction × W) → Option (W × Direction) → Sentence W
  reached_sag_line stayed_above_sag_line : W → Sentence W
  as_long_as_dropout slow_change longer_than_blank : W → Sentence W
  -- The length of the move, the blank if the note has one, and whether a set can hold the mute.
  shorter_than_blank : W → Option W → Bool → Sentence W
  quiet_several quiet_one quiet_unsure : Sentence W
  lopsided_peak : W → W → Sentence W
  dims_lamps barely_moved : Sentence W
  picture_gone : W → Sentence W

abbrev pub has_picture : Kind → Bool
has_picture lights = false
has_picture _ = true

abbrev pub has_lights : Kind → Bool
has_lights tv = false
has_lights _ = true

abbrev pub is_lights : Kind → Bool
is_lights lights = true
is_lights _ = false

module _ {W : Type 0} ⦃fl : Float W⦄ where
  -- `x or 0.0`.
  abbrev pub or_zero : W → W
  or_zero x = if is_zero x then of_nat 0 else x

  -- `note.get("blank_s")`, where it is true.
  abbrev pub blank_of : Entry W → Option W
  blank_of e = elim e.picture [
    | none ↦ none
    | some p ↦ if is_zero p.blank_s then none else some p.blank_s
  ]

  abbrev pub note_tv_count : Entry W → Option TvCount
  note_tv_count e = elim e.picture [ none ↦ none | some p ↦ some p.tv_count ]

  unfoldable pub event_sentence : List (EventRow W) → Sentence W
  event_sentence [] = none_logged
  event_sentence (e ∷ events) = logged (take 4 (e ∷ events)) (length (e ∷ events) - 4)

  unfoldable pub location_sentence : Text → List (Sentence W)
  location_sentence [] = []
  location_sentence (c ∷ s) = plugged_in (c ∷ s) ∷ []

  unfoldable pub lowest_sentence : Stats W → Measures W → Sentence W
  lowest_sentence s m =
      lowest_was m.lowest_vrms_v
        (if is_zero s.nominal_v then none else some (m.lowest_vs_nominal_pct, s.nominal_v))
        (if is_zero m.median_vrms_v then none else some (m.lowest_vs_median_pct, m.median_vrms_v))

  abbrev pub direction : W → Direction
  direction pct = if fl.le (of_nat 0) pct then above else below

  -- A difference that would be printed as 0.0 % is left out.
  unfoldable pub highest_sentence : Stats W → Measures W → Sentence W
  highest_sentence s m =
      let nom = m.highest_vs_nominal_pct in
      let med = m.highest_vs_median_pct in
      highest_was m.highest_vrms_v
        (if not (is_zero s.nominal_v) && fl.le (fl.decimal 5 2) (fl.abs nom)
          then some (fl.abs nom, direction nom, s.nominal_v)
          else none)
        (if not (is_zero m.median_vrms_v) && fl.le (fl.decimal 5 2) (fl.abs med)
          then some (fl.abs med, direction med)
          else none)

  unfoldable pub sag_sentence : Stats W → Measures W → List (EventRow W) → List (Sentence W)
  sag_sentence s m (e ∷ events) = []
  sag_sentence s m [] =
      (if fl.le m.lowest_vrms_v (fl.add s.sag_log_v (fl.decimal 5 2))
        then reached_sag_line s.sag_log_v
        else stayed_above_sag_line s.sag_log_v)
      ∷ []

  abbrev pub quiet : Option TvCount → Sentence W
  quiet (some several) = quiet_several
  quiet (some one) = quiet_one
  quiet _ = quiet_unsure

  -- The length of the low run, or its absence.
  unfoldable pub run_sentence : Entry W → W → W → List (Sentence W)
  run_sentence e run_s depth =
      if fl.le (fl.decimal 5 1) run_s && fl.le run_s (of_nat 2)
      then as_long_as_dropout run_s ∷ []
      else if fl.lt (of_nat 2) run_s && fl.lt depth (of_nat 3)
      then slow_change run_s ∷ []
      else if fl.lt (of_nat 2) run_s
      then longer_than_blank run_s ∷ []
      else if fl.lt (of_nat 0) run_s
      then shorter_than_blank run_s (blank_of e) (has_picture e.kind) ∷ []
      else if has_picture e.kind
      then quiet (note_tv_count e) ∷ []
      else []

  unfoldable pub notch_sentence : Option (Notch W) → List (Sentence W)
  notch_sentence none = []
  notch_sentence (some n) = lopsided_peak n.implied_vrms n.vrms ∷ []

  unfoldable pub lamp_sentence : Kind → W → W → List (Sentence W)
  lamp_sentence kind run_s depth =
      if has_lights kind && fl.le (of_nat 2) depth
      then dims_lamps ∷ []
      else if is_lights kind && (fl.lt depth (of_nat 1) && is_zero run_s)
      then barely_moved ∷ []
      else []

  unfoldable pub blank_sentence : Kind → Option W → W → List (Sentence W)
  blank_sentence kind none run_s = []
  blank_sentence kind (some blank_s) run_s =
      if has_picture kind && fl.le (fl.decimal 5 1) run_s then picture_gone blank_s ∷ [] else []

  abbrev pub coverage_sentence : Coverage → List (Sentence W)
  coverage_sentence partial = partial_trend ∷ []
  coverage_sentence _ = []

  unfoldable pub trend_sentences : Entry W → Stats W → Option (Measures W) → List (Sentence W)
  trend_sentences e s none = no_trend ∷ []
  trend_sentences e s (some m) =
      let run_s = or_zero s.low_run_s in
      let depth = or_zero m.lowest_vs_median_pct in
      coverage_sentence s.coverage
      ++ (lowest_sentence s m ∷ highest_sentence s m ∷ sag_sentence s m s.events)
      ++ run_sentence e run_s depth
      ++ notch_sentence m.notch
      ++ lamp_sentence e.kind run_s depth
      ++ blank_sentence e.kind (blank_of e) run_s

  unfoldable pub build_summary : Entry W → Stats W → List (Sentence W)
  build_summary e s =
      event_sentence s.events
      ∷ (location_sentence (strip e.pika_location) ++ trend_sentences e s s.measures)
