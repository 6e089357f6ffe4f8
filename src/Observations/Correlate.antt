-- ===== src/Observations/Correlate.antt =====
-- observation_service.py: `correlate`, which measures the minute before a note on what the history and
-- the event service return for it.
pub mod Window
pub mod Extremes
pub mod Services
use pika_pika.Prelude.{
  ℕ, zero, suc, ◌+◌, ◌*◌, Bool, true, false, ◌&&◌, ◌≡◌, Option, none, some, List, [], ◌∷◌, map, ltb,
  if◌then◌else◌, length, Run, done, out_of_fuel, ◌>>=◌, Returns, All, InOrder,
}
use pika_pika.Prelude.Int.{ℤ, pos, ◌+ℤ◌, ◌-ℤ◌, ◌≤ℤ◌, leb_ℤ}
use pika_pika.Float.{Float, of_nat}
use pika_pika.History.Format.{Interval, Columns, no_columns}
use pika_pika.History.Parse.{columns_of}
use pika_pika.History.Window.{zip_columns}
use pika_pika.Events.{Event}
use pika_pika.Observations.Note.{Entry}
use pika_pika.Observations.Stats.{
  LowRun, bucket_ns, longest_run, Flagged, pct_below, pct_above, median, lowest, highest, notch,
  chart_intervals, full_intervals,
}
use pika_pika.Observations.Summary.{
  EventRow, Coverage, no_coverage, full, partial, Measures, Stats, Sentence, or_zero, build_summary,
}

-- What the note service calls: the two services and the configuration.
pub record Sources (W : Type 0) : Type 0 where
  pub intervals_between : ℤ → ℤ → Run (Columns W)
  pub events_between : ℤ → ℤ → List (Event W)
  pub target_mains_vrms : W
  pub sag_threshold_pct : W
  pub swell_threshold_pct : W

abbrev pub Inside : ℤ → ℤ → ℕ → Type 0
Inside start_ns end_ns t = (start_ns ≤ℤ pos t) × (pos t ≤ℤ end_ns)

-- What it relies on: both searches end, with rows of the window in the order of their times.
pub record AreInWindow {W : Type 0} (s : Sources W) : Type 0 where
  pub intervals :
      (start_ns end_ns : ℤ)
      → Returns (s.intervals_between start_ns end_ns) (λ c.
        (rows : List (Interval W)) × (c ≡ columns_of rows)
        × InOrder (λ r. r.stamp) rows
        × All (λ r. Inside start_ns end_ns r.stamp) rows)
  pub events :
      (start_ns end_ns : ℤ)
      → InOrder (λ e. e.timestamp) (s.events_between start_ns end_ns)
        × All (λ e. Inside start_ns end_ns e.timestamp) (s.events_between start_ns end_ns)

-- The dictionary that `correlate` returns.
pub record Correlation (W : Type 0) : Type 0 where
  pub stats : Stats W
  pub summary : List (Sentence W)

abbrev pub window_s : ℕ
window_s = 60

abbrev pub event_row : {W : Type 0} → Event W → EventRow W
event_row e = record {
  id = e.id;
  type = e.type;
  timestamp = e.timestamp;
  peak_rms_v = e.peak_rms_v;
  duration_ms = e.duration_ms;
  needs_review = e.review.needs_review;
}

-- `timestamps[-1]`, of a list that starts with `t`.
abbrev pub last_of : ℕ → List ℕ → ℕ
last_of t [] = t
last_of t (u ∷ ts) = last_of u ts

unfoldable pub coverage_of : ℤ → ℤ → ℕ → ℕ → ℕ → Coverage
coverage_of start_ns end_ns first last bucket =
    if leb_ℤ (pos first) (start_ns +ℤ pos bucket) && leb_ℤ (end_ns -ℤ pos bucket) (pos last)
    then full
    else partial

module _ {W : Type 0} ⦃fl : Float W⦄ where
  -- `round(x or 0.0, 2)`, where `x` may be None.
  abbrev pub rounded_or_zero : Option W → W
  rounded_or_zero none = fl.round (of_nat 0) 2
  rounded_or_zero (some x) = fl.round (or_zero x) 2

  abbrev pub run_seconds : Option LowRun → W
  run_seconds none = of_nat 0
  run_seconds (some r) = fl.round (fl.div (fl.of_int r.duration_ns) (of_nat 1_000_000_000)) 2

  abbrev pub low_flags : W → List (Interval W) → List Flagged
  low_flags median rows =
      map
        (λ (r : Interval W).
          (r.stamp, fl.le r.vrms (fl.mul median (fl.sub (of_nat 1) (fl.decimal 1 2)))))
        rows

  abbrev pub high_flags : W → List (Interval W) → List Flagged
  high_flags median rows =
      map
        (λ (r : Interval W).
          (r.stamp, fl.le (fl.mul median (fl.add (of_nat 1) (fl.decimal 1 2))) r.vrms))
        rows

  -- The window's rows, of which `r` is the first.
  unfoldable pub measure_window : W → W → Interval W → List (Interval W) → Measures W
  measure_window nominal median r rows =
      let low = lowest r rows in
      let high = highest r rows in
      let bucket = bucket_ns (map (λ (i : Interval W). i.stamp) (r ∷ rows)) in
      let low_run = longest_run (low_flags median (r ∷ rows)) bucket in
      let high_run = longest_run (high_flags median (r ∷ rows)) bucket in
      record {
        median_vrms_v = fl.round median 2;
        lowest_vrms_v = fl.round low.vrms 2;
        lowest_vrms_ns = low.stamp;
        lowest_vs_nominal_pct = rounded_or_zero (pct_below nominal low.vrms);
        lowest_vs_median_pct = rounded_or_zero (pct_below median low.vrms);
        highest_vrms_v = fl.round high.vrms 2;
        highest_vrms_ns = high.stamp;
        highest_vs_nominal_pct = rounded_or_zero (pct_above nominal high.vrms);
        highest_vs_median_pct = rounded_or_zero (pct_above median high.vrms);
        low_run = low_run;
        high_run_s = run_seconds high_run;
        notch = notch (r ∷ rows);
      }

module _ {W : Type 0} ⦃fl : Float W⦄ (s : Sources W) (start_ns end_ns : ℤ) where
  -- The statistics of an empty window.
  unfoldable pub no_stats : Stats W
  no_stats = record {
    window_start_ns = start_ns;
    window_end_ns = end_ns;
    nominal_v = fl.round s.target_mains_vrms 1;
    sag_log_v =
        fl.round
          (fl.mul s.target_mains_vrms (fl.add (of_nat 1) (fl.div s.sag_threshold_pct (of_nat 100))))
          1;
    swell_log_v =
        fl.round
          (fl.mul s.target_mains_vrms
            (fl.add (of_nat 1) (fl.div s.swell_threshold_pct (of_nat 100))))
          1;
    interval_count = 0;
    coverage = no_coverage;
    events = map event_row (s.events_between start_ns end_ns);
    low_run_s = of_nat 0;
    measures = none;
    intervals = no_columns;
  }

  -- `stats.update`, with the intervals for the reply.
  unfoldable pub measured_stats : W → Interval W → List (Interval W) → Columns W → Stats W
  unfolding no_stats
  measured_stats median r rows intervals =
      let m = measure_window s.target_mains_vrms median r rows in
      let stamps = map (λ (i : Interval W). i.stamp) rows in
      record {
        window_start_ns = no_stats.window_start_ns;
        window_end_ns = no_stats.window_end_ns;
        nominal_v = no_stats.nominal_v;
        sag_log_v = no_stats.sag_log_v;
        swell_log_v = no_stats.swell_log_v;
        interval_count = length (r ∷ rows);
        coverage =
            coverage_of start_ns end_ns r.stamp (last_of r.stamp stamps)
              (bucket_ns (r.stamp ∷ stamps));
        events = no_stats.events;
        low_run_s = run_seconds m.low_run;
        measures = some m;
        intervals = intervals;
      }

  -- `none` is an exception, of the median or of the chart.
  unfoldable pub stats_of : Bool → Columns W → List (Interval W) → Option (Stats W)
  stats_of full_rows c [] = some no_stats
  stats_of full_rows c (r ∷ rows) = elim (median (map (λ (i : Interval W). i.vrms) (r ∷ rows))) [
    | none ↦ none
    | some m ↦ elim (if full_rows then some (full_intervals c) else chart_intervals c 2000) [
      | none ↦ none
      | some intervals ↦ some (measured_stats m r rows intervals)
    ]
  ]

  abbrev pub with_summary : Entry W → Option (Stats W) → Option (Correlation W)
  with_summary e none = none
  with_summary e (some stats) = some (record { stats = stats; summary = build_summary e stats })

module _ {W : Type 0} ⦃fl : Float W⦄ (s : Sources W) where
  unfoldable pub window_start : ℤ → ℤ
  window_start observed = observed -ℤ pos (window_s * 1_000_000_000)

  unfoldable pub correlate : Entry W → Bool → Run (Option (Correlation W))
  correlate e full_rows =
      let end_ns = e.observed_at_ns in
      let start_ns = window_start end_ns in
      s.intervals_between start_ns end_ns >>= λ c. done (
        with_summary s start_ns end_ns e
          (stats_of s start_ns end_ns full_rows c (zip_columns c.vrms c.mins c.maxs c.timestamps)))
