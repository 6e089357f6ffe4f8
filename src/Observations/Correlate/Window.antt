-- ===== src/Observations/Correlate/Window.antt =====
-- observation_service.py: the window of `correlate`.
use pika_pika.Prelude.{
  ℕ, ◌≡◌, refl, Bool, true, false, Option, none, some, List, [], ◌∷◌, map, arith, All, All-IsOneOf,
  InOrder, Returns, Returns-bind, if◌then◌else◌,
}
use pika_pika.Prelude.Int.{ℤ, pos, ◌-ℤ◌}
use pika_pika.Float.{Float}
use pika_pika.History.Format.{Interval, Columns}
use pika_pika.History.Parse.{columns_of}
use pika_pika.History.Window.Times.{zip_columns-columns_of}
use pika_pika.Events.{Event}
use pika_pika.Observations.Note.{Entry}
use pika_pika.Observations.Stats.{chart_intervals, full_intervals}
use pika_pika.Observations.Stats.Chart.{
  median_exists, chart_intervals-stamps, full_intervals-stamps,
}
use pika_pika.Observations.Summary.{Measures, Stats, build_summary}
use pika_pika.Observations.Correlate.{
  Sources, AreInWindow, Inside, Correlation, event_row, measure_window, no_stats, measured_stats,
  stats_of, window_start, correlate,
}
use pika_pika.Observations.Correlate.Extremes.{lowest-IsOneOf, highest-IsOneOf}

-- Where the statistics have measures, their times lie in the window; where they have none, there are
-- no intervals.
abbrev pub MeasuredInside : {W : Type 0} → ℤ → ℤ → ℕ → Option (Measures W) → Type 0
MeasuredInside start_ns end_ns count none = count ≡ 0
MeasuredInside start_ns end_ns count (some m) =
    Inside start_ns end_ns m.lowest_vrms_ns × Inside start_ns end_ns m.highest_vrms_ns

abbrev pub IsWithin : {W : Type 0} → ℤ → ℤ → Stats W → Type 0
IsWithin start_ns end_ns s =
    MeasuredInside start_ns end_ns s.interval_count s.measures
    × All (Inside start_ns end_ns) s.intervals.timestamps
    × All (λ e. Inside start_ns end_ns e.timestamp) s.events

module _ {W : Type 0} ⦃fl : Float W⦄ where
  event_rows-Inside :
      (a b : ℤ) (events : List (Event W))
      → All (λ e. Inside a b e.timestamp) events
      → All (λ e. Inside a b e.timestamp) (map event_row events)
  event_rows-Inside a b [] h = tt
  event_rows-Inside a b (e ∷ events) (h, hs) = (h, event_rows-Inside a b events hs)

  intervals_exist :
      (a b : ℤ) (full_rows : Bool) (rows : List (Interval W))
      → All (λ r. Inside a b r.stamp) rows
      → (c : Columns W) × ((if full_rows
            then some (full_intervals (columns_of rows))
            else chart_intervals (columns_of rows) 2000)
          ≡ some c)
        × All (Inside a b) c.timestamps
  intervals_exist a b true rows h =
      (full_intervals (columns_of rows), refl, full_intervals-stamps (Inside a b) rows h)
  intervals_exist a b false rows h = chart_intervals-stamps (Inside a b) rows 2000 (omega arith) h

module _ {W : Type 0} ⦃fl : Float W⦄ (s : Sources W) (a b : ℤ)
    (events : All (λ e. Inside a b e.timestamp) (s.events_between a b)) where
  no_stats-IsWithin : IsWithin a b (no_stats s a b)
  unfolding no_stats
  no_stats-IsWithin = (refl, tt, event_rows-Inside a b (s.events_between a b) events)

  measured_stats-IsWithin :
      (m : W) (r : Interval W) (rows : List (Interval W)) (c : Columns W)
      → All (λ i. Inside a b i.stamp) (r ∷ rows)
      → All (Inside a b) c.timestamps
      → IsWithin a b (measured_stats s a b m r rows c)
  unfolding measured_stats no_stats measure_window
  measured_stats-IsWithin m r rows c h k =
      let P = λ (i : Interval W). Inside a b i.stamp in
      (
        (
          All-IsOneOf P _ (r ∷ rows) h (lowest-IsOneOf r rows),
          All-IsOneOf P _ (r ∷ rows) h (highest-IsOneOf r rows),
        ),
        k,
        event_rows-Inside a b (s.events_between a b) events,
      )

  stats_of-IsWithin :
      (full_rows : Bool) (rows : List (Interval W))
      → All (λ i. Inside a b i.stamp) rows
      → (stats : Stats W) × (stats_of s a b full_rows (columns_of rows) rows ≡ some stats)
        × IsWithin a b stats
  unfolding stats_of
  stats_of-IsWithin full_rows [] h = (no_stats s a b, refl, no_stats-IsWithin)
  stats_of-IsWithin full_rows (r ∷ rows) h =
      let (m, e) = median_exists r.vrms (map (λ (i : Interval W). i.vrms) rows) in
      let (c, e', k) = intervals_exist a b full_rows (r ∷ rows) h in
      (
        measured_stats s a b m r rows c,
        rw (stats_of, e, e') refl,
        measured_stats-IsWithin m r rows c h k,
      )

module _ {W : Type 0} ⦃fl : Float W⦄ (s : Sources W) (laws : AreInWindow s) where
  -- Let both searches of the services end, with what lies in the window, in order of time. Then
  -- `correlate` ends without an exception. Its events, the intervals that it returns and the times
  -- of the lowest and the highest interval lie in the minute before the note's time; there are such
  -- times unless the window has no intervals.
  pub correlate-IsWithin :
      (e : Entry W) (full_rows : Bool)
      → Returns (correlate s e full_rows) (λ o.
        (k : Correlation W) × (o ≡ some k)
        × IsWithin (e.observed_at_ns -ℤ pos 60_000_000_000) e.observed_at_ns k.stats)
  unfolding correlate window_start
  correlate-IsWithin e full_rows =
      let b = e.observed_at_ns in
      let a = b -ℤ pos 60_000_000_000 in
      Returns-bind (s.intervals_between a b) _
        (λ c.
          (rows : List (Interval W)) × (c ≡ columns_of rows)
          × InOrder (λ r. r.stamp) rows
          × All (λ r. Inside a b r.stamp) rows)
        _ (laws.intervals a b)
        (λ c (rows, same, order, h).
          let (stats, k, within) = stats_of-IsWithin s a b (laws.events a b).1 full_rows rows h in
          (
            record { stats = stats; summary = build_summary e stats },
            rw (same, zip_columns-columns_of rows, k) refl,
            within,
          ))
