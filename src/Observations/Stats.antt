-- ===== src/Observations/Stats.antt =====
-- observation_service.py: the measures of a window of intervals. The parallel lists of the code have
-- one length, so they are rows here; `_chart_intervals` is on the lists.
pub mod Run
pub mod Chart
use pika_pika.Prelude.{
  ℕ, zero, suc, ◌+◌, ◌*◌, ◌-◌, ◌/◌, ◌%◌, max, Bool, true, false, ◌&&◌, ◌||◌, Option, none, some,
  List, [], ◌∷◌, map, ltb, leb, ◌==◌, if◌then◌else◌, length, get_elem?, get_or, sort_by, by_key,
}
use pika_pika.Prelude.Int.{ℤ, sub_ℕ, ltb_ℤ}
use pika_pika.Float.{Float, of_nat}
use pika_pika.History.Format.{Interval, Columns}
use pika_pika.History.Parse.{columns_of}
use pika_pika.History.Window.{interval_payload}
use pika_pika.History.Display.{as_columns, bucket_loop, ceil_div}

-- The steps between times that increase.
unfoldable pub deltas : List ℕ → List ℕ
deltas [] = []
deltas (t ∷ []) = []
deltas (t ∷ u ∷ ts) = let rest = deltas (u ∷ ts) in if ltb t u then (u - t) ∷ rest else rest

abbrev pub middle_or : ℕ → List ℕ → ℕ
middle_or default [] = default
middle_or default (d ∷ ds) = get_or (d ∷ ds) (length (d ∷ ds) / 2) default

unfoldable pub bucket_ns : List ℕ → ℕ
unfolding deltas
bucket_ns timestamps =
    if ltb (length timestamps) 2
    then 200_000_000
    else middle_or 200_000_000 (sort_by (by_key (λ d. d)) (deltas timestamps))

-- The dictionary of `_longest_run`.
pub record LowRun : Type 0 where
  pub start_ns : ℕ
  pub end_ns : ℕ
  pub duration_ns : ℤ

abbrev pub run_of : ℕ → ℕ → ℕ → LowRun
run_of bucket start stop = record {
  start_ns = start;
  end_ns = stop;
  duration_ns = sub_ℕ (stop + bucket) start;
}

-- `if best is None or dur > best["duration_ns"]`.
unfoldable pub better : Option LowRun → LowRun → LowRun
better none r = r
better (some best) r = if ltb_ℤ best.duration_ns r.duration_ns then r else best

-- A time with its flag.
abbrev pub Flagged : Type 0
Flagged = ℕ × Bool

-- The inner loop, from an item of the run at time `t`: the time of its last item, and what is behind.
unfoldable pub run_end : ℕ → ℕ → List Flagged → ℕ × List Flagged
run_end gap t [] = (t, [])
run_end gap t ((u, flag) ∷ rows) =
    let longer = run_end gap u rows in
    if flag && leb u (gap + t) then longer else (t, (u, flag) ∷ rows)

-- The outer loop, with at most `left` rounds to go.
unfoldable pub run_loop : ℕ → ℕ → Option LowRun → List Flagged → Option LowRun
run_loop bucket zero best rows = best
run_loop bucket (suc left) best [] = best
run_loop bucket (suc left) best ((t, false) ∷ rows) = run_loop bucket left best rows
run_loop bucket (suc left) best ((t, true) ∷ rows) =
    let after = run_end (max (bucket * 2) 1) t rows in
    run_loop bucket left (some (better best (run_of bucket t after.0))) after.1

unfoldable pub longest_run : List Flagged → ℕ → Option LowRun
longest_run rows bucket = run_loop bucket (length rows) none rows

-- The dictionary of `_notch`.
pub record Notch (W : Type 0) : Type 0 where
  pub drop : W
  pub implied_vrms : W
  pub vrms : W
  pub timestamp_ns : ℕ

module _ {W : Type 0} ⦃fl : Float W⦄ where
  abbrev pub is_zero : W → Bool
  is_zero x = fl.le x (of_nat 0) && fl.le (of_nat 0) x

  -- `none` where the code returns None, of a reference of zero.
  unfoldable pub pct_below : W → W → Option W
  pct_below reference value =
      if is_zero reference
      then none
      else some (fl.mul (fl.div (fl.sub reference value) reference) (of_nat 100))

  unfoldable pub pct_above : W → W → Option W
  pct_above reference value =
      if is_zero reference
      then none
      else some (fl.mul (fl.div (fl.sub value reference) reference) (of_nat 100))

  -- `none` is the exception of an empty list.
  abbrev pub average : Option W → Option W → Option W
  average (some a) (some b) = some (fl.div (fl.add a b) (of_nat 2))
  average _ _ = none

  unfoldable pub middle : ℕ → List W → Option W
  middle n ordered =
      if n % 2 == 0
      then average (get_elem? ordered (n / 2 - 1)) (get_elem? ordered (n / 2))
      else get_elem? ordered (n / 2)

  unfoldable pub median : List W → Option W
  unfolding middle
  median values = middle (length values) (sort_by fl.lt values)

  -- `min(range(n), key=...)` and `max(range(n), key=...)`: the first of the extreme rows.
  unfoldable pub lowest : Interval W → List (Interval W) → Interval W
  lowest best [] = best
  lowest best (r ∷ rows) = lowest (if fl.lt r.vrms best.vrms then r else best) rows

  unfoldable pub highest : Interval W → List (Interval W) → Interval W
  highest best [] = best
  highest best (r ∷ rows) = highest (if fl.lt best.vrms r.vrms then r else best) rows

  -- `min(a, b)`.
  abbrev pub lesser : W → W → W
  lesser a b = if fl.lt b a then b else a

  unfoldable pub deeper : Option (Notch W) → Notch W → Notch W
  deeper none n = n
  deeper (some best) n = if fl.lt best.drop n.drop then n else best

  unfoldable pub notch_loop : Option (Notch W) → List (Interval W) → Option (Notch W)
  unfolding deeper
  notch_loop best [] = best
  notch_loop best (r ∷ rows) =
      let sided = lesser (fl.abs r.low) (fl.abs r.high) in
      let implied = fl.div sided (fl.sqrt (of_nat 2)) in
      let found : Notch W = record {
        drop = fl.div (fl.sub r.vrms implied) r.vrms;
        implied_vrms = fl.round implied 1;
        vrms = fl.round r.vrms 1;
        timestamp_ns = r.stamp;
      } in
      let small =
        fl.le r.vrms (of_nat 1)
        || (fl.le sided (of_nat 1) || fl.le (fl.mul r.vrms (fl.decimal 85 2)) implied) in
      notch_loop (if small then best else some (deeper best found)) rows

  unfoldable pub notch : List (Interval W) → Option (Notch W)
  notch rows = notch_loop none rows

  abbrev pub rounded : Columns W → Columns W
  rounded c = record {
    vrms = map (λ v. fl.round v 2) c.vrms;
    mins = map (λ v. fl.round v 2) c.mins;
    maxs = map (λ v. fl.round v 2) c.maxs;
    timestamps = c.timestamps;
  }

  abbrev pub full_intervals : Columns W → Columns W
  full_intervals c = rounded c

  abbrev pub rounded_option : Option (Columns W) → Option (Columns W)
  rounded_option none = none
  rounded_option (some c) = some (rounded c)

  -- `none` is an exception, which unequal lists would raise. The body of the loop is that of
  -- `_bucket_intervals`.
  unfoldable pub chart_intervals : Columns W → ℕ → Option (Columns W)
  chart_intervals c cap =
      let n = length c.vrms in
      let bucket = ceil_div n cap in
      if leb n cap
      then some (rounded c)
      else rounded_option (as_columns (bucket_loop bucket n c (ceil_div n bucket) 0))
