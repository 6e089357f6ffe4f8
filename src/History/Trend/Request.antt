-- ===== src/History/Trend/Request.antt =====
-- history_service.py: `get_decimated_data` on the files that the datalogger writes.
use pika_pika.Prelude.{
  ℕ, suc, zero, ◌*◌, ◌<◌, ◌≤◌, ◌≡◌, refl, ◌⊎◌, inl, inr, false, true, ◌||◌, max, map, Option, none,
  some, List, [], ◌∷◌, ◌==◌, arith, length, length-map, length-drop, ap, ◌∙◌, ◌-◌, All, done,
}
use pika_pika.Prelude.Int.{ℤ, pos, negsuc, pos_part, leb_ℤ}
use pika_pika.Float.{Float}
use pika_pika.History.Format.{Columns, Interval, Layout, legacy}
use pika_pika.History.Rows.{keep_last}
use pika_pika.History.Parse.Agree.{is_empty-map, is_empty_of_pos}
use pika_pika.History.Parse.{columns_of, walked, is_empty, Parsed}
use pika_pika.History.Display.{bucket_intervals}
use pika_pika.History.Display.Limit.{bucket_intervals-limit}
use pika_pika.History.Written.{Chunk, written}
use pika_pika.History.Parse.Written.{last_rate, intervals, last_layout}
use pika_pika.History.Parse.Tail.{
  IsTypical, length-written_typical, length-intervals_typical, read_tail_intervals-written,
}
use pika_pika.History.Trend.{
  peek_rate_from_file, rate_or_default, source_cap_of, present, Payload, drawn_payload,
  get_decimated_data,
}
use pika_pika.History.Trend.Rate.{peek_rate_from_file-split}

peek_rate_from_file-written :
    (cs : List Chunk)
    → All IsTypical cs
    → 0 < length cs
    → rate_or_default (peek_rate_from_file (written cs) (length (written cs))) ≡ last_rate 0 cs
unfolding last_rate
peek_rate_from_file-written [] t some_chunk = absurd (omega arith)
peek_rate_from_file-written (c ∷ cs) (t, ts) some_chunk = peek_rate_from_file-split [] c cs t ts

-- The number of rows that a request asks for, with the trend's rate in rows for each second.
abbrev pub asked_rows : ℤ → Option ℤ → ℕ → ℕ
asked_rows max_points none rate = max 1 (pos_part max_points)
asked_rows max_points (some minutes) rate = max 1 (pos_part minutes * 60 * rate)

asked_rows-pos :
    (max_points : ℤ) (window_minutes : Option ℤ) (rate : ℕ)
    → 0 < asked_rows max_points window_minutes rate
asked_rows-pos max_points none rate = omega arith
asked_rows-pos max_points (some m) rate = ground arith

source_cap_of-asked_rows :
    (max_points : ℤ) (window_minutes : Option ℤ) (rate : ℕ)
    → source_cap_of max_points window_minutes rate ≡ asked_rows max_points window_minutes rate
unfolding source_cap_of
source_cap_of-asked_rows max_points none rate = refl
source_cap_of-asked_rows max_points (some m) rate = refl

-- The rows as they are drawn: all of them where no limit is asked for.
abbrev pub shown : {W : Type 0} ⦃fl : Float W⦄ → Columns W → Option ℤ → Option (Columns W)
shown c none = some c
shown c (some limit) = bucket_intervals c limit

bucket_intervals-own_length :
    {W : Type 0} ⦃fl : Float W⦄ (c : Columns W) → bucket_intervals c (pos (length c.vrms)) ≡ some c
unfolding bucket_intervals
bucket_intervals-own_length c =
    let all : (leb_ℤ (pos (length c.vrms)) (pos 0)
          || leb_ℤ (pos (length c.vrms)) (pos (length c.vrms)))
        ≡ true =
      ground arith in
    rw all refl

module _ {W R : Type 0} ⦃fl : Float W⦄ (rollup : R) (scale : W) where
  -- Drawn intervals, with as many as the limit at most where it is positive.
  abbrev pub IsDrawn : List (Interval W) → Option ℤ → List (Interval W) → Type 0
  IsDrawn rows none drawn = drawn ≡ rows
  IsDrawn rows (some limit) drawn =
      (bucket_intervals (columns_of rows) limit ≡ some (columns_of drawn))
      × ((pos_part limit ≡ 0) ⊎ (length drawn ≤ pos_part limit))

  draw_rows :
      (rows : List (Interval W)) (limit : Option ℤ)
      → (drawn : List (Interval W)) × IsDrawn rows limit drawn
        × (shown (columns_of rows) limit ≡ some (columns_of drawn))
  unfolding bucket_intervals
  draw_rows rows none = (rows, refl, refl)
  draw_rows rows (some (pos zero)) = (rows, (refl, inl refl), refl)
  draw_rows rows (some (negsuc n)) =
      let below : leb_ℤ (negsuc n) (pos 0) ≡ true = ground arith in
      let same : bucket_intervals (columns_of rows) (negsuc n) ≡ some (columns_of rows) =
        rw below refl in
      (rows, (same, inl refl), same)
  draw_rows rows (some (pos (suc n))) =
      let (drawn, same, few, _) = bucket_intervals-limit rows (suc n) 0 (omega arith) in
      (drawn, (same, inr few), same)

  -- The payload of some rows that are drawn, with a rate and a layout.
  pub record IsTail (rows drawn : List (Interval W)) (rate : ℕ) (fmt : Layout) (y : Payload W R)
      : Type 0 where
    pub vrms : y.columns.vrms ≡ map (λ v. fl.round v 2) (map (λ r. r.vrms) drawn)
    pub mins : y.columns.mins ≡ map (λ v. fl.round v 2) (map (λ r. r.low) drawn)
    pub maxs : y.columns.maxs ≡ map (λ v. fl.round v 2) (map (λ r. r.high) drawn)
    pub timestamps : y.columns.timestamps ≡ map (λ r. r.stamp) drawn
    pub rate_eq : y.rate ≡ rate
    pub fmt_eq : y.fmt ≡ some fmt
    pub rollup_eq : y.rollup_10min ≡ rollup
    pub source_points : y.source_points ≡ length rows
    pub display_points : y.display_points ≡ length drawn

  present-shown :
      (p : Parsed W) (limit : Option ℤ) (c : Columns W)
      → is_empty p.columns.vrms ≡ false
      → shown p.columns limit ≡ some c
      → present rollup limit (some p) ≡ drawn_payload rollup p (some c)
  unfolding present
  present-shown p none c h e =
      rw (h, bucket_intervals-own_length p.columns) (ap (drawn_payload rollup p) e)
  present-shown p (some m) c h e = rw h (ap (drawn_payload rollup p) e)

  present-IsTail :
      (rows drawn : List (Interval W)) (rate : ℕ) (fmt : Layout) (limit : Option ℤ)
      → 0 < length rows
      → shown (columns_of rows) limit ≡ some (columns_of drawn)
      → (y : Payload W R) × (present rollup limit
            (walked (record { rows = rows; sample_rate = rate; fmt = fmt }))
          ≡ some y)
        × IsTail rows drawn rate fmt y
  unfolding walked drawn_payload
  present-IsTail rows drawn rate fmt limit h e =
      let p : Parsed W = record { columns = columns_of rows; sample_rate = rate; fmt = fmt } in
      let some_rows = is_empty_of_pos rows h in
      let some_vrms = is_empty-map (λ (r : Interval W). r.vrms) rows ∙ some_rows in
      let walked_rows : walked (record { rows = rows; sample_rate = rate; fmt = fmt }) ≡ some p =
        rw some_rows refl in
      let answer : present rollup limit
            (walked (record { rows = rows; sample_rate = rate; fmt = fmt }))
          ≡ drawn_payload rollup p (some (columns_of drawn)) =
        ap (present rollup limit) walked_rows
        ∙ present-shown p limit (columns_of drawn) some_vrms e in
      (
        _,
        answer,
        record {
          vrms = refl;
          mins = refl;
          maxs = refl;
          timestamps = refl;
          rate_eq = refl;
          fmt_eq = refl;
          rollup_eq = refl;
          source_points = length-map (λ (r : Interval W). r.vrms) rows;
          display_points = length-map (λ (r : Interval W). r.vrms) drawn;
        },
      )

  -- On a file of typical chunks, at least one, `get_decimated_data` answers with the last intervals of
  -- the whole file: as many as the requested minutes hold at the rate of the last chunk in rows for
  -- each second, or, without such a request, `max_points` of them, and at least one. All of them are
  -- drawn where no limit is asked for, and otherwise what `_bucket_intervals` makes of them, not more
  -- than a positive limit. The values are rounded to two decimals, the rate and the format are those of
  -- the last chunk, and the two numbers of points are those of the intervals and of the drawn ones.
  pub get_decimated_data-written :
      (cs : List Chunk) (max_points : ℤ) (window_minutes max_display_points : Option ℤ)
      → All IsTypical cs
      → 0 < length cs
      → (let rows =
            keep_last
              (asked_rows max_points window_minutes (last_rate 0 cs))
              (intervals scale cs) in
          (drawn : List (Interval W)) × IsDrawn rows max_display_points drawn
          × (y : Payload W R) × (get_decimated_data rollup scale max_points window_minutes
                max_display_points
                (some (written cs))
              ≡ done (some y))
          × IsTail rows drawn (last_rate 0 cs) (last_layout legacy cs) y)
  unfolding get_decimated_data
  get_decimated_data-written cs max_points window_minutes max_display_points t some_chunk =
      let cap = asked_rows max_points window_minutes (last_rate 0 cs) in
      let positive = asked_rows-pos max_points window_minutes (last_rate 0 cs) in
      let rows = keep_last cap (intervals scale cs) in
      let bytes : length (written cs) == 0 ≡ false = ground (arith, length-written_typical cs t) in
      let all : 0 < length (intervals scale cs) =
        omega (arith, length-intervals_typical scale cs t) in
      let some_rows : 0 < length rows = omega (
        arith,
        all,
        positive,
        length-drop (length (intervals scale cs) - cap) (intervals scale cs),
      ) in
      let (drawn, drawn_right, same) = draw_rows rows max_display_points in
      let (y, answer, tail) =
        present-IsTail rows drawn (last_rate 0 cs) (last_layout legacy cs) max_display_points
          some_rows same in
      (
        drawn,
        drawn_right,
        y,
        rw
            (
              bytes,
              peek_rate_from_file-written cs t some_chunk,
              source_cap_of-asked_rows max_points window_minutes (last_rate 0 cs),
              read_tail_intervals-written scale cs cap t some_chunk positive,
            )
            (ap done answer),
        tail,
      )
