-- ===== src/Observations/Export.antt =====
-- observation_service.py: `export_zip`, the rows of its two tables and the notes of its chart. The
-- bytes that `csv`, `json` and `zipfile` make of them are left to Python.
pub mod Rows
pub mod Page
use pika_pika.Prelude.{
  ℕ, zero, suc, ◌+◌, Bool, true, Option, none, some, List, [], ◌∷◌, ◌++◌, map, reverse, ◌==◌, ltb,
  leb, not, ◌&&◌, if◌then◌else◌, length, get_elem?, Run, done, out_of_fuel, ◌>>=◌,
}
use pika_pika.Prelude.Int.{ℤ, pos, ◌-ℤ◌, magnitude}
use pika_pika.Float.{Float, of_nat}
use pika_pika.Text.{Text, codes}
use pika_pika.History.Format.{Columns}
use pika_pika.Review.{EventType, no_event, sag, swell, spike, dip, unknown}
use pika_pika.Observations.Note.{Kind, Picture, Entry}
use pika_pika.Observations.Summary.{Sentence, EventRow, Coverage}
use pika_pika.Observations.Correlate.{Sources, Correlation, correlate}
use pika_pika.Observations.Notes.{Note, Journal, read_all, note_summary}

-- `datetime...isoformat(...)`, `none` where it raises an exception that the code catches.
abbrev pub Clock : Type 0
Clock = ℤ → Option Text

unfoldable pub ns_to_iso : Clock → Option ℤ → Text
ns_to_iso clock none = []
ns_to_iso clock (some ns) = elim (clock ns) [ none ↦ [] | some s ↦ s ]

-- The names of `_type_name`.
abbrev pub type_text : EventType → Text
type_text no_event = codes "NONE"
type_text sag = codes "SAG"
type_text swell = codes "SWELL"
type_text spike = codes "SPIKE"
type_text dip = codes "DIP"
type_text unknown = codes "UNKNOWN"

-- `"|".join(...)`.
unfoldable pub join : List Text → Text
join [] = []
join (s ∷ []) = s
join (s ∷ t ∷ rest) = s ++ (codes "|" ++ join (t ∷ rest))

-- A row of windows.csv; `none` is an empty cell.
pub record WindowRow (W : Type 0) : Type 0 where
  pub note_id : Text
  pub kind : Kind
  pub observed_at_iso : Text
  pub timestamp_iso : Text
  pub timestamp_ns : ℕ
  pub vrms_v : Option W
  pub vmin_v : Option W
  pub vmax_v : Option W

-- A row of notes.csv; an absent `picture` or an absent number is an empty cell.
pub record NoteRow (W : Type 0) : Type 0 where
  pub id : Text
  pub kind : Kind
  pub pika_location : Text
  pub note : Text
  pub picture : Option (Picture W)
  pub created_at_iso : Text
  pub observed_at_iso : Text
  pub observed_at_ns : Option ℤ
  pub window_start_iso : Text
  pub window_end_iso : Text
  pub nominal_v : W
  pub median_vrms_v : Option W
  pub lowest_vrms_v : Option W
  pub lowest_vrms_iso : Text
  pub lowest_vs_nominal_pct : Option W
  pub lowest_vs_median_pct : Option W
  pub highest_vrms_v : Option W
  pub highest_vrms_iso : Text
  pub low_run_s : W
  pub high_run_s : Option W
  pub event_count : ℕ
  pub event_types : Text
  pub coverage : Coverage
  pub summary : List (Sentence W)

pub record ChartEvent (W : Type 0) : Type 0 where
  pub t_ms : W
  pub type : EventType
  pub peak_rms_v : W

pub record ChartNote (W : Type 0) : Type 0 where
  pub id : Text
  pub kind : Kind
  pub pika_location : Text
  pub note : Text
  pub observed_at_ms : W
  pub observed_at_iso : Text
  pub summary : List (Sentence W)
  pub nominal_v : W
  pub lowest_vrms_v : Option W
  pub marker_y : Option W
  pub t_ms : List W
  pub vrms : List W
  pub events : List (ChartEvent W)

pub record Exported (W : Type 0) : Type 0 where
  pub note_rows : List (NoteRow W)
  pub window_rows : List (WindowRow W)
  pub chart_notes : List (ChartNote W)

-- `min(range(n), key=...)` by distances, of which the first is `best`, at index `at`.
unfoldable pub nearest_from : ℕ → ℕ → ℕ → List ℕ → ℕ
nearest_from at best i [] = at
nearest_from at best i (d ∷ ds) =
    nearest_from (if ltb d best then i else at) (if ltb d best then d else best) (suc i) ds

abbrev pub nearest_index : List ℕ → ℕ
nearest_index [] = 0
nearest_index (d ∷ ds) = nearest_from 0 d 1 ds

-- `stats.get("summary") or note.get("summary") or ""`.
abbrev pub summary_of : {W : Type 0} → List (Sentence W) → List (Sentence W) → List (Sentence W)
summary_of [] stored = stored
summary_of (s ∷ rest) stored = s ∷ rest

module _ {W : Type 0} (clock : Clock) (n : Note W) where
  -- `for i, ts in enumerate(stamps)`, from `i` on.
  unfoldable pub window_rows_from : Columns W → ℕ → List ℕ → List (WindowRow W)
  window_rows_from c i [] = []
  window_rows_from c i (ts ∷ stamps) =
      record {
        note_id = n.id;
        kind = n.entry.kind;
        observed_at_iso = ns_to_iso clock (some n.entry.observed_at_ns);
        timestamp_iso = ns_to_iso clock (some (pos ts));
        timestamp_ns = ts;
        vrms_v = get_elem? c.vrms i;
        vmin_v = get_elem? c.mins i;
        vmax_v = get_elem? c.maxs i;
      }
      ∷ window_rows_from c (suc i) stamps

  unfoldable pub export_window_rows : Correlation W → List (WindowRow W)
  export_window_rows k = window_rows_from k.stats.intervals 0 k.stats.intervals.timestamps

  unfoldable pub export_note_row : Correlation W → NoteRow W
  export_note_row k =
      let m = k.stats.measures in
      let events = k.stats.events in
      record {
        id = n.id;
        kind = n.entry.kind;
        pika_location = n.entry.pika_location;
        note = n.entry.note;
        picture = n.entry.picture;
        created_at_iso = ns_to_iso clock (some (pos n.created_at_ns));
        observed_at_iso = ns_to_iso clock (some n.entry.observed_at_ns);
        observed_at_ns =
            if magnitude n.entry.observed_at_ns == 0 then none else some n.entry.observed_at_ns;
        window_start_iso = ns_to_iso clock (some k.stats.window_start_ns);
        window_end_iso = ns_to_iso clock (some k.stats.window_end_ns);
        nominal_v = k.stats.nominal_v;
        median_vrms_v = elim m [ none ↦ none | some x ↦ some x.median_vrms_v ];
        lowest_vrms_v = elim m [ none ↦ none | some x ↦ some x.lowest_vrms_v ];
        lowest_vrms_iso =
            ns_to_iso clock (elim m [ none ↦ none | some x ↦ some (pos x.lowest_vrms_ns) ]);
        lowest_vs_nominal_pct = elim m [ none ↦ none | some x ↦ some x.lowest_vs_nominal_pct ];
        lowest_vs_median_pct = elim m [ none ↦ none | some x ↦ some x.lowest_vs_median_pct ];
        highest_vrms_v = elim m [ none ↦ none | some x ↦ some x.highest_vrms_v ];
        highest_vrms_iso =
            ns_to_iso clock (elim m [ none ↦ none | some x ↦ some (pos x.highest_vrms_ns) ]);
        low_run_s = k.stats.low_run_s;
        high_run_s = elim m [ none ↦ none | some x ↦ some x.high_run_s ];
        event_count = length events;
        event_types = join (map (λ (e : EventRow W). type_text e.type) events);
        coverage = k.stats.coverage;
        summary = summary_of k.summary (note_summary n.digest);
      }

module _ {W : Type 0} ⦃fl : Float W⦄ where
  abbrev pub milliseconds : ℤ → W
  milliseconds ns = fl.div (fl.of_int ns) (of_nat 1_000_000)

  abbrev pub chart_event : EventRow W → ChartEvent W
  chart_event e = record {
    t_ms = milliseconds (pos e.timestamp);
    type = e.type;
    peak_rms_v = e.peak_rms_v;
  }

  -- The sample nearest to the note's time, where no interval was measured.
  unfoldable pub marker : ℤ → Columns W → Option W → Option W
  marker observed_ns c (some low) = some low
  marker observed_ns c none =
      get_elem? c.vrms (nearest_index (map (λ t. magnitude (pos t -ℤ observed_ns)) c.timestamps))

module _ {W : Type 0} ⦃fl : Float W⦄ (clock : Clock) (n : Note W) where
  unfoldable pub export_chart_note : Correlation W → ChartNote W
  export_chart_note k =
      let c = k.stats.intervals in
      let low : Option W = elim k.stats.measures [ none ↦ none | some x ↦ some x.lowest_vrms_v ] in
      record {
        id = n.id;
        kind = n.entry.kind;
        pika_location = n.entry.pika_location;
        note = n.entry.note;
        observed_at_ms = milliseconds n.entry.observed_at_ns;
        observed_at_iso = ns_to_iso clock (some n.entry.observed_at_ns);
        summary = summary_of k.summary (note_summary n.digest);
        nominal_v = k.stats.nominal_v;
        lowest_vrms_v = low;
        marker_y = marker n.entry.observed_at_ns c low;
        t_ms = map (λ t. milliseconds (pos t)) c.timestamps;
        vrms = c.vrms;
        events = map chart_event k.stats.events;
      }

  -- The rows of one note before those of the others; `none` is an exception of either.
  unfoldable pub add_note : Option (Correlation W) → Option (Exported W) → Option (Exported W)
  add_note (some k) (some x) = some (record {
    note_rows = export_note_row clock n k ∷ x.note_rows;
    window_rows = export_window_rows clock n k ++ x.window_rows;
    chart_notes = export_chart_note k ∷ x.chart_notes;
  })
  add_note _ _ = none

module _ {W : Type 0} ⦃fl : Float W⦄ (s : Sources W) (clock : Clock) where
  unfoldable pub export_notes : List (Note W) → Run (Option (Exported W))
  export_notes [] = done (some (record { note_rows = []; window_rows = []; chart_notes = [] }))
  export_notes (n ∷ notes) = correlate s n.entry true >>= λ k.
      export_notes notes >>= λ rest. done (add_note clock n k rest)

  unfoldable pub export_tables : Journal W → Run (Option (Exported W))
  export_tables j = export_notes (reverse (read_all j))

-- `.encode("utf-8")`, which raises UnicodeEncodeError on a lone surrogate.
unfoldable pub is_encodable : Text → Bool
is_encodable [] = true
is_encodable (c ∷ s) = not (leb 55_296 c && leb c 57_343) && is_encodable s

-- `_csv_bytes` of the rows of notes.csv. The texts that a request has put in are these; all others are
-- the program's own.
unfoldable pub are_encodable : {W : Type 0} → List (NoteRow W) → Bool
unfolding is_encodable
are_encodable [] = true
are_encodable (r ∷ rows) =
    (is_encodable r.id && (is_encodable r.pika_location && is_encodable r.note))
    && are_encodable rows

abbrev pub encoded : {W : Type 0} → Option (Exported W) → Option (Exported W)
encoded none = none
encoded (some x) = if are_encodable x.note_rows then some x else none

-- What is written into the archive; `none` is an exception.
unfoldable pub export_zip :
    {W : Type 0} ⦃fl : Float W⦄ → Sources W → Clock → Journal W → Run (Option (Exported W))
export_zip s clock j = export_tables s clock j >>= λ x. done (encoded x)
