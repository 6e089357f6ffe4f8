-- ===== src/Observations/Export/Rows.antt =====
-- observation_service.py: which rows `export_zip` writes.
use pika_pika.Prelude.{
  ℕ, Bool, true, false, not, ◌&&◌, ◌||◌, leb, List, [], ◌∷◌, ◌++◌, map, Run, done, ◌>>=◌,
}
use pika_pika.Prelude.Int.{pos, ◌-ℤ◌}
use pika_pika.Float.{Float}
use pika_pika.Text.{Text}
use pika_pika.Observations.Note.{Kind}
use pika_pika.Observations.Summary.{Stats}
use pika_pika.Observations.Correlate.{Sources}
use pika_pika.Observations.Notes.{Note}
use pika_pika.Observations.Export.{WindowRow, NoteRow, ChartNote}

-- What the rows of the tables carry of their notes.
abbrev pub note_keys : {W : Type 0} → List (Note W) → List (Text × Kind × Text × Text)
note_keys notes = map (λ n. (n.id, n.entry.kind, n.entry.pika_location, n.entry.note)) notes

abbrev pub note_row_keys : {W : Type 0} → List (NoteRow W) → List (Text × Kind × Text × Text)
note_row_keys rows = map (λ r. (r.id, r.kind, r.pika_location, r.note)) rows

abbrev pub chart_keys : {W : Type 0} → List (ChartNote W) → List (Text × Kind × Text × Text)
chart_keys charts = map (λ c. (c.id, c.kind, c.pika_location, c.note)) charts

abbrev pub window_keys : {W : Type 0} → List (WindowRow W) → List (Text × Kind × ℕ)
window_keys rows = map (λ r. (r.note_id, r.kind, r.timestamp_ns)) rows

module _ {W : Type 0} (s : Sources W) where
  -- The times of all intervals of the minute before each note, with the note's id and kind.
  unfoldable pub minutes : List (Note W) → Run (List (Text × Kind × ℕ))
  minutes [] = done []
  minutes (n ∷ notes) =
      s.intervals_between (n.entry.observed_at_ns -ℤ pos 60_000_000_000) n.entry.observed_at_ns
      >>= λ c.
          minutes notes >>= λ rest. done (map (λ t. (n.id, n.entry.kind, t)) c.timestamps ++ rest)

-- Code points from U+D800 to U+DFFF.
abbrev pub has_surrogate : Text → Bool
has_surrogate [] = false
has_surrogate (c ∷ s) = (leb 55_296 c && leb c 57_343) || has_surrogate s

abbrev pub have_no_surrogate : List (Text × Kind × Text × Text) → Bool
have_no_surrogate [] = true
have_no_surrogate ((id, kind, location, note) ∷ keys) =
    not (has_surrogate id || (has_surrogate location || has_surrogate note))
    && have_no_surrogate keys
