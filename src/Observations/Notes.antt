-- ===== src/Observations/Notes.antt =====
-- observation_service.py: the notes in observations.jsonl, a file that only grows. A line of it is what
-- `json.loads` makes of it; a note that `json.dumps` writes is read back as it is,
-- on a line of its own.
pub mod Latest
pub mod Reachable
use pika_pika.Prelude.{
  ℕ, ◌≡◌, Bool, false, Option, none, some, List, [], ◌∷◌, ◌++◌, map, reverse, last_items, length,
  if◌then◌else◌, Run, done, out_of_fuel, ◌>>=◌, Result, ok, error, and_then,
}
use pika_pika.Float.{Float}
use pika_pika.Text.{Text, same}
use pika_pika.Observations.Note.{Entry}
use pika_pika.Observations.Summary.{Measures, Sentence}
use pika_pika.Observations.Correlate.{Sources, Correlation, correlate, window_s}
use pika_pika.Observations.Validate.{Body, Builtins, Problem, validate}

-- What `create_note` adds to a note that it stores.
pub record Digest (W : Type 0) : Type 0 where
  pub summary : List (Sentence W)
  pub lowest_vrms_v : Option W
  pub low_run_s : W
  pub event_count : ℕ

pub record Note (W : Type 0) : Type 0 where
  pub id : Text
  pub created_at_ns : ℕ
  pub entry : Entry W
  pub digest : Option (Digest W)

pub data Line (W : Type 0) : Type 0 where
  blank broken : Line W
  stored : Note W → Line W

-- `none` is a file that does not exist.
abbrev pub Journal : Type 0 → Type 0
Journal W = Option (List (Line W))

-- The dictionary of `_public_note`.
pub record PublicNote (W : Type 0) : Type 0 where
  pub id : Text
  pub created_at_ns : ℕ
  pub entry : Entry W
  pub window_s : ℕ
  pub summary : List (Sentence W)
  pub lowest_vrms_v : Option W
  pub low_run_s : Option W
  pub event_count : Option ℕ

pub record Correlated (W : Type 0) : Type 0 where
  pub public_note : PublicNote W
  pub correlation : Correlation W

-- What `get_note` returns; `raised` is an exception of `correlate`.
pub data Answer (W : Type 0) : Type 0 where
  no_note raised : Answer W
  found : Correlated W → Answer W

-- What `create_note` returns, with the file that it leaves.
pub data Creation (W : Type 0) : Type 0 where
  failed : Creation W
  created : Correlated W → Journal W → Creation W

module _ {W : Type 0} where
  unfoldable pub notes_of : List (Line W) → List (Note W)
  notes_of [] = []
  notes_of (stored n ∷ lines) = n ∷ notes_of lines
  notes_of (blank ∷ lines) = notes_of lines
  notes_of (broken ∷ lines) = notes_of lines

  unfoldable pub read_all : Journal W → List (Note W)
  unfolding notes_of
  read_all none = []
  read_all (some lines) = notes_of lines

  unfoldable pub append : Journal W → Note W → Journal W
  append none n = some (stored n ∷ [])
  append (some lines) n = some (lines ++ (stored n ∷ []))

  abbrev pub note_summary : Option (Digest W) → List (Sentence W)
  note_summary none = []
  note_summary (some d) = d.summary

  unfoldable pub public_note : Note W → PublicNote W
  public_note n = record {
    id = n.id;
    created_at_ns = n.created_at_ns;
    entry = n.entry;
    window_s = window_s;
    summary = note_summary n.digest;
    lowest_vrms_v = elim n.digest [ none ↦ none | some d ↦ d.lowest_vrms_v ];
    low_run_s = elim n.digest [ none ↦ none | some d ↦ some d.low_run_s ];
    event_count = elim n.digest [ none ↦ none | some d ↦ some d.event_count ];
  }

  -- The newest first; a limit of 0 is no limit.
  unfoldable pub list_notes : Journal W → ℕ → List (PublicNote W)
  list_notes j limit = reverse (map public_note (last_items limit (read_all j)))

  unfoldable pub find_note : Text → List (Note W) → Option (Note W)
  find_note id [] = none
  find_note id (n ∷ notes) = let rest = find_note id notes in if same n.id id then some n else rest

  abbrev pub correlated : Note W → Correlation W → Correlated W
  correlated n k = record { public_note = public_note n; correlation = k }

  abbrev pub answer : Option (Correlated W) → Answer W
  answer none = raised
  answer (some c) = found c

  -- The note as it is stored.
  unfoldable pub stored_note : Note W → Correlation W → Note W
  stored_note n k = record {
    id = n.id;
    created_at_ns = n.created_at_ns;
    entry = n.entry;
    digest = some (record {
      summary = k.summary;
      lowest_vrms_v = elim k.stats.measures [ none ↦ none | some m ↦ some m.lowest_vrms_v ];
      low_run_s = k.stats.low_run_s;
      event_count = length k.stats.events;
    });
  }

  abbrev pub creation : Journal W → Note W → Option (Correlated W) → Creation W
  creation j n none = failed
  creation j n (some c) = created c (append j (stored_note n c.correlation))

module _ {W : Type 0} ⦃fl : Float W⦄ (s : Sources W) where
  -- `none` is an exception.
  unfoldable pub with_correlation : Note W → Run (Option (Correlated W))
  with_correlation n = correlate s n.entry false >>= λ o.
      done (elim o [ none ↦ none | some k ↦ some (correlated n k) ])

  unfoldable pub get_note : Journal W → Text → Run (Answer W)
  get_note j id = elim (find_note id (reverse (read_all j))) [
    | none ↦ done no_note
    | some n ↦ with_correlation n >>= λ o. done (answer o)
  ]

  -- The clock is read twice: for the check, and for the note.
  unfoldable pub create_note :
      Builtins W → Option (Body W) → Journal W → ℕ → Text → ℕ → Result Problem (Run (Creation W))
  create_note py body j now_ns id created_at_ns = and_then (validate py body now_ns) (λ e.
      let n : Note W = record {
        id = id;
        created_at_ns = created_at_ns;
        entry = e;
        digest = none;
      } in
      ok (with_correlation n >>= λ o. done (creation j n o)))
