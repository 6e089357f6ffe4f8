-- ===== src/Events/Examples.antt =====
-- Runs of the event index on three rows, and applications of its theorems, with numbers in
-- hundredths.
use pika_pika.Prelude.{
  ℕ, ◌-◌, ◌*◌, ◌^◌, ◌<◌, ◌/◌, ◌≡◌, refl, none, some, List, [], ◌∷◌, map, arith, length, keep, All,
  InOrder,
}
use pika_pika.Prelude.Int.{pos, negsuc}
use pika_pika.Float.Fixed.{Fixed, fixed_float}
use pika_pika.History.Window.{in_window}
use pika_pika.Events.{
  v2, v3, record_size, Settings, EventData, detect_index_format, get_recent_events, events_between,
  get_event_data,
}
use pika_pika.Events.Index.{Row, IsSound, index_file, event_of_row}
use pika_pika.Events.Listing.{detect_index_format-records, get_recent_events-written}
use pika_pika.Events.Window.{events_between-written}
use pika_pika.Events.Waveform.{get_event_data-written}

abbrev settings : Settings Fixed
settings = record {
  scale = some (pos 5);
  nominal_rate_hz = pos 8000;
  target_mains_vrms = some (pos 12_000);
  review = none;
}

abbrev row : ℕ → ℕ → ℕ → Row
row id at offset = record {
  event_id = id;
  timestamp_ns = at;
  waveform_start_ns = at;
  ns_per_sample = 125_000;
  event_type = 1;
  peak_value = negsuc 1499;
  duration_samples = 800;
  extreme_bits = 9000;
  file_offset = offset;
}

abbrev rows : List Row
rows = row 7 1000 0 ∷ row 8 2000 4 ∷ row 9 3000 8 ∷ []

-- Two samples for each of the first two rows, one for the last.
abbrev waveforms : List ℕ
waveforms = 10 ∷ 0 ∷ 20 ∷ 0 ∷ 30 ∷ 0 ∷ 40 ∷ 0 ∷ 50 ∷ 0 ∷ []

row_at-IsSound :
    (id at offset : ℕ) → id < 2 ^ 64 → at < 2 ^ 64 → offset < 2 ^ 64 → IsSound (row id at offset)
row_at-IsSound id at offset a b c = record {
  id_lt = a;
  ts_lt = b;
  start_lt = b;
  ns_lt = omega arith;
  type_lt = omega arith;
  peak_fits = omega arith;
  dur_lt = omega arith;
  offset_lt = c;
}

rows-IsSound : All IsSound rows
rows-IsSound = (
  row_at-IsSound 7 1000 0 (omega arith) (omega arith) (omega arith),
  (
    row_at-IsSound 8 2000 4 (omega arith) (omega arith) (omega arith),
    (row_at-IsSound 9 3000 8 (omega arith) (omega arith) (omega arith), tt),
  ),
)

rows-InOrder : InOrder (λ r. r.timestamp_ns) rows
rows-InOrder = ((omega arith, (omega arith, tt)), ((omega arith, tt), (tt, tt)))

-- A v2 index of 51 records.
ambiguous_size : detect_index_format (51 * record_size v2) ≡ v3
unfolding detect_index_format
ambiguous_size = refl

detect_index_format-records_example :
    (detect_index_format (51 * record_size v3) ≡ v3)
    × (detect_index_format (51 * record_size v2) ≡ v3)
detect_index_format-records_example = detect_index_format-records 51

get_recent_events-written_example :
    get_recent_events settings (some waveforms) (some (index_file rows)) (pos 2)
    ≡ event_of_row settings (some waveforms) (row 9 3000 8)
      ∷ event_of_row settings (some waveforms) (row 8 2000 4)
      ∷ []
get_recent_events-written_example =
    get_recent_events-written settings (some waveforms) rows (pos 2) rows-IsSound

events_between-written_example :
    events_between settings none (some (index_file rows)) (pos 1500) (pos 2500)
    ≡ keep
        (λ e. in_window (pos 1500) (pos 2500) e.timestamp)
        (map (event_of_row settings none) rows)
events_between-written_example =
    events_between-written settings none rows (pos 1500) (pos 2500) rows-IsSound rows-InOrder
      (omega arith)

get_event_data-written_example :
    (d : EventData Fixed) × (get_event_data settings (some waveforms) (some (index_file rows)) 8
      ≡ some d)
    × (d.event ≡ event_of_row settings (some waveforms) (row 8 2000 4))
    × (length d.samples ≡ (8 - 4) / 2)
get_event_data-written_example =
    get_event_data-written settings waveforms (row 7 1000 0 ∷ []) (row 8 2000 4) (row 9 3000 8 ∷ [])
      rows-IsSound ((λ e. absurd (omega arith)), tt) (omega arith) (omega arith)
