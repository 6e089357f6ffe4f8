-- ===== src/Validator/Examples.antt =====
-- Runs of the validator, and applications of its theorems.
use pika_pika.Prelude.{
  ℕ, ◌+◌, ◌^◌, ◌<◌, ◌-◌, ◌/◌, ◌≡◌, ◌↔◌, inl, inr, refl, true, none, some, List, [], ◌∷◌, arith,
  length, All, done,
}
use pika_pika.Prelude.Int.{pos, negsuc, ◌+ℤ◌}
use pika_pika.Float.Fixed.{Fixed, fixed_float}
use pika_pika.Events.{Settings, EventData, unpack_fields, get_event_data}
use pika_pika.Events.Index.{Row, IsSound, row_bytes, index_file, event_of_row}
use pika_pika.Binary.{read, unsigned}
use pika_pika.Binary.Encode.{le_bytes}
use pika_pika.Validator.{when}
use pika_pika.Validator.Index.{
  validate_event_index, records_loop, format_of_size, verdict, record_problems, time_problems,
  offset_problems, bound_problems, align_problems, end_problems,
}
use pika_pika.Validator.Index.Finds.{validate_event_index-get_event_data}
use pika_pika.Validator.Trend.{validate_decimated}
use pika_pika.Validator.Trend.Ends.{AsksTooMuch, EndsOr, validate_decimated_ends}
use pika_pika.Validator.Trend.Envelope.{IsEnveloped}
use pika_pika.Validator.Trend.Passes.{InEpoch, RisesFrom, validate_decimated-written}
use pika_pika.History.Format.{valid_header}
use pika_pika.History.Written
use pika_pika.History.Written.{Chunk, written}
use pika_pika.History.Sample.{chunk_from, early-IsTypical}

abbrev settings : Settings Fixed
settings = record {
  scale = some (pos 5);
  nominal_rate_hz = pos 8000;
  target_mains_vrms = some (pos 12_000);
  review = none;
}

-- In 2023, with a period of 125 microseconds.
abbrev row : ℕ → ℕ → Row
row id offset = record {
  event_id = id;
  timestamp_ns = 1_700_000_000_000_000_000 + id;
  waveform_start_ns = 1_700_000_000_000_000_000 + id;
  ns_per_sample = 125_000;
  event_type = 1;
  peak_value = negsuc 1499;
  duration_samples = 2;
  extreme_bits = 9000;
  file_offset = offset;
}

abbrev waveforms : List ℕ
waveforms = 10 ∷ 0 ∷ 20 ∷ 0 ∷ 30 ∷ 0 ∷ 40 ∷ 0 ∷ []

row-IsSound : (id offset : ℕ) → id < 2 ^ 32 → offset < 2 ^ 64 → IsSound (row id offset)
row-IsSound id offset a b = record {
  id_lt = omega arith;
  ts_lt = omega arith;
  start_lt = omega arith;
  ns_lt = omega arith;
  type_lt = omega arith;
  peak_fits = omega arith;
  dur_lt = omega arith;
  offset_lt = b;
}

rows-IsSound : All IsSound (row 7 0 ∷ row 8 4 ∷ [])
rows-IsSound =
    (row-IsSound 7 0 (omega arith) (omega arith), (row-IsSound 8 4 (omega arith) (omega arith), tt))

two_rows_pass :
    validate_event_index Fixed (some (index_file (row 7 0 ∷ row 8 4 ∷ []))) (some waveforms)
    ≡ done true
unfolding validate_event_index records_loop format_of_size verdict record_problems time_problems
    offset_problems bound_problems align_problems end_problems when unpack_fields index_file
    row_bytes le_bytes unsigned read ◌+ℤ◌
two_rows_pass = refl

validate_event_index-get_event_data_example :
    (d : EventData Fixed) × (get_event_data settings
        (some waveforms)
        (some (index_file (row 7 0 ∷ row 8 4 ∷ [])))
        7
      ≡ some d)
    × (d.event ≡ event_of_row settings (some waveforms) (row 7 0))
    × (length d.samples ≡ (4 - 0) / 2)
validate_event_index-get_event_data_example =
    validate_event_index-get_event_data Fixed settings waveforms [] (row 7 0) (row 8 4 ∷ [])
      rows-IsSound two_rows_pass ((λ e. absurd (omega arith)), tt)

validate_decimated_ends_example :
    EndsOr (AsksTooMuch 1_000_000 waveforms) (validate_decimated 1_000_000 (some waveforms))
validate_decimated_ends_example = validate_decimated_ends 1_000_000 waveforms

abbrev first : Chunk
first = chunk_from 1_700_000_000_000_000_000

abbrev second : Chunk
second = chunk_from 1_700_000_002_000_000_000

first-IsSound : Written.IsSound first
unfolding valid_header
first-IsSound = record {
  plausible = refl;
  ts_lt = omega arith;
  values_length = refl;
  values_fit = early-IsTypical.sound.values_fit;
}

second-IsSound : Written.IsSound second
unfolding valid_header
second-IsSound = record {
  plausible = refl;
  ts_lt = omega arith;
  values_length = refl;
  values_fit = early-IsTypical.sound.values_fit;
}

validate_decimated-written_example :
    (validate_decimated 1_000_000 (some (written (first ∷ second ∷ []))) ≡ done (some true)) ↔ (
      All InEpoch (first ∷ second ∷ [])
      × RisesFrom 1_700_000_000_000_000_000 (second ∷ [])
      × All IsEnveloped (first ∷ second ∷ []))
validate_decimated-written_example =
    validate_decimated-written 1_000_000 first (second ∷ []) (first-IsSound, (second-IsSound, tt))
      (omega arith, (omega arith, tt))

in_order : (ts : ℕ) → IsEnveloped (chunk_from ts)
in_order ts = inr (inl (refl, ground arith))

two_chunks_pass :
    validate_decimated 1_000_000 (some (written (first ∷ second ∷ []))) ≡ done (some true)
two_chunks_pass =
    (validate_decimated-written 1_000_000 first (second ∷ []) (first-IsSound, (second-IsSound, tt))
        (omega arith, (omega arith, tt))).1
      (
        ((omega arith, omega arith), ((omega arith, omega arith), tt)),
        (omega arith, tt),
        (in_order 1_700_000_000_000_000_000, (in_order 1_700_000_002_000_000_000, tt)),
      )
