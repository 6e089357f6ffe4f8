-- ===== src/Events.antt =====
-- pika/webapp/app/services/event_service.py: the sags and swells that the datalogger indexed in
-- index.bin, with their waveforms in events.bin. A file is its bytes, `none` one that is missing.
pub mod Index
pub mod Listing
pub mod Window
pub mod Waveform
mod Examples
use pika_pika.Prelude.{
  ℕ, zero, suc, ◌+◌, ◌*◌, ◌-◌, ◌/◌, ◌%◌, min, Bool, true, false, ◌&&◌, Option, none, some, List, [],
  ◌∷◌, map, reverse, ltb, leb, ◌==◌, if◌then◌else◌, length, take, drop, keep, sort_by, by_key,
}
use pika_pika.Prelude.Int.{ℤ, pos, negsuc, pos_part, times, magnitude, ltb_ℤ}
use pika_pika.Float.{Float, of_nat, max_from}
use pika_pika.Binary.{read, unsigned, signed16, shorts}
use pika_pika.Scope.{total}
use pika_pika.History.Window.{in_window}
use pika_pika.Review.{EventType, type_name, Section, Verdict, evaluate_event_review}

pub data IndexFormat : Type 0 where
  v2 v3 : IndexFormat

abbrev pub record_size : IndexFormat → ℕ
record_size v2 = 47
record_size v3 = 51

unfoldable pub detect_index_format : ℕ → IndexFormat
detect_index_format size =
    if size == 0 then v3 else if size % 51 == 0 then v3 else if size % 47 == 0 then v2 else v3

-- The fields of one index record; only v3 has `extreme_rms_v`.
pub record IndexRecord (W : Type 0) : Type 0 where
  pub event_id : ℕ
  pub ts : ℕ
  pub wf_start : ℕ
  pub ns_per_sample : ℕ
  pub etype : ℕ
  pub peak_raw : ℤ
  pub dur : ℕ
  pub extreme_rms_v : Option W
  pub file_off : ℕ

-- What an event needs of the other services: `mains_volts_per_count()`, `get_nominal_rate_hz()`,
-- `get_target_mains_vrms()` and the `review` section of the configuration.
pub record Settings (W : Type 0) : Type 0 where
  pub scale : W
  pub nominal_rate_hz : ℤ
  pub target_mains_vrms : W
  pub review : Option (Section W)

-- The dictionary of an event; `peak_volts` has the value of `peak_rms_v`.
pub record Event (W : Type 0) : Type 0 where
  pub id : ℕ
  pub timestamp : ℕ
  pub waveform_start_ns : ℕ
  pub ns_per_sample : ℕ
  pub type : EventType
  pub peak_rms_v : W
  pub duration_ms : W
  pub duration_samples : ℕ
  pub file_offset : ℕ
  pub review : Verdict W

-- The reply of `get_event_data`: the event and its waveform.
pub record EventData (W : Type 0) : Type 0 where
  pub event : Event W
  pub vrms : W
  pub instantaneous_peak_v : W
  pub samples : List W
  pub sample_rate : ℤ

module _ (W : Type 0) ⦃fl : Float W⦄ where
  -- `int(1_000_000_000 / rate) if rate else default`.
  abbrev pub period_ns : ℤ → ℤ → ℤ
  period_ns rate default =
      if magnitude rate == 0
      then default
      else fl.trunc (fl.div (of_nat 1_000_000_000) (fl.of_int rate))

  -- The mean of up to 5000 samples at the event's offset is the bias of an old peak.
  unfoldable pub legacy_peak_without_dc : Option (List ℕ) → ℤ → ℕ → ℤ
  legacy_peak_without_dc none peak_raw file_offset = peak_raw
  legacy_peak_without_dc (some f) peak_raw file_offset =
      let raw = read f file_offset (5000 * 2) in
      let count = length raw / 2 in
      let baseline = fl.div (fl.of_int (total (shorts (take (count * 2) raw)))) (of_nat count) in
      if ltb (magnitude peak_raw) 1000
      then peak_raw
      else if count == 0
      then peak_raw
      else fl.nearest (fl.sub (fl.of_int peak_raw) baseline)

module _ {W : Type 0} ⦃fl : Float W⦄ where
  unfoldable pub unpack_fields : IndexFormat → List ℕ → IndexRecord W
  unpack_fields fmt bytes =
      let (extreme, file_off) : Option W × ℕ = elim fmt [
        | v2 ↦ (none, unsigned (take 8 (drop 39 bytes)))
        | v3 ↦ (some (fl.float32 (take 4 (drop 39 bytes))), unsigned (take 8 (drop 43 bytes)))
      ] in
      record {
        event_id = unsigned (take 8 bytes);
        ts = unsigned (take 8 (drop 8 bytes));
        wf_start = unsigned (take 8 (drop 16 bytes));
        ns_per_sample = unsigned (take 8 (drop 24 bytes));
        etype = unsigned (take 1 (drop 32 bytes));
        peak_raw = signed16 (unsigned (take 2 (drop 33 bytes)));
        dur = unsigned (take 4 (drop 35 bytes));
        extreme_rms_v = extreme;
        file_off = file_off;
      }

  unfoldable pub duration_ms_of : ℤ → ℕ → ℕ → W
  duration_ms_of nominal_rate_hz dur_samples ns_per_sample =
      let ns =
        if ns_per_sample == 0
        then period_ns W nominal_rate_hz (pos 100_000)
        else pos ns_per_sample in
      fl.div (fl.of_int (times dur_samples ns)) (of_nat 1_000_000)

  -- Instantaneous crest to approximate RMS.
  abbrev pub legacy_rms : W → ℤ → W
  legacy_rms scale peak_ac =
      fl.round (fl.div (fl.mul (of_nat (magnitude peak_ac)) scale) (fl.sqrt (of_nat 2))) 1

  unfoldable pub peak_rms_of : Settings W → Option (List ℕ) → IndexRecord W → Option W → W
  peak_rms_of s waveforms r none =
      legacy_rms s.scale (legacy_peak_without_dc W waveforms r.peak_raw r.file_off)
  peak_rms_of s waveforms r (some x) =
      if fl.is_finite x
      then fl.round x 1
      else legacy_rms s.scale (legacy_peak_without_dc W waveforms r.peak_raw r.file_off)

  unfoldable pub event_of : Settings W → Option (List ℕ) → IndexRecord W → Event W
  event_of s waveforms r =
      let duration_ms = fl.round (duration_ms_of s.nominal_rate_hz r.dur r.ns_per_sample) 2 in
      let peak_rms = peak_rms_of s waveforms r r.extreme_rms_v in
      record {
        id = r.event_id;
        timestamp = r.ts;
        waveform_start_ns = r.wf_start;
        ns_per_sample = r.ns_per_sample;
        type = type_name r.etype;
        peak_rms_v = peak_rms;
        duration_ms = duration_ms;
        duration_samples = r.dur;
        file_offset = r.file_off;
        review =
            evaluate_event_review s.review (type_name r.etype) peak_rms duration_ms
              s.target_mains_vrms;
      }

module _ {W : Type 0} ⦃fl : Float W⦄ (s : Settings W) (waveforms : Option (List ℕ)) where
  unfoldable pub unpack_record : IndexFormat → List ℕ → Event W
  unpack_record fmt bytes = event_of s waveforms (unpack_fields fmt bytes)

  -- `for _ in range(left)`: one record after the other from an offset on.
  unfoldable pub read_loop : IndexFormat → List ℕ → ℕ → ℕ → List (Event W)
  read_loop fmt f zero at = []
  read_loop fmt f (suc left) at =
      let bytes = read f at (record_size fmt) in
      let rest = read_loop fmt f left (at + record_size fmt) in
      if ltb (length bytes) (record_size fmt) then [] else unpack_record fmt bytes ∷ rest

  -- Newest first. A limit below 1 gives no event.
  unfoldable pub get_recent_events : Option (List ℕ) → ℤ → List (Event W)
  get_recent_events none limit = []
  get_recent_events (some f) limit =
      let fmt = detect_index_format (length f) in
      let count = length f / record_size fmt in
      let to_read = min (pos_part limit) count in
      reverse (read_loop fmt f to_read ((count - to_read) * record_size fmt))

  unfoldable pub events_between : Option (List ℕ) → ℤ → ℤ → List (Event W)
  events_between none start_ns end_ns = []
  events_between (some f) start_ns end_ns =
      let fmt = detect_index_format (length f) in
      let found =
        keep (λ e. in_window start_ns end_ns e.timestamp)
          (read_loop fmt f (length f / record_size fmt) 0) in
      if ltb_ℤ end_ns start_ns then [] else sort_by (by_key (λ e. e.timestamp)) found

  -- The root of the mean square, and the greatest magnitude; 0.0 without samples.
  unfoldable pub rms_of : List W → W
  rms_of [] = of_nat 0
  rms_of (v ∷ volts) =
      fl.sqrt (fl.div (fl.sum (map (λ x. fl.mul x x) (v ∷ volts))) (of_nat (length (v ∷ volts))))

  unfoldable pub peak_of : List W → W
  peak_of [] = of_nat 0
  peak_of (v ∷ volts) = max_from (fl.abs v) (map fl.abs volts)

  abbrev pub volts_of : List ℤ → List W
  volts_of samples =
      let baseline = fl.div (fl.of_int (total samples)) (of_nat (length samples)) in
      map (λ z. fl.round (fl.mul (fl.sub (fl.of_int z) baseline) s.scale) 2) samples

  -- The reply for the bytes of a waveform.
  unfoldable pub reply : Event W → List ℕ → EventData W
  reply meta raw_samples =
      let volts = volts_of (shorts raw_samples) in
      record {
        event = meta;
        vrms = fl.round (rms_of volts) 2;
        instantaneous_peak_v = fl.round (peak_of volts) 2;
        samples = volts;
        sample_rate = period_ns W (pos meta.ns_per_sample) s.nominal_rate_hz;
      }

  -- The waveform between an offset and the next event's; `none` is the exception of
  -- `struct.unpack` on too few bytes, or on a negative count.
  unfoldable pub event_data : List ℕ → Event W → Option ℕ → Option (EventData W)
  event_data df meta next_offset =
      let stop : ℕ = elim next_offset [ none ↦ length df | some next ↦ next ] in
      let cap_samps = (stop - meta.file_offset) / 2 in
      let raw_samples = read df meta.file_offset (cap_samps * 2) in
      if ltb stop meta.file_offset
      then none
      else if ltb (length raw_samples) (cap_samps * 2)
      then none
      else some (reply meta raw_samples)

  -- `for i in range(count - 1, -1, -1)` over the records from the last one down, with `left` to go:
  -- the record behind it, if there is one, gives the next offset.
  unfoldable pub find_loop : IndexFormat → List ℕ → List ℕ → ℕ → ℕ → ℕ → Option (EventData W)
  find_loop fmt f df event_id count zero = none
  find_loop fmt f df event_id count (suc i) =
      let size = record_size fmt in
      let record_data = read f (i * size) size in
      let meta = unpack_record fmt record_data in
      let next_offset =
        if ltb i (count - 1)
        then some (unpack_fields {W = W} fmt (read f ((i + 1) * size) size)).file_off
        else none in
      let rest = find_loop fmt f df event_id count i in
      if ltb (length record_data) size
      then rest
      else if meta.id == event_id
      then event_data df meta next_offset
      else rest

  -- `waveforms` is events.bin.
  unfoldable pub get_event_data : Option (List ℕ) → ℕ → Option (EventData W)
  get_event_data none event_id = none
  get_event_data (some f) event_id =
      let fmt = detect_index_format (length f) in
      let count = length f / record_size fmt in
      elim waveforms [ none ↦ none | some df ↦ find_loop fmt f df event_id count count ]
