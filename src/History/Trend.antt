-- ===== src/History/Trend.antt =====
-- history_service.py: `get_decimated_data`, the payload of the trend pane, and the trend's rate.
-- `rollup` stands for what `get_vrms_10min_rollup(limit=24)` read from its own file of JSON lines.
pub mod Rate
pub mod Request
use pika_pika.Prelude.{
  ℕ, zero, suc, ◌+◌, ◌*◌, ◌-◌, max, Bool, true, false, not, ◌&&◌, Option, none, some, List, [], ◌∷◌,
  map, ltb, leb, ◌==◌, if◌then◌else◌, length, take, drop, Run, done, ◌>>=◌,
}
use pika_pika.Prelude.Int.{ℤ, pos, pos_part, ◌-ℤ◌}
use pika_pika.Float.{Float, of_nat}
use pika_pika.Binary.{read}
use pika_pika.History.Format.{
  header_size, typical_iec_chunk_bytes, default_iec_rate_hz, unpack_header, valid_header,
  chunk_bytes, Layout, Columns, no_columns,
}
use pika_pika.History.Parse.{is_empty, Parsed, read_tail_intervals}
use pika_pika.History.Display.{bucket_intervals}

-- `for offset in range(…)` of `_peek_rate_from_file`, with `left` rounds to go; `probe` is
-- `probe[offset:]`.
unfoldable pub peek_loop : ℕ → List ℕ → ℕ
peek_loop zero probe = 0
peek_loop (suc left) probe =
    let h = unpack_header (take header_size probe) in
    let next = peek_loop left (drop 1 probe) in if valid_header h then h.rate else next

unfoldable pub peek_rate_from_file : List ℕ → ℕ → ℕ
peek_rate_from_file f size =
    let hdr = read f (size - typical_iec_chunk_bytes) header_size in
    let h = unpack_header hdr in
    let probe = read f (size - typical_iec_chunk_bytes) (size - (size - typical_iec_chunk_bytes)) in
    if ltb size header_size
    then 0
    else if leb typical_iec_chunk_bytes size
        && (length hdr == header_size)
        && valid_header h
        && (chunk_bytes h.count h.channels h.vps == typical_iec_chunk_bytes)
    then h.rate
    else peek_loop (length probe + 1 - header_size) probe

-- `rate or DEFAULT_IEC_RATE_HZ`.
abbrev pub rate_or_default : ℕ → ℕ
rate_or_default rate = if rate == 0 then default_iec_rate_hz else rate

unfoldable pub peek_decimated_rate : Option (List ℕ) → ℕ
peek_decimated_rate none = default_iec_rate_hz
peek_decimated_rate (some f) =
    if ltb (length f) header_size
    then default_iec_rate_hz
    else rate_or_default (peek_rate_from_file f (length f))

-- `source_cap`; a product that is not positive gives 1.
unfoldable pub source_cap_of : ℤ → Option ℤ → ℕ → ℕ
source_cap_of max_points none rate_hint = max 1 (pos_part max_points)
source_cap_of max_points (some window_minutes) rate_hint =
    max 1 (pos_part window_minutes * 60 * rate_hint)

-- The last and the first item of a list that is not empty.
abbrev pub last_or : ℕ → List ℕ → ℕ
last_or d [] = d
last_or d (t ∷ ts) = last_or t ts

-- `none` for the format is "none", that of an empty payload.
pub record Payload (W R : Type 0) : Type 0 where
  pub columns : Columns W
  pub rate : ℕ
  pub fmt : Option Layout
  pub rollup_10min : R
  pub window_seconds : W
  pub source_points : ℕ
  pub display_points : ℕ

module _ {W R : Type 0} ⦃fl : Float W⦄ (rollup : R) where
  unfoldable pub empty : Payload W R
  empty = record {
    columns = no_columns;
    rate = 0;
    fmt = none;
    rollup_10min = rollup;
    window_seconds = of_nat 0;
    source_points = 0;
    display_points = 0;
  }

  unfoldable pub window_seconds_of : List ℕ → ℕ → ℕ → W
  window_seconds_of [] source_points sample_rate =
      fl.div (of_nat source_points) (of_nat (rate_or_default sample_rate))
  window_seconds_of (t ∷ ts) source_points sample_rate =
      let seconds = fl.div (fl.of_int (pos (last_or t ts) -ℤ pos t)) (of_nat 1_000_000_000) in
      if fl.lt (of_nat 0) seconds then seconds else of_nat 0

  -- The rows that are drawn; `none` is an exception of `_bucket_intervals`.
  unfoldable pub drawn_payload : Parsed W → Option (Columns W) → Option (Payload W R)
  drawn_payload p none = none
  drawn_payload p (some c) = some (record {
    columns = record {
      vrms = map (λ v. fl.round v 2) c.vrms;
      mins = map (λ v. fl.round v 2) c.mins;
      maxs = map (λ v. fl.round v 2) c.maxs;
      timestamps = c.timestamps;
    };
    rate = p.sample_rate;
    fmt = some p.fmt;
    rollup_10min = rollup;
    window_seconds =
        fl.round (window_seconds_of c.timestamps (length p.columns.vrms) p.sample_rate) 1;
    source_points = length p.columns.vrms;
    display_points = length c.vrms;
  })

  -- What follows the `try` block.
  unfoldable pub present : Option ℤ → Option (Parsed W) → Option (Payload W R)
  present max_display_points none = some empty
  present max_display_points (some p) =
      let source_points = length p.columns.vrms in
      let display_cap : ℤ = elim max_display_points [ none ↦ pos source_points | some m ↦ m ] in
      let drawn = drawn_payload p (bucket_intervals p.columns display_cap) in
      if is_empty p.columns.vrms then some empty else drawn

  -- The answer is `none` only where `_bucket_intervals` raises.
  unfoldable pub get_decimated_data :
      W → ℤ → Option ℤ → Option ℤ → Option (List ℕ) → Run (Option (Payload W R))
  get_decimated_data scale max_points window_minutes max_display_points none = done (some empty)
  get_decimated_data scale max_points window_minutes max_display_points (some f) =
      let size = length f in
      let rate_hint = rate_or_default (peek_rate_from_file f size) in
      let answer =
        read_tail_intervals scale f size (source_cap_of max_points window_minutes rate_hint)
        >>= λ parsed. done (present max_display_points parsed) in
      if size == 0 then done (some empty) else answer
