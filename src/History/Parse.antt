-- ===== src/History/Parse.antt =====
-- history_service.py: the sequential readers of a trend file. The file is the bytes that it held
-- when it was opened; `size` is what `f.tell()` gave at its end.
pub mod Total
pub mod Agree
pub mod Written
pub mod Tail
use pika_pika.Prelude.{
  ℕ, zero, suc, ◌+◌, ◌*◌, ◌/◌, ◌%◌, ◌-◌, min, Bool, true, false, not, Option, none, some, List, [],
  ◌∷◌, ◌++◌, map, ltb, leb, ◌==◌, if◌then◌else◌, length, take, drop, last_items, Run, done,
  out_of_fuel, ◌>>=◌,
}
use pika_pika.Prelude.Int.{ℤ}
use pika_pika.Float.{Float}
use pika_pika.Binary.{read, shorts}
use pika_pika.History.Format.{
  header_size, typical_chunk_intervals, typical_iec_chunk_bytes, Header, unpack_header,
  valid_header, total_values, chunk_bytes, vps_iec_vrms, Layout, legacy, iec_vrms, layout, Interval,
  Columns, no_columns, interval_at, parse_chunk_payload,
}

-- What the file holds at an offset: too little, an implausible header, or a chunk and what follows.
pub data Found : Type 0 where
  too_short bad_header : Found
  chunk : Header → List ℤ → ℕ → Found

-- One round of a `while f.tell() + HEADER_SIZE <= file_size` loop, up to the use of the payload.
unfoldable pub next_chunk : List ℕ → ℕ → ℕ → Found
next_chunk f size at =
    let hdr_data = read f at header_size in
    let h = unpack_header hdr_data in
    let raw_bytes = read f (at + header_size) (total_values h * 2) in
    if leb (at + header_size) size
    then (if ltb (length hdr_data) header_size
        then too_short
        else if not (valid_header h)
        then bad_header
        else if ltb (length raw_bytes) (total_values h * 2)
        then too_short
        else chunk h (shorts raw_bytes) (at + header_size + total_values h * 2))
    else too_short

-- What the readers return: the columns, the last chunk's rate, and its layout.
pub record Parsed (W : Type 0) : Type 0 where
  pub columns : Columns W
  pub sample_rate : ℕ
  pub fmt : Layout

pub record Walked (W : Type 0) : Type 0 where
  pub rows : List (Interval W)
  pub sample_rate : ℕ
  pub fmt : Layout

-- `map(list, zip(*rows))`.
abbrev pub columns_of : {W : Type 0} → List (Interval W) → Columns W
columns_of rows = record {
  vrms = map (λ r. r.vrms) rows;
  mins = map (λ r. r.low) rows;
  maxs = map (λ r. r.high) rows;
  timestamps = map (λ r. r.stamp) rows;
}

abbrev pub last_columns : {W : Type 0} → ℕ → Columns W → Columns W
last_columns source_cap c = record {
  vrms = last_items source_cap c.vrms;
  mins = last_items source_cap c.mins;
  maxs = last_items source_cap c.maxs;
  timestamps = last_items source_cap c.timestamps;
}

-- `not vrms`.
abbrev pub is_empty {ℓ} : {A : Type ℓ} → List A → Bool
is_empty [] = true
is_empty (x ∷ xs) = false

-- `math.ceil(source_cap / 10)`, exact for every source_cap below 2 ^ 53.
abbrev pub needed_bytes : ℕ → ℕ
needed_bytes source_cap =
    ((source_cap + typical_chunk_intervals - 1) / typical_chunk_intervals + 2)
    * typical_iec_chunk_bytes

-- What follows the loop of `_parse_from`.
unfoldable pub finish : {W : Type 0} → ℕ → Option (Parsed W) → Option (Parsed W)
finish source_cap none = none
finish source_cap (some p) =
    if is_empty p.columns.vrms
    then none
    else if ltb source_cap (length p.columns.vrms)
    then some (record p { columns = last_columns source_cap p.columns })
    else some p

module _ {W : Type 0} where
  -- `deque(maxlen=source_cap)`: an append to a full deque drops its first item.
  unfoldable pub append_bounded : ℕ → List (Interval W) → Interval W → List (Interval W)
  append_bounded source_cap rows r =
      let grown = rows ++ (r ∷ []) in drop (length grown - source_cap) grown

  -- `if not rows: return None`, and the columns of the rows.
  unfoldable pub walked : Walked W → Option (Parsed W)
  walked w =
      if is_empty w.rows
      then none
      else some (record { columns = columns_of w.rows; sample_rate = w.sample_rate; fmt = w.fmt })

  -- `parsed and parsed[0]`.
  abbrev pub has_rows : Option (Parsed W) → Bool
  has_rows none = false
  has_rows (some p) = not (is_empty p.columns.vrms)

  -- `if parsed and parsed[0]: return parsed`, and otherwise what comes next.
  abbrev pub or_else : Option (Parsed W) → Run (Option (Parsed W)) → Run (Option (Parsed W))
  or_else parsed next = if has_rows parsed then done parsed else next

-- `_walk_all` sets the format at a chunk of the IEC layout, and never back.
unfoldable pub walked_layout : Header → Layout → Layout
walked_layout h fmt = if h.vps == vps_iec_vrms then iec_vrms else fmt

-- The `for i in range(count)` of `_walk_all`, with `left` rounds to go.
module _ {W : Type 0} ⦃fl : Float W⦄ (scale : W) (source_cap : ℕ) (h : Header) (zs : List ℤ) where
  unfoldable pub walk_payload : ℕ → ℕ → List (Interval W) → List (Interval W)
  walk_payload zero i rows = rows
  walk_payload (suc left) i rows =
      walk_payload left (i + 1) (append_bounded source_cap rows (interval_at scale h zs i))

module _ {W : Type 0} ⦃fl : Float W⦄ (scale : W) (f : List ℕ) (size : ℕ) where
  -- `none` is the return at an implausible header.
  unfoldable pub parse_loop : ℕ → ℕ → Parsed W → Run (Option (Parsed W))
  parse_loop zero at p = out_of_fuel
  parse_loop (suc fuel) at p = elim (next_chunk f size at) [
    | too_short ↦ done (some p)
    | bad_header ↦ done none
    | chunk h zs next ↦ parse_loop fuel next (record {
      columns = parse_chunk_payload scale h zs p.columns;
      sample_rate = h.rate;
      fmt = layout h;
    })
  ]

  unfoldable pub parse_from : ℕ → ℕ → Run (Option (Parsed W))
  unfolding parse_loop finish
  parse_from start source_cap =
      parse_loop (suc size) start (record { columns = no_columns; sample_rate = 0; fmt = legacy })
      >>= λ p. done (finish source_cap p)

  unfoldable pub walk_loop : ℕ → ℕ → ℕ → Walked W → Run (Walked W)
  walk_loop source_cap zero at w = out_of_fuel
  walk_loop source_cap (suc fuel) at w = elim (next_chunk f size at) [
    | too_short ↦ done w
    | bad_header ↦ done w
    | chunk h zs next ↦ walk_loop source_cap fuel next (record {
      rows = walk_payload scale source_cap h zs h.count 0 w.rows;
      sample_rate = h.rate;
      fmt = walked_layout h w.fmt;
    })
  ]

  unfoldable pub walk_all : ℕ → Run (Option (Parsed W))
  unfolding walk_loop walked
  walk_all source_cap =
      walk_loop source_cap (suc size) 0 (record { rows = []; sample_rate = 0; fmt = legacy })
      >>= λ w. done (walked w)

  -- `for offset in range(…)` with `left` rounds to go; `probe` is `probe[offset:]`.
  unfoldable pub scan_loop : ℕ → ℕ → ℕ → List ℕ → Run (Option (Parsed W))
  scan_loop source_cap zero at probe = done none
  scan_loop source_cap (suc left) at probe =
      let h = unpack_header (take header_size probe) in
      let continue = scan_loop source_cap left (at + 1) (drop 1 probe) in
      let try = parse_from at source_cap >>= λ parsed. or_else parsed continue in
      if not (valid_header h)
      then continue
      else if ltb size (at + chunk_bytes h.count h.channels h.vps)
      then continue
      else try

  unfoldable pub scan_and_parse : ℕ → ℕ → Run (Option (Parsed W))
  unfolding scan_loop
  scan_and_parse start source_cap =
      let window_end = min size (start + typical_iec_chunk_bytes + header_size) in
      let probe = read f start (window_end - start) in
      scan_loop source_cap (length probe + 1 - header_size) start probe

  unfoldable pub read_tail_intervals : ℕ → Run (Option (Parsed W))
  read_tail_intervals source_cap =
      let start = size - needed_bytes source_cap in
      let aligned = start - start % typical_iec_chunk_bytes in
      let scan_from = λ (from : ℕ).
        scan_and_parse from source_cap >>= λ scanned. or_else scanned (walk_all source_cap) in
      if size % typical_iec_chunk_bytes == 0
      then (parse_from aligned source_cap >>= λ parsed. or_else parsed (scan_from aligned))
      else scan_from start
