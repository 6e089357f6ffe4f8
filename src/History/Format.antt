-- ===== src/History/Format.antt =====
-- history_service.py: the chunk header, its plausibility test, and the payload's two layouts.
use pika_pika.Prelude.{
  ℕ, zero, suc, ◌+◌, ◌*◌, ◌/◌, ◌-◌, Bool, true, false, not, ◌&&◌, ◌||◌, List, [], ◌∷◌, ◌++◌, ltb,
  ◌==◌, if◌then◌else◌, take, drop, get_or,
}
use pika_pika.Prelude.Int.{ℤ, pos}
use pika_pika.Float.{Float, of_nat}
use pika_pika.Binary.{unsigned}

abbrev pub header_size : ℕ
header_size = 24

abbrev pub vps_legacy_minmax : ℕ
vps_legacy_minmax = 2

abbrev pub vps_iec_vrms : ℕ
vps_iec_vrms = 3

abbrev pub typical_chunk_intervals : ℕ
typical_chunk_intervals = 10

abbrev pub typical_iec_chunk_bytes : ℕ
typical_iec_chunk_bytes = 84

abbrev pub default_iec_rate_hz : ℕ
default_iec_rate_hz = 5

-- `ts, rate, count, channels, vps` of `struct.unpack("<QIIII", …)`.
pub record Header : Type 0 where
  pub ts : ℕ
  pub rate : ℕ
  pub count : ℕ
  pub channels : ℕ
  pub vps : ℕ

unfoldable pub unpack_header : List ℕ → Header
unpack_header bytes = record {
  ts = unsigned (take 8 bytes);
  rate = unsigned (take 4 (drop 8 bytes));
  count = unsigned (take 4 (drop 12 bytes));
  channels = unsigned (take 4 (drop 16 bytes));
  vps = unsigned (take 4 (drop 20 bytes));
}

unfoldable pub valid_header : Header → Bool
valid_header h =
    if (h.count == 0) || ltb 100_000 h.count
    then false
    else if (h.channels == 0) || ltb 8 h.channels
    then false
    else if not ((h.vps == vps_legacy_minmax) || (h.vps == vps_iec_vrms))
    then false
    else if (h.rate == 0) || ltb 200_000 h.rate
    then false
    else if not (h.ts == 0) && ltb h.ts 1_000_000_000
    then false
    else true

-- `count * channels * vps`.
abbrev pub total_values : Header → ℕ
total_values h = h.count * h.channels * h.vps

unfoldable pub chunk_bytes : ℕ → ℕ → ℕ → ℕ
chunk_bytes count channels vps = header_size + count * channels * vps * 2

-- `int(1_000_000_000 / rate) if rate else 0`: the quotient of doubles truncates to the floor, since
-- at a valid rate no other number of the form n / rate lies within a double's error of an integer.
unfoldable pub bucket_ns : ℕ → ℕ
bucket_ns rate = if rate == 0 then 0 else 1_000_000_000 / rate

-- `ts + max(count - 1, 0) * bucket_ns`, the time of a chunk's last interval.
unfoldable pub chunk_end : Header → ℕ
chunk_end h = h.ts + (h.count - 1) * bucket_ns h.rate

pub data Layout : Type 0 where
  legacy iec_vrms : Layout

unfoldable pub layout : Header → Layout
layout h = if h.vps == vps_iec_vrms then iec_vrms else legacy

-- One interval of the trend: its Vrms, the waveform envelope, and its time.
pub record Interval (W : Type 0) : Type 0 where
  pub vrms : W
  pub low : W
  pub high : W
  pub stamp : ℕ

-- The parallel lists `vrms, mins, maxs, timestamps`.
pub record Columns (W : Type 0) : Type 0 where
  pub vrms : List W
  pub mins : List W
  pub maxs : List W
  pub timestamps : List ℕ

abbrev pub no_columns : {W : Type 0} → Columns W
no_columns = record { vrms = []; mins = []; maxs = []; timestamps = [] }

-- One `append` to each of the lists.
abbrev pub push : {W : Type 0} → Columns W → Interval W → Columns W
push c r = record {
  vrms = c.vrms ++ (r.vrms ∷ []);
  mins = c.mins ++ (r.low ∷ []);
  maxs = c.maxs ++ (r.high ∷ []);
  timestamps = c.timestamps ++ (r.stamp ∷ []);
}

-- A value of the payload. Every index that is read lies inside it.
infixl 90 ◌!◌
abbrev pub ◌!◌ : List ℤ → ℕ → ℤ
zs ! i = get_or zs i (pos 0)

module _ {W : Type 0} ⦃fl : Float W⦄ where
  -- Interval `i` of a chunk: centivolts in the IEC layout, ADC counts in the legacy one.
  unfoldable pub iec_interval : List ℤ → ℕ → ℕ → Interval W
  iec_interval zs base stamp = record {
    vrms = fl.div (fl.of_int (zs ! base)) (of_nat 100);
    low = fl.div (fl.of_int (zs ! (base + 1))) (of_nat 100);
    high = fl.div (fl.of_int (zs ! (base + 2))) (of_nat 100);
    stamp = stamp;
  }

  unfoldable pub legacy_interval : W → List ℤ → ℕ → ℕ → Interval W
  legacy_interval scale zs base stamp =
      let mn = fl.mul (fl.of_int (zs ! base)) scale in
      let mx = fl.mul (fl.of_int (zs ! (base + 1))) scale in
      record {
        vrms = fl.round (fl.div (fl.abs mx) (fl.sqrt (of_nat 2))) 2;
        low = fl.round mn 2;
        high = fl.round mx 2;
        stamp = stamp;
      }

  unfoldable pub interval_at : W → Header → List ℤ → ℕ → Interval W
  unfolding iec_interval legacy_interval
  interval_at scale h zs i =
      let stamp = h.ts + i * bucket_ns h.rate in
      if h.vps == vps_iec_vrms
      then iec_interval zs (i * h.vps) stamp
      else legacy_interval scale zs (i * h.vps) stamp

  -- `for i in range(count)`, with `left` rounds to go; the format that is returned is `layout h`.
  unfoldable pub payload_loop : W → Header → List ℤ → ℕ → ℕ → Columns W → Columns W
  payload_loop scale h zs zero i c = c
  payload_loop scale h zs (suc left) i c =
      payload_loop scale h zs left (i + 1) (push c (interval_at scale h zs i))

  unfoldable pub parse_chunk_payload : W → Header → List ℤ → Columns W → Columns W
  unfolding payload_loop
  parse_chunk_payload scale h zs c = payload_loop scale h zs h.count 0 c
