-- ===== src/History/Display.antt =====
-- history_service.py: `_bucket_intervals`, the trend as it is drawn.
pub mod Groups
pub mod Envelope
pub mod Limit
mod Examples
use pika_pika.Prelude.{
  ℕ, zero, suc, ◌+◌, ◌*◌, ◌-◌, ◌/◌, min, Bool, true, false, not, ◌||◌, ◌&&◌, Option, none, some,
  List, [], ◌∷◌, map, ltb, leb, ◌==◌, if◌then◌else◌, length, take, drop, get_elem?, Run, done,
  ◌>>=◌,
}
use pika_pika.Prelude.Int.{ℤ, pos, pos_part, leb_ℤ}
use pika_pika.Float.{Float, of_nat, min_from, max_from}
use pika_pika.Binary.{read}
use pika_pika.History.Format.{
  header_size, typical_iec_chunk_bytes, default_iec_rate_hz, Header, unpack_header, valid_header,
  chunk_bytes, Layout, Interval, Columns, no_columns,
}
use pika_pika.History.Parse.{columns_of, is_empty, Parsed, read_tail_intervals}

-- `xs[i:end]`.
abbrev pub slice {ℓ} : {A : Type ℓ} → ℕ → ℕ → List A → List A
slice i stop xs = take (stop - i) (drop i xs)

-- `min(xs)` and `max(xs)`, which raise on an empty list.
module _ {W : Type 0} ⦃fl : Float W⦄ where
  abbrev pub min_of : List W → Option W
  min_of [] = none
  min_of (x ∷ xs) = some (min_from x xs)

  abbrev pub max_of : List W → Option W
  max_of [] = none
  max_of (x ∷ xs) = some (max_from x xs)

-- The appends of one round; `none` is an exception.
abbrev pub bucket_row : {W : Type 0} → W → Option W → Option W → Option ℕ → Option (Interval W)
bucket_row v (some a) (some b) (some t) = some (record { vrms = v; low = a; high = b; stamp = t })
bucket_row v _ _ _ = none

abbrev pub cons_row :
    {W : Type 0} → Option (Interval W) → Option (List (Interval W)) → Option (List (Interval W))
cons_row (some r) (some rows) = some (r ∷ rows)
cons_row _ _ = none

abbrev pub as_columns : {W : Type 0} → Option (List (Interval W)) → Option (Columns W)
as_columns none = none
as_columns (some rows) = some (columns_of rows)

-- `math.ceil(n / d)`, exact for a list that memory can hold.
abbrev pub ceil_div : ℕ → ℕ → ℕ
ceil_div n d = (n + d - 1) / d

module _ {W : Type 0} ⦃fl : Float W⦄ (bucket n : ℕ) (c : Columns W) where
  unfoldable pub bucket_at : ℕ → Option (Interval W)
  bucket_at i =
      let stop = min (i + bucket) n in
      let chunk_v = slice i stop c.vrms in
      bucket_row (fl.div (fl.sum chunk_v) (of_nat (length chunk_v))) (min_of (slice i stop c.mins))
        (max_of (slice i stop c.maxs)) (get_elem? c.timestamps (stop - 1))

  -- `for i in range(0, n, bucket)`, with `left` rounds to go.
  unfoldable pub bucket_loop : ℕ → ℕ → Option (List (Interval W))
  bucket_loop zero i = some []
  bucket_loop (suc left) i = cons_row (bucket_at i) (bucket_loop left (i + bucket))

module _ {W : Type 0} ⦃fl : Float W⦄ where
  unfoldable pub bucket_intervals : Columns W → ℤ → Option (Columns W)
  bucket_intervals c display_points =
      let n = length c.vrms in
      let bucket = ceil_div n (pos_part display_points) in
      if leb_ℤ display_points (pos 0) || leb_ℤ (pos n) display_points
      then some c
      else as_columns (bucket_loop bucket n c (ceil_div n bucket) 0)
