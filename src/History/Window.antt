-- ===== src/History/Window.antt =====
-- history_service.py: the intervals of one window of time, from both trend files.
pub mod Order
pub mod Range
pub mod Times
pub mod Exact
pub mod Whole
pub mod Rotation
use pika_pika.Prelude.{
  ℕ, zero, suc, ◌+◌, ◌*◌, ◌-◌, Bool, true, false, not, ◌&&◌, ◌||◌, Option, none, some, List, [],
  ◌∷◌, ◌++◌, map, ltb, leb, ◌==◌, if◌then◌else◌, length, keep, Run, done, out_of_fuel, ◌>>=◌,
}
use pika_pika.Prelude.Int.{ℤ, pos, ltb_ℤ, leb_ℤ}
use pika_pika.Float.{Float}
use pika_pika.Binary.{read, shorts}
use pika_pika.History.Format.{
  header_size, Header, unpack_header, total_values, chunk_end, Interval, Columns, no_columns,
  parse_chunk_payload,
}
use pika_pika.History.Parse.{columns_of}
use pika_pika.History.Seek.{whole_chunk, header_at, find_next_valid_chunk, seek_chunk_at_or_before}

-- `start_ns <= stamp <= end_ns`.
abbrev pub in_window : ℤ → ℤ → ℕ → Bool
in_window start_ns end_ns stamp = leb_ℤ start_ns (pos stamp) && leb_ℤ (pos stamp) end_ns

-- `zip(vrms, mins, maxs, timestamps)`, which ends with the shortest list.
unfoldable pub zip_columns : {W : Type 0} → List W → List W → List W → List ℕ → List (Interval W)
zip_columns (v ∷ vs) (a ∷ as') (b ∷ bs) (t ∷ ts) =
    record { vrms = v; low = a; high = b; stamp = t } ∷ zip_columns vs as' bs ts
zip_columns _ _ _ _ = []

-- One round of the loop of `_intervals_in_file`.
pub data Visit : Type 0 where
  damaged past : Visit
  earlier use_chunk : ℕ → Visit

unfoldable pub visit : List ℕ → ℕ → ℤ → ℤ → ℕ → Visit
visit f size start_ns end_ns at =
    let hdr_data = read f at header_size in
    let h = unpack_header hdr_data in
    let nbytes = total_values h * 2 in
    if ltb (length hdr_data) header_size
    then past
    else if not (whole_chunk f size at)
    then damaged
    else if ltb_ℤ (pos (chunk_end h)) start_ns
    then earlier (at + (header_size + nbytes))
    else if ltb_ℤ end_ns (pos h.ts)
    then past
    else if ltb (length (read f (at + header_size) nbytes)) nbytes
    then past
    else use_chunk (at + (header_size + nbytes))

module _ {W : Type 0} ⦃fl : Float W⦄ (scale : W) (f : List ℕ) (size : ℕ) (start_ns end_ns : ℤ) where
  -- The rows of the chunk at an offset that lie in the window.
  unfoldable pub window_rows : ℕ → List (Interval W)
  unfolding zip_columns
  window_rows at =
      let h = header_at f at in
      let zs = shorts (read f (at + header_size) (total_values h * 2)) in
      let c = parse_chunk_payload scale h zs no_columns in
      keep (λ r. in_window start_ns end_ns r.stamp) (zip_columns c.vrms c.mins c.maxs c.timestamps)

  unfoldable pub window_loop : ℕ → ℕ → List (Interval W) → Run (List (Interval W))
  window_loop zero at rows = out_of_fuel
  window_loop (suc fuel) at rows =
      let resync = find_next_valid_chunk f size (at + 1) >>= λ nxt. elim nxt [
        | none ↦ done rows
        | some next ↦ window_loop fuel next rows
      ] in
      let round : Run (List (Interval W)) = elim (visit f size start_ns end_ns at) [
        | damaged ↦ resync
        | past ↦ done rows
        | earlier next ↦ window_loop fuel next rows
        | use_chunk next ↦ window_loop fuel next (rows ++ window_rows at)
      ] in
      if leb (at + header_size) size then round else done rows

  unfoldable pub intervals_in_open_file : Run (List (Interval W))
  intervals_in_open_file =
      let scan = seek_chunk_at_or_before f size start_ns >>= λ at. window_loop (suc size) at [] in
      if ltb size header_size then done [] else scan

module _ {W : Type 0} ⦃fl : Float W⦄ (scale : W) (start_ns end_ns : ℤ) where
  -- `none` is a file that does not exist.
  unfoldable pub intervals_in_file : Option (List ℕ) → Run (List (Interval W))
  intervals_in_file none = done []
  intervals_in_file (some f) = intervals_in_open_file scale f (length f) start_ns end_ns

-- `stamp in seen`.
unfoldable pub contains : ℕ → List ℕ → Bool
contains t [] = false
contains t (s ∷ seen) = (s == t) || contains t seen

-- `rows.sort(key=lambda row: row[3])`, which keeps the order of equal keys: an insertion sort.
module _ {W : Type 0} where
  unfoldable pub insert_row : Interval W → List (Interval W) → List (Interval W)
  insert_row r [] = r ∷ []
  insert_row r (s ∷ rows) = if leb r.stamp s.stamp then r ∷ s ∷ rows else s ∷ insert_row r rows

  unfoldable pub sort_rows : List (Interval W) → List (Interval W)
  unfolding insert_row
  sort_rows [] = []
  sort_rows (r ∷ rows) = insert_row r (sort_rows rows)

  unfoldable pub dedupe : List ℕ → List (Interval W) → List (Interval W)
  unfolding contains
  dedupe seen [] = []
  dedupe seen (r ∷ rows) = elim (contains r.stamp seen) [
    | true ↦ dedupe seen rows
    | false ↦ r ∷ dedupe (r.stamp ∷ seen) rows
  ]

module _ {W : Type 0} ⦃fl : Float W⦄ where
  -- The payload rounds each number to two digits.
  unfoldable pub interval_payload : List (Interval W) → Columns W
  interval_payload rows =
      let c = columns_of rows in
      record {
        vrms = map (λ v. fl.round v 2) c.vrms;
        mins = map (λ v. fl.round v 2) c.mins;
        maxs = map (λ v. fl.round v 2) c.maxs;
        timestamps = c.timestamps;
      }

  -- `old` is decimated.bin.old and `new` is decimated.bin.
  unfoldable pub intervals_between : W → Option (List ℕ) → Option (List ℕ) → ℤ → ℤ → Run (Columns W)
  intervals_between scale old new start_ns end_ns =
      let search = intervals_in_file scale start_ns end_ns old >>= λ first.
      intervals_in_file scale start_ns end_ns new >>= λ second.
      done (interval_payload (dedupe [] (sort_rows (first ++ second)))) in
      if ltb_ℤ end_ns start_ns then done (interval_payload []) else search
