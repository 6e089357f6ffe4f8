-- ===== src/Events/Listing.antt =====
-- event_service.py: `_detect_index_format`, and `get_recent_events` on an index that the datalogger
-- wrote.
use pika_pika.Prelude.{
  ℕ, ◌*◌, ◌-◌, ◌/◌, ◌%◌, ◌≤◌, ◌≡◌, refl, sym, ap, ◌∙◌, min, List, [], ◌++◌, append-nil, map,
  reverse, arith, length, length-drop, take, drop, take-append-drop, length-take, All, All-drop,
  some, Option, if◌then◌else◌, ◌==◌,
}
use pika_pika.Prelude.Int.{ℤ, pos_part}
use pika_pika.Float.{Float}
use pika_pika.Events.{
  v2, v3, record_size, detect_index_format, Settings, read_loop, get_recent_events,
}
use pika_pika.Events.Index.{
  Row, IsSound, index_file, length-index_file, index_file-append, event_of_row,
  read_loop-index_file,
}

pub detect_index_format-v3 : (n : ℕ) → detect_index_format (n * 51) ≡ v3
unfolding detect_index_format
detect_index_format-v3 n = ground arith

-- An index of v3 records is read as v3. One of v2 records is read as v2, unless the number of its
-- records is a multiple of 51: then it is read as v3.
pub detect_index_format-records :
    (n : ℕ)
    → (detect_index_format (n * record_size v3) ≡ v3)
      × (detect_index_format (n * record_size v2) ≡ (if n % 51 == 0 then v3 else v2))
unfolding detect_index_format
detect_index_format-records n = ground arith

module _ {W : Type 0} ⦃fl : Float W⦄ (s : Settings W) (waveforms : Option (List ℕ)) where
  -- The last `k` rows, read from their place.
  pub read_loop-last :
      (rows : List Row) (k : ℕ)
      → All IsSound rows
      → k ≤ length rows
      → read_loop s waveforms v3 (index_file rows) k ((length rows - k) * 51)
        ≡ map (event_of_row s waveforms) (drop (length rows - k) rows)
  read_loop-last rows k sound h =
      let n = length rows - k in
      let front = take n rows in
      let back = drop n rows in
      let whole : index_file rows ≡ index_file front ++ (index_file back ++ []) =
        ap index_file (sym (take-append-drop n rows))
        ∙ index_file-append front back
        ∙ ap (index_file front ++◌) (sym (append-nil (index_file back))) in
      let place : n * 51 ≡ length (index_file front) =
        omega (arith, length-index_file front, length-take n rows) in
      let count : k ≡ length back = omega (arith, length-drop n rows) in
      ap (λ f. read_loop s waveforms v3 f k (n * 51)) whole
      ∙ ap (λ m. read_loop s waveforms v3 (index_file front ++ (index_file back ++ [])) m (n * 51))
          count
      ∙ read_loop-index_file s waveforms (index_file front) [] back (n * 51)
          (All-drop IsSound n rows sound) place

  -- On an index that holds the rows that were written, each of which fits its fields,
  -- `get_recent_events` returns the events of the last `limit` rows, of all if there are fewer, and
  -- of none if the limit is not positive; the newest comes first.
  pub get_recent_events-written :
      (rows : List Row) (limit : ℤ)
      → All IsSound rows
      → get_recent_events s waveforms (some (index_file rows)) limit
        ≡ reverse (map (event_of_row s waveforms) (drop (length rows - pos_part limit) rows))
  unfolding get_recent_events
  get_recent_events-written rows limit sound =
      let n = length rows in
      let k = min (pos_part limit) n in
      let count : n * 51 / 51 ≡ n = omega arith in
      let cut : n - k ≡ n - pos_part limit = omega arith in
      rw
        (
          length-index_file rows,
          detect_index_format-v3 n,
          count,
          read_loop-last rows k sound (omega arith),
          cut,
        )
        refl
