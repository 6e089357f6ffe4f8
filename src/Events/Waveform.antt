-- ===== src/Events/Waveform.antt =====
-- event_service.py: `get_event_data` on an index that the datalogger wrote.
use pika_pika.Prelude.{
  ℕ, zero, suc, ◌+◌, ◌*◌, ◌-◌, ◌/◌, ◌≤◌, ◌<◌, ◌≡◌, ◌≢◌, refl, sym, ap, ◌∙◌, true, false, List, [],
  ◌∷◌, ◌++◌, append_assoc, arith, length, length-append, length-map, length-take, length-drop, drop,
  All, All-middle, subst, some, none, Option, if◌then◌else◌, ltb, ◌==◌,
}
use pika_pika.Float.{Float}
use pika_pika.Binary.{read, shorts}
use pika_pika.Binary.Encode.{read-append}
use pika_pika.Events.{
  Settings, Event, EventData, v3, unpack_fields, event_of, reply, event_data, find_loop,
  get_event_data,
}
use pika_pika.Events.Index.{
  Row, IsSound, row_bytes, index_file, length-row_bytes, length-index_file, index_file-append,
  event_of_row, unpack_fields-row_bytes, unpack_record-row_bytes,
}
use pika_pika.Events.Listing.{detect_index_format-v3}

-- The row behind some others.
read_row :
    (xs : List Row) (r : Row) (ys : List Row) (at : ℕ)
    → at ≡ length xs * 51
    → read (index_file (xs ++ (r ∷ ys))) at 51 ≡ row_bytes r
unfolding index_file
read_row xs r ys at e =
    ap (λ f. read f at 51) (index_file-append xs (r ∷ ys))
    ∙ read-append (index_file xs) (row_bytes r) (index_file ys) at 51
        (e ∙ sym (length-index_file xs)) (sym (length-row_bytes r))

split_at :
    (m : ℕ) (ys : List Row)
    → m < length ys
    → (y : Row) × (front : List Row) × (back : List Row) × (ys ≡ front ++ (y ∷ back))
      × (length front ≡ m)
split_at m [] h = absurd (omega arith)
split_at zero (y ∷ ys) h = (y, [], ys, refl, refl)
split_at (suc m) (x ∷ ys) h =
    let (y, front, back, e, n) = split_at m ys (omega arith) in
    (y, x ∷ front, back, ap (x ∷◌) e, ap suc n)

-- Reading as many samples as the bytes allow.
length-shorts : (m : ℕ) (bs : List ℕ) → length bs ≡ m * 2 → length (shorts bs) ≡ m
unfolding shorts
length-shorts zero [] h = refl
length-shorts zero (b ∷ bs) h = absurd (omega arith)
length-shorts (suc m) [] h = absurd (omega arith)
length-shorts (suc m) (a ∷ []) h = absurd (omega arith)
length-shorts (suc m) (a ∷ b ∷ bs) h = ap suc (length-shorts m bs (omega arith))

length-read : (f : List ℕ) (at n : ℕ) → at + n ≤ length f → length (read f at n) ≡ n
unfolding read
length-read f at n h = omega (arith, length-take n (drop at f), length-drop at f)

-- Where the waveform of a row ends: where the next row's begins, or at the end of events.bin.
abbrev pub stop_of : List ℕ → List Row → ℕ
stop_of df [] = length df
stop_of df (y ∷ ys) = y.file_offset

module _ {W : Type 0} ⦃fl : Float W⦄ (s : Settings W) (df : List ℕ) where
  -- A waveform that lies in events.bin is returned with the event.
  event_data-stop :
      (meta : Event W) (next : Option ℕ) (stop : ℕ)
      → (elim next as (λ o. ℕ) [ none ↦ length df | some k ↦ k ]) ≡ stop
      → meta.file_offset ≤ stop
      → stop ≤ length df
      → (d : EventData W) × (event_data s (some df) df meta next ≡ some d)
        × (d.event ≡ meta)
        × (length d.samples ≡ (stop - meta.file_offset) / 2)
  unfolding event_data reply
  event_data-stop meta next stop e low high =
      let cap_samps = (stop - meta.file_offset) / 2 in
      let raw = read df meta.file_offset (cap_samps * 2) in
      let size : length raw ≡ cap_samps * 2 =
        length-read df meta.file_offset (cap_samps * 2) (omega arith) in
      let forward : ltb stop meta.file_offset ≡ false = ground arith in
      let enough : ltb (length raw) (cap_samps * 2) ≡ false = ground arith in
      (
        reply s (some df) meta raw,
        rw (e, forward, enough) refl,
        refl,
        length-map _ (shorts raw) ∙ length-shorts cap_samps raw size,
      )

  -- The search goes down past the rows with other numbers.
  find_loop_past :
      (xs : List Row) (r : Row) (ys : List Row) (event_id count m : ℕ)
      → All IsSound (xs ++ (r ∷ ys))
      → All (λ y. y.event_id ≢ event_id) ys
      → m ≤ length ys
      → find_loop s
          (some df)
          v3
          (index_file (xs ++ (r ∷ ys)))
          df
          event_id
          count
          (suc (length xs) + m)
        ≡ find_loop s (some df) v3 (index_file (xs ++ (r ∷ ys))) df event_id count (suc (length xs))
  unfolding find_loop event_of
  find_loop_past xs r ys event_id count zero sound other h =
      let e : suc (length xs) + zero ≡ suc (length xs) = omega arith in
      ap (find_loop s (some df) v3 (index_file (xs ++ (r ∷ ys))) df event_id count) e
  find_loop_past xs r ys event_id count (suc m) sound other h =
      let (y, front, back, e, size) = split_at m ys (omega arith) in
      let i = suc (length xs) + m in
      let shape : xs ++ (r ∷ ys) ≡ (xs ++ (r ∷ front)) ++ (y ∷ back) =
        ap (λ t. xs ++ (r ∷ t)) e ∙ sym (append_assoc xs (r ∷ front) (y ∷ back)) in
      let got : read (index_file (xs ++ (r ∷ ys))) (i * 51) 51 ≡ row_bytes y =
        ap (λ t. read (index_file t) (i * 51) 51) shape
        ∙ read_row (xs ++ (r ∷ front)) y back (i * 51)
            (omega (arith, size, length-append xs (r ∷ front))) in
      let ok : IsSound y =
        All-middle IsSound (xs ++ (r ∷ front)) y back (subst (All IsSound) shape sound) in
      let differs : y.event_id == event_id ≡ false =
        (let d =
            All-middle (λ z. z.event_id ≢ event_id) front y back
              (subst (All (λ z. z.event_id ≢ event_id)) e other) in
          ground (arith, d)) in
      let step : suc (length xs) + suc m ≡ suc i = omega arith in
      ap (find_loop s (some df) v3 (index_file (xs ++ (r ∷ ys))) df event_id count) step
      ∙ rw (got, length-row_bytes y, unpack_record-row_bytes s (some df) y ok, differs)
          (find_loop_past xs r ys event_id count m sound other (omega arith))

  -- The offset that the search takes for the end of a row's waveform.
  next_of :
      (xs : List Row) (r : Row) (ys : List Row)
      → All IsSound (xs ++ (r ∷ ys))
      → let i = length xs in
        let next_offset =
          if ltb i (length (xs ++ (r ∷ ys)) - 1)
          then some
              (unpack_fields {W = W} v3
                (read (index_file (xs ++ (r ∷ ys))) ((i + 1) * 51) 51)).file_off
          else none in
        (elim next_offset as (λ o. ℕ) [ none ↦ length df | some k ↦ k ]) ≡ stop_of df ys
  next_of xs r [] sound =
      let last : ltb (length xs) (length (xs ++ (r ∷ [])) - 1) ≡ false =
        ground (arith, length-append xs (r ∷ [])) in
      rw last refl
  next_of xs r (y ∷ ys) sound =
      let shape = append_assoc xs (r ∷ []) (y ∷ ys) in
      let more : ltb (length xs) (length (xs ++ (r ∷ y ∷ ys)) - 1) ≡ true =
        ground (arith, length-append xs (r ∷ y ∷ ys)) in
      let got : read (index_file (xs ++ (r ∷ y ∷ ys))) ((length xs + 1) * 51) 51 ≡ row_bytes y =
        ap (λ t. read (index_file t) ((length xs + 1) * 51) 51) (sym shape)
        ∙ read_row (xs ++ (r ∷ [])) y ys ((length xs + 1) * 51)
            (omega (arith, length-append xs (r ∷ []))) in
      let ok : IsSound y =
        All-middle IsSound (xs ++ (r ∷ [])) y ys (subst (All IsSound) (sym shape) sound) in
      rw (more, got, unpack_fields-row_bytes {W = W} y ok) refl

  -- Let the index hold rows that fit their fields, and let no row after `r` have its number. If the
  -- waveform of `r` ends no earlier than it begins, and lies in events.bin, then `get_event_data`
  -- finds the event of `r`, with as many samples as fit into the bytes up to the next row's waveform,
  -- or up to the end of the file after the last row.
  pub get_event_data-written :
      (xs : List Row) (r : Row) (ys : List Row)
      → All IsSound (xs ++ (r ∷ ys))
      → All (λ y. y.event_id ≢ r.event_id) ys
      → r.file_offset ≤ stop_of df ys
      → stop_of df ys ≤ length df
      → (d : EventData W) × (get_event_data s
            (some df)
            (some (index_file (xs ++ (r ∷ ys))))
            r.event_id
          ≡ some d)
        × (d.event ≡ event_of_row s (some df) r)
        × (length d.samples ≡ (stop_of df ys - r.file_offset) / 2)
  unfolding get_event_data find_loop event_of
  get_event_data-written xs r ys sound other low high =
      let rows = xs ++ (r ∷ ys) in
      let n = length rows in
      let count : n * 51 / 51 ≡ n = omega arith in
      let size : n ≡ suc (length xs) + length ys = omega (arith, length-append xs (r ∷ ys)) in
      let ok : IsSound r = All-middle IsSound xs r ys sound in
      let here : r.event_id == r.event_id ≡ true = ground arith in
      let next_offset =
        if ltb (length xs) (n - 1)
        then some
            (unpack_fields {W = W} v3 (read (index_file rows) ((length xs + 1) * 51) 51)).file_off
        else none in
      let (d, e, meta, samples) =
        event_data-stop (event_of_row s (some df) r) next_offset (stop_of df ys)
          (next_of xs r ys sound) low high in
      let found : find_loop s (some df) v3 (index_file rows) df r.event_id n (suc (length xs))
          ≡ some d =
        rw
          (
            read_row xs r ys (length xs * 51) refl,
            length-row_bytes r,
            unpack_record-row_bytes s (some df) r ok,
            here,
          )
          e in
      (
        d,
        rw (length-index_file rows, detect_index_format-v3 n, count)
            (ap (find_loop s (some df) v3 (index_file rows) df r.event_id n) size
              ∙ find_loop_past xs r ys r.event_id n (length ys) sound other (omega arith)
              ∙ found),
        meta,
        samples,
      )
