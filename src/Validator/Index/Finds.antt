-- ===== src/Validator/Index/Finds.antt =====
-- validate_data.py and event_service.py: the waveforms of an index that the validator lets pass.
use pika_pika.Prelude.{
  ℕ, zero, suc, ◌+◌, ◌*◌, ◌-◌, ◌/◌, ◌%◌, ◌≤◌, ◌<◌, ◌≡◌, ◌≢◌, refl, sym, ap, ◌∙◌, Bool, true, false,
  some, List, [], ◌∷◌, ◌++◌, append_assoc, map, arith, not, leb, ◌==◌, length, length-append, take,
  drop, drop-append, All, done,
}
use pika_pika.Float.{Float}
use pika_pika.Binary.{read}
use pika_pika.Binary.Encode.{read-append}
use pika_pika.Events.{v3, IndexRecord, Settings, EventData, get_event_data}
use pika_pika.Events.Index.{
  Row, IsSound, row_bytes, index_file, length-row_bytes, length-index_file, fields_of, event_of_row,
  unpack_fields-row_bytes,
}
use pika_pika.Events.Waveform.{stop_of, get_event_data-written}
use pika_pika.Validator.{when, is_nil, is_nil-append, when-nil}
use pika_pika.Validator.Index.{
  Parsed, format_of_size, records_loop, size_not_a_multiple, time_problems, offset_problems,
  bound_problems, record_problems, verdict, validate_event_index,
}

All-behind : {A : Type 0} (P : A → Type 0) (xs ys : List A) → All P (xs ++ ys) → All P ys
All-behind P [] ys h = h
All-behind P (x ∷ xs) ys (h, hs) = All-behind P xs ys hs

-- Each offset is above the one before it.
abbrev Rising : ℕ → List Row → Type 0
Rising prev [] = Unit
Rising prev (r ∷ rows) = (prev < r.file_offset) × Rising r.file_offset rows

abbrev RisingAll : List Row → Type 0
RisingAll [] = Unit
RisingAll (r ∷ rows) = Rising r.file_offset rows

Rising-behind :
    (prev : ℕ) (xs : List Row) (r : Row) (ys : List Row)
    → Rising prev (xs ++ (r ∷ ys))
    → Rising r.file_offset ys
Rising-behind prev [] r ys (h, hs) = hs
Rising-behind prev (x ∷ xs) r ys (h, hs) = Rising-behind x.file_offset xs r ys hs

RisingAll-behind :
    (xs : List Row) (r : Row) (ys : List Row) → RisingAll (xs ++ (r ∷ ys)) → Rising r.file_offset ys
RisingAll-behind [] r ys h = h
RisingAll-behind (x ∷ xs) r ys h = Rising-behind x.file_offset xs r ys h

module _ {W : Type 0} ⦃fl : Float W⦄ where
  abbrev parsed : List Row → Parsed W
  parsed rows = record { records = map fields_of rows; problems = [] }

  records_loop-index_file :
      (before : List ℕ) (rows : List Row) (fuel i at : ℕ)
      → All IsSound rows
      → length rows < fuel
      → at ≡ length before
      → records_loop v3 (before ++ index_file rows) fuel i at ≡ done (parsed rows)
  unfolding records_loop index_file read
  records_loop-index_file before [] zero i at sound h e = absurd (omega arith)
  records_loop-index_file before [] (suc fuel) i at sound h e =
      let nothing : take 51 (drop at (before ++ [])) ≡ [] =
        ap (take 51) (drop-append at before [] e) in
      rw nothing refl
  records_loop-index_file before (r ∷ rows) zero i at sound h e = absurd (omega arith)
  records_loop-index_file before (r ∷ rows) (suc fuel) i at (sound, sounds) h e =
      let got : read (before ++ (row_bytes r ++ index_file rows)) at 51 ≡ row_bytes r =
        read-append before (row_bytes r) (index_file rows) at 51 e (sym (length-row_bytes r)) in
      let later : records_loop v3 (before ++ (row_bytes r ++ index_file rows)) fuel (suc i)
            (at + 51)
          ≡ done (parsed rows) =
        ap (λ f. records_loop v3 f fuel (suc i) (at + 51))
          (sym (append_assoc before (row_bytes r) (index_file rows)))
        ∙ records_loop-index_file (before ++ row_bytes r) rows fuel (suc i) (at + 51) sounds
            (omega arith) (omega (arith, length-append before (row_bytes r), length-row_bytes r)) in
      rw (got, length-row_bytes r, unpack_fields-row_bytes {W = W} r sound, later) refl

module _ (W : Type 0) ⦃fl : Float W⦄ where
  abbrev fields : Row → IndexRecord W
  fields r = fields_of r

  offsets-Rising :
      (i prev : ℕ) (rows : List Row)
      → is_nil (offset_problems i prev (map fields rows)) ≡ true
      → Rising prev rows
  unfolding offset_problems
  offsets-Rising i prev [] h = tt
  offsets-Rising i prev (r ∷ rows) h =
      let (first, rest) = is_nil-append (when (leb r.file_offset prev) _) _ h in
      (
        let above = when-nil (leb r.file_offset prev) _ first in ground arith,
        offsets-Rising (suc i) r.file_offset rows rest,
      )

  bounds-lt :
      (size : ℕ) (rows : List Row)
      → is_nil (bound_problems size (map fields rows)) ≡ true
      → All (λ r. r.file_offset < size) rows
  unfolding bound_problems
  bounds-lt size [] h = tt
  bounds-lt size (r ∷ rows) h =
      let (first, rest) = is_nil-append (when (leb size r.file_offset) _) _ h in
      (
        let below = when-nil (leb size r.file_offset) _ first in ground arith,
        bounds-lt size rows rest,
      )

  verdict-offsets :
      (whole : Bool) (size : ℕ) (rows : List Row)
      → verdict whole (some size) (parsed {W = W} rows) ≡ true
      → RisingAll rows × All (λ r. r.file_offset < size) rows
  unfolding verdict record_problems
  verdict-offsets whole size [] h = (tt, tt)
  verdict-offsets whole size (r ∷ rows) h =
      let rs = map fields rows in
      let (a, b) =
        is_nil-append (when (not whole) size_not_a_multiple)
          (record_problems (some size) (fields r) rs) h in
      let (c, d) = is_nil-append (time_problems 1 r.timestamp_ns rs) _ b in
      let (e, f) = is_nil-append (offset_problems 1 r.file_offset rs) _ d in
      let (g, k) = is_nil-append (bound_problems size (fields r ∷ rs)) _ f in
      (offsets-Rising 1 r.file_offset rows e, bounds-lt size (r ∷ rows) g)

  format_of_size-v3 : (n : ℕ) → format_of_size (n * 51) ≡ v3
  unfolding format_of_size
  format_of_size-v3 n = ground arith

  -- The check of an index that was written is the verdict on its rows.
  validate_event_index-verdict :
      (rows : List Row) (df : List ℕ)
      → All IsSound rows
      → 0 < length rows
      → validate_event_index W (some (index_file rows)) (some df)
        ≡ done (verdict (length rows * 51 % 51 == 0) (some (length df)) (parsed {W = W} rows))
  unfolding validate_event_index
  validate_event_index-verdict rows df sound h =
      let n = length rows in
      let some_rows : n * 51 == 0 ≡ false = ground arith in
      rw
        (
          length-index_file rows,
          format_of_size-v3 n,
          some_rows,
          records_loop-index_file {W = W} [] rows (suc (n * 51)) 0 0 sound (omega arith) refl,
        )
        refl

  done-eq : (a b : Bool) → done a ≡ done b → a ≡ b
  done-eq a b h = cc

  verdict-true :
      (rows : List Row) (df : List ℕ)
      → All IsSound rows
      → validate_event_index W (some (index_file rows)) (some df) ≡ done true
      → RisingAll rows × All (λ r. r.file_offset < length df) rows
  verdict-true [] df sound h = (tt, tt)
  verdict-true (r ∷ rows) df sound h =
      verdict-offsets _ (length df) (r ∷ rows)
        (done-eq _ true (sym (validate_event_index-verdict (r ∷ rows) df sound (omega arith)) ∙ h))

  -- Let the index hold rows that fit their fields, and let the validator pass the two files. Then
  -- `get_event_data` finds the event of each row `r` after which no row has its number, with as many
  -- samples as fit into the bytes up to the next row's waveform, or up to the end of the file after
  -- the last row.
  pub validate_event_index-get_event_data :
      (s : Settings W) (df : List ℕ) (xs : List Row) (r : Row) (ys : List Row)
      → All IsSound (xs ++ (r ∷ ys))
      → validate_event_index W (some (index_file (xs ++ (r ∷ ys)))) (some df) ≡ done true
      → All (λ y. y.event_id ≢ r.event_id) ys
      → (d : EventData W) × (get_event_data s
            (some df)
            (some (index_file (xs ++ (r ∷ ys))))
            r.event_id
          ≡ some d)
        × (d.event ≡ event_of_row s (some df) r)
        × (length d.samples ≡ (stop_of df ys - r.file_offset) / 2)
  validate_event_index-get_event_data s df xs r ys sound passed other =
      let (rising, inside) = verdict-true (xs ++ (r ∷ ys)) df sound passed in
      let (low, high) =
        ends ys (RisingAll-behind xs r ys rising)
          (All-behind (λ z. z.file_offset < length df) xs (r ∷ ys) inside) in
      get_event_data-written s df xs r ys sound other low high
    where
      ends :
          (zs : List Row)
          → Rising r.file_offset zs
          → All (λ z. z.file_offset < length df) (r ∷ zs)
          → (r.file_offset ≤ stop_of df zs) × (stop_of df zs ≤ length df)
      ends [] rise (k, ks) = (omega arith, omega arith)
      ends (z ∷ zs) (up, rise) (k, (l, ls)) = (omega arith, omega arith)
