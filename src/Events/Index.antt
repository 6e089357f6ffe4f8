-- ===== src/Events/Index.antt =====
-- The event index as the datalogger writes it: `event_index_record_t` of include/storage_format.h,
-- which writer.c appends, and its fields read back.
use pika_pika.Prelude.{
  ℕ, ◌+◌, ◌*◌, ◌^◌, ◌<◌, ◌≡◌, refl, sym, ap, ◌∙◌, List, [], ◌∷◌, ◌++◌, append_assoc, map, arith,
  length, length-append, All, some, Option,
}
use pika_pika.Prelude.Int.{ℤ}
use pika_pika.Float.{Float}
use pika_pika.Binary.{signed16}
use pika_pika.Binary.Encode.{le_bytes, pattern16, Fits16, unsigned-le_bytes, read-append}
use pika_pika.Events.{
  IndexRecord, v3, Settings, Event, unpack_fields, event_of, unpack_record, read_loop,
}

-- A record as it is written; `extreme_bits` is the bit pattern of the float.
pub record Row : Type 0 where
  pub event_id : ℕ
  pub timestamp_ns : ℕ
  pub waveform_start_ns : ℕ
  pub ns_per_sample : ℕ
  pub event_type : ℕ
  pub peak_value : ℤ
  pub duration_samples : ℕ
  pub extreme_bits : ℕ
  pub file_offset : ℕ

-- Each field fits its type.
pub record IsSound (r : Row) : Type 0 where
  pub id_lt : r.event_id < 2 ^ 64
  pub ts_lt : r.timestamp_ns < 2 ^ 64
  pub start_lt : r.waveform_start_ns < 2 ^ 64
  pub ns_lt : r.ns_per_sample < 2 ^ 64
  pub type_lt : r.event_type < 2 ^ 8
  pub peak_fits : Fits16 r.peak_value
  pub dur_lt : r.duration_samples < 2 ^ 32
  pub offset_lt : r.file_offset < 2 ^ 64

unfoldable pub row_bytes : Row → List ℕ
unfolding le_bytes
row_bytes r =
    le_bytes 8 r.event_id
    ++ (le_bytes 8 r.timestamp_ns
        ++ (le_bytes 8 r.waveform_start_ns
            ++ (le_bytes 8 r.ns_per_sample
                ++ (le_bytes 1 r.event_type
                    ++ (le_bytes 2 (pattern16 r.peak_value)
                        ++ (le_bytes 4 r.duration_samples
                            ++ (le_bytes 4 r.extreme_bits ++ le_bytes 8 r.file_offset)))))))

unfoldable pub index_file : List Row → List ℕ
unfolding row_bytes
index_file [] = []
index_file (r ∷ rows) = row_bytes r ++ index_file rows

pub length-row_bytes : (r : Row) → length (row_bytes r) ≡ 51
unfolding row_bytes
length-row_bytes r = refl

pub length-index_file : (rows : List Row) → length (index_file rows) ≡ length rows * 51
unfolding index_file
length-index_file [] = refl
length-index_file (r ∷ rows) = omega (
  arith,
  length-append (row_bytes r) (index_file rows),
  length-row_bytes r,
  length-index_file rows,
)

pub index_file-append : (xs ys : List Row) → index_file (xs ++ ys) ≡ index_file xs ++ index_file ys
unfolding index_file
index_file-append [] ys = refl
index_file-append (x ∷ xs) ys =
    ap (◌++◌ (row_bytes x)) (index_file-append xs ys)
    ∙ sym (append_assoc (row_bytes x) (index_file xs) (index_file ys))

signed-pattern16 : (z : ℤ) → Fits16 z → signed16 (pattern16 z) ≡ z
signed-pattern16 z h = ground arith

pattern16-lt : (z : ℤ) → Fits16 z → pattern16 z < 65_536
pattern16-lt z h = ground arith

module _ {W : Type 0} ⦃fl : Float W⦄ where
  -- What the reader makes of a row.
  abbrev pub fields_of : Row → IndexRecord W
  fields_of r = record {
    event_id = r.event_id;
    ts = r.timestamp_ns;
    wf_start = r.waveform_start_ns;
    ns_per_sample = r.ns_per_sample;
    etype = r.event_type;
    peak_raw = r.peak_value;
    dur = r.duration_samples;
    extreme_rms_v = some (fl.float32 (le_bytes 4 r.extreme_bits));
    file_off = r.file_offset;
  }

  pub unpack_fields-row_bytes : (r : Row) → IsSound r → unpack_fields v3 (row_bytes r) ≡ fields_of r
  unfolding unpack_fields row_bytes
  unpack_fields-row_bytes r s = λ i. record {
    event_id = unsigned-le_bytes 8 r.event_id (omega (arith, s.id_lt)) i;
    ts = unsigned-le_bytes 8 r.timestamp_ns (omega (arith, s.ts_lt)) i;
    wf_start = unsigned-le_bytes 8 r.waveform_start_ns (omega (arith, s.start_lt)) i;
    ns_per_sample = unsigned-le_bytes 8 r.ns_per_sample (omega (arith, s.ns_lt)) i;
    etype = unsigned-le_bytes 1 r.event_type (omega (arith, s.type_lt)) i;
    peak_raw =
        (ap signed16 (
              unsigned-le_bytes 2 (pattern16 r.peak_value)
                (omega (arith, pattern16-lt r.peak_value s.peak_fits)))
            ∙ signed-pattern16 r.peak_value s.peak_fits)
          i;
    dur = unsigned-le_bytes 4 r.duration_samples (omega (arith, s.dur_lt)) i;
    extreme_rms_v = some (fl.float32 (le_bytes 4 r.extreme_bits));
    file_off = unsigned-le_bytes 8 r.file_offset (omega (arith, s.offset_lt)) i;
  }

module _ {W : Type 0} ⦃fl : Float W⦄ (s : Settings W) (waveforms : Option (List ℕ)) where
  abbrev pub event_of_row : Row → Event W
  event_of_row r = event_of s waveforms (fields_of r)

  pub unpack_record-row_bytes :
      (r : Row) → IsSound r → unpack_record s waveforms v3 (row_bytes r) ≡ event_of_row r
  unfolding unpack_record
  unpack_record-row_bytes r sound = ap (event_of s waveforms) (unpack_fields-row_bytes r sound)

  -- Behind other bytes, as many rows as are asked for are read back.
  pub read_loop-index_file :
      (before rest : List ℕ) (rows : List Row) (at : ℕ)
      → All IsSound rows
      → at ≡ length before
      → read_loop s waveforms v3 (before ++ (index_file rows ++ rest)) (length rows) at
        ≡ map event_of_row rows
  unfolding read_loop index_file
  read_loop-index_file before rest [] at sound e = refl
  read_loop-index_file before rest (r ∷ rows) at (sound, sounds) e =
      let shape : before ++ ((row_bytes r ++ index_file rows) ++ rest)
          ≡ before ++ (row_bytes r ++ (index_file rows ++ rest)) =
        ap (before ++◌) (append_assoc (row_bytes r) (index_file rows) rest) in
      let got =
        read-append before (row_bytes r) (index_file rows ++ rest) at 51 e
          (sym (length-row_bytes r)) in
      let later =
        read_loop-index_file (before ++ row_bytes r) rest rows (at + 51) sounds
          (omega (arith, length-append before (row_bytes r), length-row_bytes r)) in
      let later' : read_loop s waveforms v3 (before ++ (row_bytes r ++ (index_file rows ++ rest)))
            (length rows) (at + 51)
          ≡ map event_of_row rows =
        ap (λ f. read_loop s waveforms v3 f (length rows) (at + 51))
          (sym (append_assoc before (row_bytes r) (index_file rows ++ rest)))
        ∙ later in
      rw (shape, got, length-row_bytes r, unpack_record-row_bytes r sound, later') refl
