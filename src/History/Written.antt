-- ===== src/History/Written.antt =====
-- The trend file as the datalogger writes it (pika/datalogger/src/writer.c,
-- `writer_write_decimated`, and the packed header of include/storage_format.h), under the eyes of
-- the readers of history_service.py.
use pika_pika.Prelude.{
  ℕ, ◌+◌, ◌*◌, ◌^◌, ◌≤◌, ◌<◌, ◌≡◌, refl, sym, ap, ◌∙◌, true, List, [], ◌∷◌, ◌++◌, append_assoc,
  arith, length, length-append, All,
}
use pika_pika.Prelude.Int.{ℤ}
use pika_pika.Binary.{read, shorts}
use pika_pika.Binary.Encode.{
  le_bytes, Fits16, short_bytes, length-short_bytes, unsigned-le_bytes, shorts-short_bytes,
  read-append,
}
use pika_pika.History.Format.{header_size, Header, unpack_header, valid_header, total_values}
use pika_pika.History.Seek.{header_at, whole_chunk}
use pika_pika.History.Parse.{chunk, next_chunk}

pub record Chunk : Type 0 where
  pub header : Header
  pub values : List ℤ

-- `fwrite(header, …)` and `fwrite(data, …)` on a little-endian machine.
unfoldable pub header_bytes : Header → List ℕ
unfolding le_bytes
header_bytes h =
    le_bytes 8 h.ts
    ++ (le_bytes 4 h.rate ++ (le_bytes 4 h.count ++ (le_bytes 4 h.channels ++ le_bytes 4 h.vps)))

unfoldable pub chunk_file : Chunk → List ℕ
unfolding header_bytes
chunk_file c = header_bytes c.header ++ short_bytes c.values

unfoldable pub written : List Chunk → List ℕ
unfolding chunk_file
written [] = []
written (c ∷ cs) = chunk_file c ++ written cs

-- A chunk that the readers accept: a plausible header, and the payload that it announces.
pub record IsSound (c : Chunk) : Type 0 where
  pub plausible : valid_header c.header ≡ true
  pub ts_lt : c.header.ts < 2 ^ 64
  pub values_length : length c.values ≡ total_values c.header
  pub values_fit : All Fits16 c.values

pub length-header_bytes : (h : Header) → length (header_bytes h) ≡ header_size
unfolding header_bytes
length-header_bytes h = refl

pub length-chunk_file :
    (c : Chunk) → IsSound c → length (chunk_file c) ≡ header_size + total_values c.header * 2
unfolding chunk_file
length-chunk_file c s =
    length-append (header_bytes c.header) (short_bytes c.values)
    ∙ ap (λ n. header_size + n) (length-short_bytes c.values ∙ ap (λ n. n * 2) s.values_length)

pub record Bounds (h : Header) : Type 0 where
  pub rate_le : h.rate ≤ 200_000
  pub rate_ge : 1 ≤ h.rate
  pub count_le : h.count ≤ 100_000
  pub count_ge : 1 ≤ h.count
  pub channels_le : h.channels ≤ 8
  pub channels_ge : 1 ≤ h.channels
  pub vps_le : h.vps ≤ 3
  pub vps_ge : 2 ≤ h.vps

-- What a plausible header guarantees.
pub valid_header-Bounds : (h : Header) → valid_header h ≡ true → Bounds h
unfolding valid_header
valid_header-Bounds h e = ground arith

-- A plausible header announces some payload.
total_values-pos : (h : Header) → Bounds h → 0 < total_values h
total_values-pos h b =
    let some_values : 1 ≤ h.count * h.channels = grind (arith, b.count_ge, b.channels_ge) in
    grind (arith, some_values, b.vps_ge)

unpack_header-header_bytes :
    (h : Header) → valid_header h ≡ true → h.ts < 2 ^ 64 → unpack_header (header_bytes h) ≡ h
unfolding unpack_header header_bytes
unpack_header-header_bytes h e ts_lt =
    let b = valid_header-Bounds h e in
    λ i. record {
      ts = unsigned-le_bytes 8 h.ts (omega arith) i;
      rate = unsigned-le_bytes 4 h.rate (omega arith) i;
      count = unsigned-le_bytes 4 h.count (omega arith) i;
      channels = unsigned-le_bytes 4 h.channels (omega arith) i;
      vps = unsigned-le_bytes 4 h.vps (omega arith) i;
    }

module _ (before rest : List ℕ) (c : Chunk) (sound : IsSound c) where
  abbrev file : List ℕ
  file = before ++ (chunk_file c ++ rest)

  read_header : read file (length before) header_size ≡ header_bytes c.header
  unfolding chunk_file
  read_header =
      ap (λ t. read (before ++ t) (length before) header_size)
        (append_assoc (header_bytes c.header) (short_bytes c.values) rest)
      ∙ read-append before (header_bytes c.header) (short_bytes c.values ++ rest) (length before)
          header_size refl refl

  read_payload :
      read file (length before + header_size) (total_values c.header * 2) ≡ short_bytes c.values
  unfolding chunk_file
  read_payload =
      ap (λ t. read t (length before + header_size) (total_values c.header * 2))
        (ap (before ++◌) (append_assoc (header_bytes c.header) (short_bytes c.values) rest)
          ∙ sym (append_assoc before (header_bytes c.header) (short_bytes c.values ++ rest)))
      ∙ read-append (before ++ header_bytes c.header) (short_bytes c.values) rest
          (length before + header_size) (total_values c.header * 2)
          (sym (length-append before (header_bytes c.header)))
          (sym (length-short_bytes c.values ∙ ap (λ n. n * 2) sound.values_length))

  -- Behind other bytes, a written chunk is found whole.
  pub next_chunk-written :
      {size : ℕ}
      → size ≡ length file
      → next_chunk file size (length before)
        ≡ chunk c.header c.values (length before + length (chunk_file c))
  unfolding next_chunk
  next_chunk-written e =
      rw
        (
          read_header,
          unpack_header-header_bytes c.header sound.plausible sound.ts_lt,
          read_payload,
          length-header_bytes c.header,
          shorts-short_bytes c.values sound.values_fit,
        )
        (ground (
          arith,
          sound.plausible,
          length-chunk_file c sound,
          length-append before (chunk_file c ++ rest),
          length-append (chunk_file c) rest,
          length-short_bytes c.values,
          sound.values_length,
        ))

  -- The header and the payload that stand there.
  pub header_at-written : header_at file (length before) ≡ c.header
  header_at-written =
      ap unpack_header read_header ∙ unpack_header-header_bytes c.header sound.plausible sound.ts_lt

  pub payload-written :
      shorts (read file (length before + header_size) (total_values c.header * 2)) ≡ c.values
  payload-written = ap shorts read_payload ∙ shorts-short_bytes c.values sound.values_fit

  pub length-payload-written :
      length (read file (length before + header_size) (total_values c.header * 2))
      ≡ total_values c.header * 2
  length-payload-written =
      ap length read_payload ∙ length-short_bytes c.values ∙ ap (λ n. n * 2) sound.values_length

  pub length-header-written : length (read file (length before) header_size) ≡ header_size
  length-header-written = ap length read_header ∙ length-header_bytes c.header

  pub whole_chunk-written : whole_chunk file (length file) (length before) ≡ true
  unfolding whole_chunk
  whole_chunk-written =
      let b = valid_header-Bounds c.header sound.plausible in
      rw header_at-written (
        ground (
          arith,
          sound.plausible,
          length-chunk_file c sound,
          length-append before (chunk_file c ++ rest),
          length-append (chunk_file c) rest,
          total_values-pos c.header b,
        ))
