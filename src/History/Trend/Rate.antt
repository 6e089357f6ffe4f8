-- ===== src/History/Trend/Rate.antt =====
-- history_service.py: `_peek_rate_from_file` on the files that the datalogger writes.
use pika_pika.Prelude.{
  ℕ, ◌-◌, ◌≤◌, ◌≡◌, subst, List, [], ◌∷◌, ◌++◌, append_assoc, arith, length, length-append, All,
}
use pika_pika.History.Format.{typical_iec_chunk_bytes, chunk_bytes}
use pika_pika.History.Written.{
  Chunk, chunk_file, written, header_at-written, length-header-written, valid_header-Bounds,
}
use pika_pika.History.Parse.Written.{last_rate}
use pika_pika.History.Parse.Tail.{IsTypical, typical_bytes}
use pika_pika.History.Trend.{peek_rate_from_file, rate_or_default}

peek_rate_from_file-last :
    (before : List ℕ) (c : Chunk)
    → IsTypical c
    → let f = before ++ (chunk_file c ++ []) in
      rate_or_default (peek_rate_from_file f (length f)) ≡ c.header.rate
unfolding peek_rate_from_file chunk_bytes
peek_rate_from_file-last before c t =
    let f = before ++ (chunk_file c ++ []) in
    let place : length f - typical_iec_chunk_bytes ≡ length before = omega (
      arith,
      length-append before (chunk_file c ++ []),
      length-append (chunk_file c) [],
      typical_bytes c t,
    ) in
    let enough : typical_iec_chunk_bytes ≤ length f = omega (
      arith,
      length-append before (chunk_file c ++ []),
      length-append (chunk_file c) [],
      typical_bytes c t,
    ) in
    let b = valid_header-Bounds c.header t.sound.plausible in
    rw
      (
        place,
        length-header-written before [] c t.sound,
        header_at-written before [] c t.sound,
        t.sound.plausible,
        t.ten,
        t.one_channel,
        t.iec,
      )
      (ground (arith, enough, b.rate_ge))

-- The chunks before the last one, and the last one.
pub peek_rate_from_file-split :
    (before : List ℕ) (c : Chunk) (cs : List Chunk)
    → IsTypical c
    → All IsTypical cs
    → let f = before ++ written (c ∷ cs) in
      rate_or_default (peek_rate_from_file f (length f)) ≡ last_rate c.header.rate cs
unfolding written last_rate
peek_rate_from_file-split before c [] t ts = peek_rate_from_file-last before c t
peek_rate_from_file-split before c (d ∷ cs) t (td, ts) =
    subst (λ f. rate_or_default (peek_rate_from_file f (length f)) ≡ last_rate d.header.rate cs)
      (append_assoc before (chunk_file c) (chunk_file d ++ written cs))
      (peek_rate_from_file-split (before ++ chunk_file c) d cs td ts)
