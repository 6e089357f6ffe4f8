-- ===== src/History/Seek.antt =====
-- history_service.py: finding a chunk in a trend file, by resynchronising after damage and by
-- binary search. Times are integers: a window may begin before the epoch.
pub mod Damage
pub mod Bisect
pub mod Unaligned
use pika_pika.Prelude.{
  ℕ, zero, suc, ◌+◌, ◌*◌, ◌/◌, ◌%◌, ◌-◌, min, max, Bool, true, false, not, ◌&&◌, ◌||◌, Option, none,
  some, List, [], ◌∷◌, ltb, leb, ◌==◌, if◌then◌else◌, length, Run, done, out_of_fuel, ◌>>=◌,
}
use pika_pika.Prelude.Int.{ℤ, pos, ltb_ℤ}
use pika_pika.Binary.{read}
use pika_pika.History.Format.{
  header_size, typical_iec_chunk_bytes, Header, unpack_header, valid_header, total_values,
  chunk_bytes, chunk_end,
}

-- `next((i for i, b in enumerate(probe) if b != 0), None)`.
unfoldable pub first_nonzero : List ℕ → Option ℕ
first_nonzero [] = none
first_nonzero (b ∷ bs) =
    if not (b == 0) then some 0 else elim (first_nonzero bs) [ none ↦ none | some i ↦ some (suc i) ]

-- The header that stands at an offset.
abbrev pub header_at : List ℕ → ℕ → Header
header_at f at = unpack_header (read f at header_size)

-- A plausible header whose whole payload lies in the file.
unfoldable pub whole_chunk : List ℕ → ℕ → ℕ → Bool
whole_chunk f size at =
    let h = header_at f at in
    let nbytes = total_values h * 2 in
    valid_header h && ltb 0 nbytes && leb (at + header_size + nbytes) size

-- The condition of `_find_next_valid_chunk`, whose last clause is as the source spells it.
unfoldable pub resync_ok : List ℕ → ℕ → ℕ → Bool
unfolding whole_chunk
resync_ok f size at =
    let h = header_at f at in
    let nbytes = total_values h * 2 in
    whole_chunk f size at
    && ((header_size + nbytes == typical_iec_chunk_bytes)
        || (chunk_bytes h.count h.channels h.vps == header_size + nbytes))

-- One round of the resynchronisation.
pub data Resync : Type 0 where
  nowhere : Resync
  found again : ℕ → Resync

unfoldable pub resync_at : List ℕ → ℕ → ℕ → Resync
resync_at f size at =
    if ltb (length (read f at header_size)) header_size
    then nowhere
    else if resync_ok f size at
    then found at
    else again (at + 1)

unfoldable pub resync_round : List ℕ → ℕ → ℕ → Resync
resync_round f size at =
    let probe = read f at (min 4096 (size - at)) in
    if length probe == 0 then nowhere else elim (first_nonzero probe) [
      | none ↦ again (at + length probe)
      | some nonzero ↦ resync_at f size (at + nonzero)
    ]

unfoldable pub resync_loop : List ℕ → ℕ → ℕ → ℕ → Run (Option ℕ)
resync_loop f size zero at = out_of_fuel
resync_loop f size (suc fuel) at =
    let round : Run (Option ℕ) = elim (resync_round f size at) [
      | nowhere ↦ done none
      | found p ↦ done (some p)
      | again next ↦ resync_loop f size fuel next
    ] in
    if leb (at + header_size) size then round else done none

unfoldable pub find_next_valid_chunk : List ℕ → ℕ → ℕ → Run (Option ℕ)
unfolding resync_loop
find_next_valid_chunk f size start_pos = resync_loop f size (suc size) start_pos

-- What the bisection learns from the header in the middle.
pub data Middle : Type 0 where
  give_up ends_before reaches : Middle

unfoldable pub look : List ℕ → ℤ → ℕ → Middle
look f start_ns mid =
    let hdr = read f (mid * typical_iec_chunk_bytes) header_size in
    let h = unpack_header hdr in
    if ltb (length hdr) header_size
    then give_up
    else if not (valid_header h)
    then give_up
    else if not (chunk_bytes h.count h.channels h.vps == typical_iec_chunk_bytes)
    then give_up
    else if ltb_ℤ (pos (chunk_end h)) start_ns
    then ends_before
    else reaches

-- `while lo < hi`; `none` is the `return 0` at a header that is not a typical chunk's.
unfoldable pub bisect_loop : List ℕ → ℤ → ℕ → ℕ → ℕ → Run (Option ℕ)
bisect_loop f start_ns zero lo hi = out_of_fuel
bisect_loop f start_ns (suc fuel) lo hi =
    let mid = (lo + hi) / 2 in
    let round : Run (Option ℕ) = elim (look f start_ns mid) [
      | give_up ↦ done none
      | ends_before ↦ bisect_loop f start_ns fuel (mid + 1) hi
      | reaches ↦ bisect_loop f start_ns fuel lo mid
    ] in
    if ltb lo hi then round else done (some lo)

-- One round of the coarse seek: where it goes on, and the best position that it knows then.
pub data Coarse : Type 0 where
  stop : ℕ → Coarse
  onward : ℕ → ℕ → Coarse

abbrev pub coarse_step : ℕ
coarse_step = typical_iec_chunk_bytes * 2048

unfoldable pub coarse_round : List ℕ → ℕ → ℤ → ℕ → Option ℕ → Coarse
coarse_round f size start_ns best none = stop best
coarse_round f size start_ns best (some synced) =
    let h = header_at f synced in
    if ltb (length (read f synced header_size)) header_size
    then stop best
    else if not (valid_header h)
    then onward best (synced + 1)
    else if ltb_ℤ start_ns (pos h.ts)
    then stop best
    else onward synced (synced + coarse_step)

unfoldable pub coarse_loop : List ℕ → ℕ → ℤ → ℕ → ℕ → ℕ → Run ℕ
coarse_loop f size start_ns zero best at = out_of_fuel
coarse_loop f size start_ns (suc fuel) best at =
    let round = find_next_valid_chunk f size at >>= λ synced.
    elim (coarse_round f size start_ns best synced) [
      | stop p ↦ done p
      | onward best' next ↦ coarse_loop f size start_ns fuel best' next
    ] in
    if ltb at size then round else done best

unfoldable pub seek_unaligned_near : List ℕ → ℕ → ℤ → Run ℕ
unfolding coarse_loop
seek_unaligned_near f size start_ns = coarse_loop f size start_ns (suc size) 0 0

-- `max(0, lo - 1) * chunk`, or 0 after giving up.
abbrev pub bisect_result : Option ℕ → ℕ
bisect_result none = 0
bisect_result (some lo) = (lo - 1) * typical_iec_chunk_bytes

unfoldable pub seek_chunk_at_or_before : List ℕ → ℕ → ℤ → Run ℕ
seek_chunk_at_or_before f size start_ns =
    let n = size / typical_iec_chunk_bytes in
    if ltb size typical_iec_chunk_bytes
    then done 0
    else if not (size % typical_iec_chunk_bytes == 0)
    then seek_unaligned_near f size start_ns
    else (bisect_loop f start_ns (suc n) 0 n >>= λ lo. done (bisect_result lo))
