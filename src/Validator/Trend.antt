-- ===== src/Validator/Trend.antt =====
-- validate_data.py: `validate_decimated`. The intervals between chunks only give warnings, and are left
-- out.
pub mod Envelope
pub mod Passes
pub mod Ends
use pika_pika.Prelude.{
  ℕ, zero, suc, ◌+◌, ◌*◌, ◌-◌, Bool, true, false, ◌||◌, ◌&&◌, not, Option, none, some, List, [],
  ◌∷◌, ◌++◌, ltb, leb, ◌==◌, if◌then◌else◌, length, take, Run, done, out_of_fuel, ◌>>=◌,
}
use pika_pika.Prelude.Int.{ℤ, ltb_ℤ}
use pika_pika.Binary.{read, shorts}
use pika_pika.History.Format.{header_size, Header, total_values}
use pika_pika.History.Seek.{header_at}
use pika_pika.History.Written.{Chunk}
use pika_pika.Validator.{outside_epoch, when, is_nil}

-- The number of the chunk, counted from 0.
pub data Problem : Type 0 where
  truncated_header implausible_rate outside_epoch_range implausible_count : ℕ → Problem
  implausible_channels implausible_values data_truncated time_not_increasing : ℕ → Problem
  min_above_max : ℕ → Problem

-- The chunks that were read, each with its numbers, and the messages so far.
pub record Parsed : Type 0 where
  pub chunks : List Chunk
  pub problems : List Problem

unfoldable pub header_problems : ℕ → Header → List Problem
header_problems i h =
    when ((h.rate == 0) || ltb 10_000_000 h.rate) (implausible_rate i)
    ++ (when (outside_epoch h.ts) (outside_epoch_range i)
        ++ (when ((h.count == 0) || ltb 100_000 h.count) (implausible_count i)
            ++ (when ((h.channels == 0) || ltb 32 h.channels) (implausible_channels i)
                ++ when ((h.vps == 0) || ltb 10 h.vps) (implausible_values i))))

abbrev pub add_chunk : Chunk → List Problem → Parsed → Parsed
add_chunk c ps p = record { chunks = c ∷ p.chunks; problems = ps ++ p.problems }

abbrev pub and_chunk : Chunk → List Problem → Option Parsed → Option Parsed
and_chunk c ps none = none
and_chunk c ps (some p) = some (add_chunk c ps p)

-- `while True`, from chunk `i` at an offset on. `f.read` makes room for all the bytes that it is asked
-- for, and raises an OverflowError or a MemoryError (`none`) where these are more than `limit`.
unfoldable pub chunks_loop : ℕ → List ℕ → ℕ → ℕ → ℕ → Run (Option Parsed)
chunks_loop limit f zero i at = out_of_fuel
chunks_loop limit f (suc fuel) i at =
    let h = header_at f at in
    let data_size = total_values h * 2 in
    let payload = read f (at + header_size) data_size in
    let later = chunks_loop limit f fuel (suc i) (at + (header_size + data_size)) in
    if length (read f at header_size) == 0
    then done (some (record { chunks = []; problems = [] }))
    else if ltb (length (read f at header_size)) header_size
    then done (some (record { chunks = []; problems = truncated_header i ∷ [] }))
    else if ltb limit data_size
    then done none
    else if ltb (length payload) data_size
    then done
        (some (record { chunks = []; problems = header_problems i h ++ (data_truncated i ∷ []) }))
    else (later >>= λ o.
        done (and_chunk (record { header = h; values = shorts payload }) (header_problems i h) o))

unfoldable pub order_problems : ℕ → ℕ → List Chunk → List Problem
order_problems i prev [] = []
order_problems i prev (c ∷ cs) =
    when (leb c.header.ts prev) (time_not_increasing i) ++ order_problems (suc i) c.header.ts cs

-- The number of pairs, or of the ends of triples, with the minimum above the maximum.
unfoldable pub pair_errors : List ℤ → ℕ
pair_errors (mn ∷ mx ∷ vals) = let rest = pair_errors vals in if ltb_ℤ mx mn then suc rest else rest
pair_errors _ = 0

unfoldable pub triple_errors : List ℤ → ℕ
triple_errors (v ∷ mn ∷ mx ∷ vals) =
    let rest = triple_errors vals in if ltb_ℤ mx mn then suc rest else rest
triple_errors _ = 0

unfoldable pub envelope_errors : Chunk → ℕ
envelope_errors c =
    let n = c.header.count * c.header.channels in
    if c.header.vps == 2
    then pair_errors (take (n * 2) c.values)
    else if c.header.vps == 3
    then triple_errors (take (n * 3) c.values)
    else 0

unfoldable pub minmax_errors : List Chunk → ℕ
minmax_errors [] = 0
minmax_errors (c ∷ cs) = envelope_errors c + minmax_errors cs

unfoldable pub trend_verdict : Parsed → Bool
trend_verdict p = elim p.chunks [
  | [] ↦ false
  | c ∷ cs ↦
      let errors = minmax_errors (c ∷ cs) in
      is_nil (
        p.problems
        ++ (order_problems 1 c.header.ts cs ++ when (ltb 0 errors) (min_above_max errors)))
]

abbrev pub verdict_of : Option Parsed → Option Bool
verdict_of none = none
verdict_of (some p) = some (trend_verdict p)

-- The file is `none` where it does not exist. The result is `none` for an exception.
unfoldable pub validate_decimated : ℕ → Option (List ℕ) → Run (Option Bool)
validate_decimated limit none = done (some false)
validate_decimated limit (some f) =
    let checked = chunks_loop limit f (suc (length f)) 0 0 >>= λ o. done (verdict_of o) in
    if length f == 0 then done (some false) else checked
