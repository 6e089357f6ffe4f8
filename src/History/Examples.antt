-- ===== src/History/Examples.antt =====
-- Runs of the trend readers on a small file, and applications of the theorems to it.
use pika_pika.Prelude.{
  ℕ, zero, suc, ◌/◌, ◌%◌, ◌≡◌, refl, Option, some, List, [], ◌∷◌, ◌++◌, arith, length, All, keep,
  done, Returns,
}
use pika_pika.Prelude.Int.{pos, ◌≤ℤ◌}
use pika_pika.Float.Fixed.{Fixed, fixed_float}
use pika_pika.Binary.{read, unsigned}
use pika_pika.Binary.Encode.{le_bytes, short_bytes}
use pika_pika.History.Format.{
  unpack_header, bucket_ns, chunk_end, Layout, Interval, layout, iec_vrms, typical_iec_chunk_bytes,
}
use pika_pika.History.Rows.{chunk_intervals, intervals_from, keep_last}
use pika_pika.History.Parse.{Parsed, columns_of, walked, parse_from, walk_all, read_tail_intervals}
use pika_pika.History.Written.{written, chunk_file, header_bytes}
use pika_pika.History.Parse.Total.{read_tail_intervals-Ends}
use pika_pika.History.Parse.Agree.{FormatsAgree, parse_from-walk_all}
use pika_pika.History.Parse.Written.{
  intervals, last_rate, last_layout, tail_view, parse_from-written,
}
use pika_pika.History.Parse.Tail.{read_tail_intervals-written}
use pika_pika.History.Seek.{
  find_next_valid_chunk, seek_chunk_at_or_before, seek_unaligned_near, header_at,
}
use pika_pika.History.Seek.Damage.{FirstTarget, find_next_valid_chunk-FirstTarget}
use pika_pika.History.Seek.Bisect.{IsStart, InOrder, seek_chunk_at_or_before-IsStart}
use pika_pika.History.Seek.Unaligned.{BeginsBefore, seek_unaligned_near-BeginsBefore}
use pika_pika.History.Trend.{Payload, get_decimated_data}
use pika_pika.History.Trend.Request.{IsDrawn, IsTail, get_decimated_data-written}
use pika_pika.History.Window.{intervals_between, interval_payload}
use pika_pika.History.Window.Order.{Increasing}
use pika_pika.History.Window.Range.{intervals_between-InWindow}
use pika_pika.History.Window.Exact.{inside}
use pika_pika.History.Window.Rotation.{intervals_between-written}
use pika_pika.History.Sample.{
  early, late, scale, both, file, early-IsTypical, late-IsTypical, both-IsTypical, both-InTime,
}

read_tail_intervals-Ends_example :
    (p : Option (Parsed Fixed)) × (read_tail_intervals scale file 168 15 ≡ done p)
read_tail_intervals-Ends_example = read_tail_intervals-Ends scale file 168 15

parse_from-walk_all_example :
    (g : Layout) × FormatsAgree iec_vrms g
    × (walk_all scale file (length file) 15
        ≡ done (
            some (record {
              columns = columns_of (keep_last 15 (intervals scale both));
              sample_rate = 5;
              fmt = g;
            })))
unfolding walked last_rate last_layout layout intervals chunk_intervals intervals_from
parse_from-walk_all_example = parse_from-walk_all scale file (length file) 15 (omega arith) (
    parse_from-written scale [] both 15 (omega arith)
      (early-IsTypical.sound, (late-IsTypical.sound, tt)))

parse_from-written_example :
    parse_from scale
      (chunk_file early ++ written (late ∷ []))
      (length (chunk_file early ++ written (late ∷ [])))
      (length (chunk_file early))
      5
    ≡ done (tail_view scale 5 (late ∷ []))
parse_from-written_example =
    parse_from-written scale (chunk_file early) (late ∷ []) 5 (omega arith)
      (late-IsTypical.sound, tt)

read_tail_intervals-written_example :
    read_tail_intervals scale file (length file) 15 ≡ done (tail_view scale 15 both)
read_tail_intervals-written_example =
    read_tail_intervals-written scale both 15 both-IsTypical (omega arith) (omega arith)

find_next_valid_chunk-FirstTarget_example :
    Returns
      (find_next_valid_chunk (7 ∷ 0 ∷ file) (length (7 ∷ 0 ∷ file)) 0)
      (FirstTarget (7 ∷ 0 ∷ file) 0)
find_next_valid_chunk-FirstTarget_example = find_next_valid_chunk-FirstTarget (7 ∷ 0 ∷ file) 0

first_end : chunk_end (header_at file 0) ≡ 1_001_800_000_000
unfolding written chunk_file header_bytes short_bytes le_bytes read unpack_header unsigned chunk_end
    bucket_ns
first_end = refl

second_end : chunk_end (header_at file 84) ≡ 1_003_800_000_000
unfolding written chunk_file header_bytes short_bytes le_bytes read unpack_header unsigned chunk_end
    bucket_ns
second_end = refl

aligned_size : length file % typical_iec_chunk_bytes ≡ 0
unfolding written chunk_file header_bytes short_bytes le_bytes
aligned_size = refl

file-InOrder : InOrder file (length file / typical_iec_chunk_bytes)
unfolding written chunk_file header_bytes short_bytes le_bytes
file-InOrder zero zero o b = omega arith
file-InOrder zero (suc zero) o b = omega (arith, first_end, second_end)
file-InOrder (suc zero) zero o b = absurd (omega arith)
file-InOrder (suc zero) (suc zero) o b = omega arith
file-InOrder i (suc (suc j)) o b = absurd (omega arith)
file-InOrder (suc (suc i)) j o b = absurd (omega arith)

seek_chunk_at_or_before-IsStart_example :
    Returns
      (seek_chunk_at_or_before file (length file) (pos 1_003_000_000_000))
      (IsStart file (pos 1_003_000_000_000))
seek_chunk_at_or_before-IsStart_example =
    seek_chunk_at_or_before-IsStart file (pos 1_003_000_000_000) aligned_size file-InOrder

seek_unaligned_near-BeginsBefore_example :
    Returns
      (seek_unaligned_near (7 ∷ file) (length (7 ∷ file)) (pos 1_003_000_000_000))
      (BeginsBefore (7 ∷ file) (pos 1_003_000_000_000))
seek_unaligned_near-BeginsBefore_example =
    seek_unaligned_near-BeginsBefore (7 ∷ file) (pos 1_003_000_000_000)

intervals_between-InWindow_example :
    Returns
      (intervals_between scale
        (some (7 ∷ file))
        (some file)
        (pos 1_000_500_000_000)
        (pos 1_003_000_000_000))
      (λ c.
        Increasing c.timestamps
        × All
            (λ t. (pos 1_000_500_000_000 ≤ℤ pos t) × (pos t ≤ℤ pos 1_003_000_000_000))
            c.timestamps)
intervals_between-InWindow_example =
    intervals_between-InWindow scale (pos 1_000_500_000_000) (pos 1_003_000_000_000)
      (some (7 ∷ file)) (some file)

intervals_between-written_example :
    intervals_between scale
      (some (written (early ∷ [])))
      (some (written (late ∷ [])))
      (pos 1_000_500_000_000)
      (pos 1_003_000_000_000)
    ≡ done (
        interval_payload
          (keep (inside (pos 1_000_500_000_000) (pos 1_003_000_000_000)) (intervals scale both)))
intervals_between-written_example =
    intervals_between-written scale (early ∷ []) (late ∷ []) (pos 1_000_500_000_000)
      (pos 1_003_000_000_000) (early-IsTypical, tt) (late-IsTypical, tt) both-InTime (omega arith)

get_decimated_data-written_example :
    (drawn : List (Interval Fixed)) × IsDrawn {R = ℕ} 0 scale
      (keep_last 300 (intervals scale both))
      (some (pos 5))
      drawn
    × (y : Payload Fixed ℕ) × (get_decimated_data 0 scale
          (pos 20_000)
          (some (pos 1))
          (some (pos 5))
          (some file)
        ≡ done (some y))
    × IsTail 0 scale (keep_last 300 (intervals scale both)) drawn 5 iec_vrms y
unfolding last_rate last_layout layout
get_decimated_data-written_example =
    get_decimated_data-written 0 scale both (pos 20_000) (some (pos 1)) (some (pos 5))
      both-IsTypical (omega arith)
