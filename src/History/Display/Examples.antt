-- ===== src/History/Display/Examples.antt =====
-- Runs of the display bucketing on five intervals, and applications of its theorems.
use pika_pika.Prelude.{ℕ, ◌≤◌, ◌≡◌, refl, some, List, [], ◌∷◌, arith, length, All}
use pika_pika.Prelude.Int.{pos}
use pika_pika.Float.{min_from, max_from}
use pika_pika.Float.Fixed.{Fixed, fixed_float, Fixed-IsOrdered}
use pika_pika.History.Format.{Interval}
use pika_pika.History.Parse.{columns_of}
use pika_pika.History.Display.{bucket_at, bucket_loop, bucket_intervals}
use pika_pika.History.Display.Groups.{last_stamp}
use pika_pika.History.Display.Envelope.{Encloses, bucket_intervals-Encloses}
use pika_pika.History.Display.Limit.{bucket_intervals-limit}

abbrev reading : ℕ → ℕ → ℕ → ℕ → Interval Fixed
reading v a b t = record { vrms = some (pos v); low = some (pos a); high = some (pos b); stamp = t }

abbrev readings : List (Interval Fixed)
readings =
    reading 23_000 22_900 23_100 10
    ∷ reading 23_100 22_000 23_400 20
    ∷ reading 15_000 9000 23_200 30
    ∷ reading 23_000 22_950 23_050 40
    ∷ reading 23_200 22_900 24_000 50
    ∷ []

two_points :
    bucket_intervals (columns_of readings) (pos 2)
    ≡ some (columns_of (reading 20_366 9000 23_400 30 ∷ reading 23_100 22_900 24_000 50 ∷ []))
unfolding bucket_intervals bucket_loop bucket_at min_from max_from
two_points = refl

bucket_intervals-limit_example :
    (drawn : List (Interval Fixed)) × (bucket_intervals (columns_of readings) (pos 2)
      ≡ some (columns_of drawn))
    × (length drawn ≤ 2)
    × (last_stamp 0 drawn ≡ last_stamp 0 readings)
bucket_intervals-limit_example = bucket_intervals-limit readings 2 0 (omega arith)

bucket_intervals-Encloses_example :
    (drawn : List (Interval Fixed)) × (bucket_intervals (columns_of readings) (pos 2)
      ≡ some (columns_of drawn))
    × All (Encloses drawn) readings
bucket_intervals-Encloses_example =
    bucket_intervals-Encloses Fixed-IsOrdered readings 2 (omega arith) (omega arith)
      ((refl, refl), ((refl, refl), ((refl, refl), ((refl, refl), ((refl, refl), tt)))))
