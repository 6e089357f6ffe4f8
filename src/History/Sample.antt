-- ===== src/History/Sample.antt =====
-- A small trend file of two chunks, for the examples.
use pika_pika.Prelude.{ℕ, ◌<◌, ◌≡◌, refl, some, List, [], ◌∷◌, arith, length, All}
use pika_pika.Prelude.Int.{ℤ, pos}
use pika_pika.Float.Fixed.{Fixed, fixed_float}
use pika_pika.Binary.Encode.{le_bytes, short_bytes}
use pika_pika.History.Format.{valid_header, bucket_ns, chunk_end}
use pika_pika.History.Written.{Chunk, written, chunk_file, header_bytes}
use pika_pika.History.Parse.Tail.{IsTypical}
use pika_pika.History.Window.Times.{InTime}

-- Ten intervals of two seconds, about 230 V, with one sag.
abbrev pub readings : List ℤ
readings =
    pos 23000
    ∷ pos 22950
    ∷ pos 23100
    ∷ pos 23001
    ∷ pos 22951
    ∷ pos 23101
    ∷ pos 23002
    ∷ pos 22952
    ∷ pos 23102
    ∷ pos 23003
    ∷ pos 22953
    ∷ pos 23103
    ∷ pos 15000
    ∷ pos 12000
    ∷ pos 23000
    ∷ pos 23005
    ∷ pos 22955
    ∷ pos 23105
    ∷ pos 23006
    ∷ pos 22956
    ∷ pos 23106
    ∷ pos 23007
    ∷ pos 22957
    ∷ pos 23107
    ∷ pos 23008
    ∷ pos 22958
    ∷ pos 23108
    ∷ pos 23009
    ∷ pos 22959
    ∷ pos 23109
    ∷ []

abbrev pub chunk_from : ℕ → Chunk
chunk_from ts = record {
  header = record { ts = ts; rate = 5; count = 10; channels = 1; vps = 3 };
  values = readings;
}

abbrev pub early : Chunk
early = chunk_from 1_000_000_000_000

abbrev pub late : Chunk
late = chunk_from 1_002_000_000_000

abbrev pub scale : Fixed
scale = some (pos 25)

pub early-IsTypical : IsTypical early
unfolding valid_header
early-IsTypical = record {
  sound = record {
    plausible = refl;
    ts_lt = omega arith;
    values_length = refl;
    values_fit = ground arith;
  };
  ten = refl;
  one_channel = refl;
  iec = refl;
}

pub late-IsTypical : IsTypical late
unfolding valid_header
late-IsTypical = record {
  sound = record {
    plausible = refl;
    ts_lt = omega arith;
    values_length = refl;
    values_fit = ground arith;
  };
  ten = refl;
  one_channel = refl;
  iec = refl;
}

abbrev pub both : List Chunk
both = early ∷ late ∷ []

abbrev pub file : List ℕ
file = written both

pub both-IsTypical : All IsTypical both
both-IsTypical = (early-IsTypical, (late-IsTypical, tt))

late_follows : chunk_end early.header < late.header.ts
unfolding chunk_end bucket_ns
late_follows = omega arith

pub both-InTime : InTime both
both-InTime = ((late_follows, tt), (tt, tt))

-- The format's own sizes, and a round trip through the bytes.
typical_size : length (chunk_file early) ≡ 84
unfolding chunk_file header_bytes short_bytes le_bytes
typical_size = refl
