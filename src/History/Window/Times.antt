-- ===== src/History/Window/Times.antt =====
-- The times of the intervals of written chunks.
use pika_pika.Prelude.{
  ℕ, zero, suc, ◌+◌, ◌*◌, ◌-◌, ◌≤◌, ◌<◌, ◌≡◌, refl, ap, List, [], ◌∷◌, arith, All,
}
use pika_pika.Prelude.Int.{ℤ}
use native.Mathlib.Nat.{le_refl, mul-le-mul}
use pika_pika.Float.{Float}
use pika_pika.History.Format.{Header, Interval, chunk_end, bucket_ns}
use pika_pika.History.Parse.{columns_of}
use pika_pika.History.Rows.{stamp-interval_at, chunk_intervals, intervals_from}
use pika_pika.History.Written.{Chunk}
use pika_pika.History.Window.{zip_columns}

-- Each chunk ends before the next ones begin.
abbrev pub InTime : List Chunk → Type 0
InTime [] = Unit
InTime (c ∷ cs) = All (λ d. chunk_end c.header < d.header.ts) cs × InTime cs

module _ {W : Type 0} where
  pub zip_columns-columns_of :
      (rows : List (Interval W))
      → let c = columns_of rows in zip_columns c.vrms c.mins c.maxs c.timestamps ≡ rows
  unfolding zip_columns
  zip_columns-columns_of [] = refl
  zip_columns-columns_of (r ∷ rows) = ap (◌∷◌ r) (zip_columns-columns_of rows)

module _ {W : Type 0} ⦃fl : Float W⦄ (scale : W) (h : Header) (zs : List ℤ) where
  -- The stamps of a chunk lie between its first and its last.
  stamps_from :
      (left i : ℕ)
      → i + left ≤ h.count
      → All (λ r. (h.ts ≤ r.stamp) × (r.stamp ≤ chunk_end h)) (intervals_from scale h zs left i)
  unfolding intervals_from chunk_end
  stamps_from zero i m = tt
  stamps_from (suc left) i m =
      let before_end : i * bucket_ns h.rate ≤ (h.count - 1) * bucket_ns h.rate =
        mul-le-mul (omega arith) (le_refl (bucket_ns h.rate)) in
      (omega (arith, stamp-interval_at scale h zs i), stamps_from left (i + 1) (omega arith))

  pub chunk_stamps :
      All (λ r. (h.ts ≤ r.stamp) × (r.stamp ≤ chunk_end h)) (chunk_intervals scale h zs)
  unfolding chunk_intervals
  chunk_stamps = stamps_from h.count 0 (omega arith)

pub chunk_end-ge : (h : Header) → h.ts ≤ chunk_end h
unfolding chunk_end
chunk_end-ge h = omega arith
