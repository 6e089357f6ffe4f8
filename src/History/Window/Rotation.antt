-- ===== src/History/Window/Rotation.antt =====
-- A window that spans a rotation of the trend file: decimated.bin.old and decimated.bin together.
use pika_pika.Prelude.{
  keep-append, ℕ, zero, suc, ◌+◌, ◌*◌, ◌/◌, ◌≤◌, ◌<◌, ◌≡◌, refl, sym, ap, ◌∙◌, inl, inr, Bool, true,
  false, Bool-cases, some, List, [], ◌∷◌, ◌++◌, arith, leb, All, All-append, All-weaken, All-both,
  keep, done,
}
use pika_pika.Prelude.Int.{ℤ, ltb_ℤ, ◌≤ℤ◌}
use pika_pika.Float.{Float}
use pika_pika.History.Format.{Header, valid_header, bucket_ns, Interval, interval_at, chunk_end}
use pika_pika.History.Rows.{intervals_from, chunk_intervals, stamp-interval_at}
use pika_pika.History.Written.{Chunk, written, IsSound, valid_header-Bounds}
use pika_pika.History.Parse.Written.{intervals}
use pika_pika.History.Parse.Tail.{IsTypical, All-IsSound, intervals-append}
use pika_pika.History.Window.{
  insert_row, sort_rows, contains, dedupe, interval_payload, intervals_between,
}
use pika_pika.History.Window.Times.{InTime, chunk_stamps}
use pika_pika.History.Window.Exact.{inside}
use pika_pika.History.Window.Whole.{intervals_in_file-written}

-- Rows whose times increase strictly.
abbrev Strict : {W : Type 0} → List (Interval W) → Type 0
Strict [] = Unit
Strict (r ∷ rows) = All (λ s. r.stamp < s.stamp) rows × Strict rows

module _ {W : Type 0} where
  Strict-append :
      (m : ℕ) (xs ys : List (Interval W))
      → Strict xs
      → Strict ys
      → All (λ r. r.stamp ≤ m) xs
      → All (λ r. m < r.stamp) ys
      → Strict (xs ++ ys)
  Strict-append m [] ys sx sy low high = sy
  Strict-append m (x ∷ xs) ys (later, sx) sy (lx, low) high = (
    All-append (λ s. x.stamp < s.stamp) xs ys later
        (All-weaken (λ r. m < r.stamp) (λ s. x.stamp < s.stamp) ys (λ s h. omega arith) high),
    Strict-append m xs ys sx sy low high,
  )

  All-keep :
      (P : Interval W → Type 0) (p : Interval W → Bool) (rows : List (Interval W))
      → All P rows
      → All P (keep p rows)
  All-keep P p [] h = tt
  All-keep P p (r ∷ rows) (h, hs) = elim (Bool-cases (p r)) [
    | inl e ↦ rw e (h, All-keep P p rows hs)
    | inr e ↦ rw e (All-keep P p rows hs)
  ]

  Strict-keep :
      (p : Interval W → Bool) (rows : List (Interval W)) → Strict rows → Strict (keep p rows)
  Strict-keep p [] s = tt
  Strict-keep p (r ∷ rows) (later, s) = elim (Bool-cases (p r)) [
    | inl e ↦ rw e (All-keep (λ t. r.stamp < t.stamp) p rows later, Strict-keep p rows s)
    | inr e ↦ rw e (Strict-keep p rows s)
  ]

  -- Sorting such rows changes nothing, and there is nothing to drop.
  insert_row-least :
      (r : Interval W) (rows : List (Interval W))
      → All (λ s. r.stamp < s.stamp) rows
      → insert_row r rows ≡ r ∷ rows
  unfolding insert_row
  insert_row-least r [] h = refl
  insert_row-least r (s ∷ rows) (h, hs) = let e : leb r.stamp s.stamp ≡ true = ground arith in rw e

  sort_rows-Strict : (rows : List (Interval W)) → Strict rows → sort_rows rows ≡ rows
  unfolding sort_rows
  sort_rows-Strict [] s = refl
  sort_rows-Strict (r ∷ rows) (later, s) =
      ap (insert_row r) (sort_rows-Strict rows s) ∙ insert_row-least r rows later

  dedupe-Strict :
      (seen : List ℕ) (rows : List (Interval W))
      → Strict rows
      → All (λ r. contains r.stamp seen ≡ false) rows
      → dedupe seen rows ≡ rows
  unfolding dedupe contains
  dedupe-Strict seen [] s h = refl
  dedupe-Strict seen (r ∷ rows) (later, s) (h, hs) =
      rw (h, dedupe)
        (ap (◌∷◌ r) (
          dedupe-Strict (r.stamp ∷ seen) rows s (
            All-weaken (λ t. (r.stamp < t.stamp) × (contains t.stamp seen ≡ false))
              (λ t. contains t.stamp (r.stamp ∷ seen) ≡ false) rows (λ t h. ground arith)
              (All-both (λ t. r.stamp < t.stamp) (λ t. contains t.stamp seen ≡ false) rows later
                hs))))

  none_seen : (rows : List (Interval W)) → All (λ r. contains r.stamp [] ≡ false) rows
  unfolding contains
  none_seen [] = tt
  none_seen (r ∷ rows) = (refl, none_seen rows)

quotient_pos : (r : ℕ) → 1 ≤ r → r ≤ 200_000 → 1 ≤ 1_000_000_000 / r
quotient_pos r low high = grind arith

bucket_ns-pos : (h : Header) → valid_header h ≡ true → 1 ≤ bucket_ns h.rate
unfolding bucket_ns
bucket_ns-pos h e =
    let b = valid_header-Bounds h e in ground (arith, quotient_pos h.rate b.rate_ge b.rate_le)

All-left : (P : Chunk → Type 0) (xs ys : List Chunk) → All P (xs ++ ys) → All P xs
All-left P [] ys h = tt
All-left P (x ∷ xs) ys (h, hs) = (h, All-left P xs ys hs)

InTime-left : (xs ys : List Chunk) → InTime (xs ++ ys) → InTime xs
InTime-left [] ys order = tt
InTime-left (x ∷ xs) ys (later, order) =
    (All-left (λ d. chunk_end x.header < d.header.ts) xs ys later, InTime-left xs ys order)

InTime-right : (xs ys : List Chunk) → InTime (xs ++ ys) → InTime ys
InTime-right [] ys order = order
InTime-right (x ∷ xs) ys (later, order) = InTime-right xs ys order

module _ {W : Type 0} ⦃fl : Float W⦄ (scale : W) where
  chunk_rows-Strict :
      (h : Header) (zs : List ℤ) (left i : ℕ)
      → 1 ≤ bucket_ns h.rate
      → Strict (intervals_from scale h zs left i)
        × All (λ r. h.ts + i * bucket_ns h.rate ≤ r.stamp) (intervals_from scale h zs left i)
  unfolding intervals_from
  chunk_rows-Strict h zs zero i b = (tt, tt)
  chunk_rows-Strict h zs (suc left) i b =
      let (strict, low) = chunk_rows-Strict h zs left (i + 1) b in
      let step : h.ts + i * bucket_ns h.rate < h.ts + (i + 1) * bucket_ns h.rate = omega arith in
      let here = stamp-interval_at scale h zs i in
      (
        (
          All-weaken (λ r. h.ts + (i + 1) * bucket_ns h.rate ≤ r.stamp)
              (λ s. (interval_at scale h zs i).stamp < s.stamp)
              (intervals_from scale h zs left (i + 1)) (λ s k. omega (arith, here, step, k)) low,
          strict,
        ),
        (
          omega (arith, here),
          All-weaken (λ r. h.ts + (i + 1) * bucket_ns h.rate ≤ r.stamp)
              (λ r. h.ts + i * bucket_ns h.rate ≤ r.stamp) (intervals_from scale h zs left (i + 1))
              (λ r k. omega (arith, step, k)) low,
        ),
      )

  -- The rows of chunks in time increase strictly, and lie after whatever the chunks lie after.
  intervals-after :
      (m : ℕ) (cs : List Chunk)
      → All (λ c. m < c.header.ts) cs
      → All (λ r. m < r.stamp) (intervals scale cs)
  unfolding intervals
  intervals-after m [] h = tt
  intervals-after m (c ∷ cs) (h, hs) =
      All-append (λ r. m < r.stamp) (chunk_intervals scale c.header c.values) (intervals scale cs)
        (All-weaken (λ r. (c.header.ts ≤ r.stamp) × (r.stamp ≤ chunk_end c.header))
          (λ r. m < r.stamp) (chunk_intervals scale c.header c.values) (λ r b. omega arith)
          (chunk_stamps scale c.header c.values))
        (intervals-after m cs hs)

  intervals-Strict : (cs : List Chunk) → All IsSound cs → InTime cs → Strict (intervals scale cs)
  unfolding intervals chunk_intervals
  intervals-Strict [] sound order = tt
  intervals-Strict (c ∷ cs) (s, sound) (later, order) =
      Strict-append (chunk_end c.header) (chunk_intervals scale c.header c.values)
        (intervals scale cs)
        (chunk_rows-Strict c.header c.values c.header.count 0
          (bucket_ns-pos c.header s.plausible)).0
        (intervals-Strict cs sound order)
        (All-weaken (λ r. (c.header.ts ≤ r.stamp) × (r.stamp ≤ chunk_end c.header))
          (λ r. r.stamp ≤ chunk_end c.header) (chunk_intervals scale c.header c.values) (λ r b. b.1)
          (chunk_stamps scale c.header c.values))
        (intervals-after (chunk_end c.header) cs later)

  -- If both trend files hold typical chunks, each of which ends before the next begins, also across
  -- the rotation, then `intervals_between` returns, for a window that is not empty, exactly the
  -- intervals of the two files whose times lie in the window, in order and rounded.
  pub intervals_between-written :
      (old new : List Chunk) (start_ns end_ns : ℤ)
      → All IsTypical old
      → All IsTypical new
      → InTime (old ++ new)
      → start_ns ≤ℤ end_ns
      → intervals_between scale (some (written old)) (some (written new)) start_ns end_ns
        ≡ done (interval_payload (keep (inside start_ns end_ns) (intervals scale (old ++ new))))
  unfolding intervals_between
  intervals_between-written old new start_ns end_ns to tn order o =
      let p = inside start_ns end_ns in
      let rows = keep p (intervals scale (old ++ new)) in
      let sound = All-append IsSound old new (All-IsSound old to) (All-IsSound new tn) in
      let strict =
        Strict-keep p (intervals scale (old ++ new)) (intervals-Strict (old ++ new) sound order) in
      let merged : keep p (intervals scale old) ++ keep p (intervals scale new) ≡ rows =
        sym (keep-append p (intervals scale old) (intervals scale new))
        ∙ ap (keep p) (sym (intervals-append scale old new)) in
      let forward : ltb_ℤ end_ns start_ns ≡ false = ground arith in
      rw (
        forward,
        intervals_in_file-written scale start_ns end_ns old to (InTime-left old new order),
        intervals_in_file-written scale start_ns end_ns new tn (InTime-right old new order),
        merged,
        sort_rows-Strict rows strict,
        dedupe-Strict [] rows strict (none_seen rows),
      )
