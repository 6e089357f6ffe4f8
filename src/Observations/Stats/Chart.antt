-- ===== src/Observations/Stats/Chart.antt =====
-- observation_service.py: `_median` and `_chart_intervals`.
use pika_pika.Prelude.{
  ℕ, zero, suc, ◌*◌, ◌-◌, ◌/◌, ◌%◌, ◌<◌, ◌≡◌, refl, ap, ◌∙◌, inl, inr, true, false, Bool-cases,
  some, List, [], ◌∷◌, map, arith, length, length-map, length-drop, take, drop, All, All-take,
  All-drop, leb, ◌==◌, get_elem?, sort_by, length-sort_by,
}
use pika_pika.Prelude.Int.{pos, leb_ℤ}
use pika_pika.Float.{Float}
use pika_pika.History.Format.{Interval, Columns}
use pika_pika.History.Parse.{columns_of}
use pika_pika.History.Display.{ceil_div, bucket_intervals}
use pika_pika.History.Display.Groups.{
  last_stamp, groups, summary, ceil_div-lt, ceil_div-pos, bucket_intervals-groups,
}
use pika_pika.Observations.Stats.{median, middle, rounded, rounded_option, chart_intervals}

get_elem?-inside :
    {A : Type 0} (xs : List A) (i : ℕ) → i < length xs → (x : A) × (get_elem? xs i ≡ some x)
get_elem?-inside [] i h = absurd (omega arith)
get_elem?-inside (x ∷ xs) zero h = (x, refl)
get_elem?-inside (x ∷ xs) (suc i) h = get_elem?-inside xs i (omega arith)

module _ {W : Type 0} ⦃fl : Float W⦄ where
  middle_exists :
      (n : ℕ) (ordered : List W)
      → length ordered ≡ n
      → 0 < n
      → (m : W) × (middle n ordered ≡ some m)
  unfolding middle
  middle_exists n ordered same h =
      let (x, e) = get_elem?-inside ordered (n / 2 - 1) (omega arith) in
      let (y, e') = get_elem?-inside ordered (n / 2) (omega arith) in
      elim (Bool-cases (n % 2 == 0)) [
        | inl even ↦ (fl.div (fl.add x y) (fl.of_int (pos 2)), rw even (cc))
        | inr odd ↦ (y, rw odd e')
      ]

  pub median_exists : (x : W) (xs : List W) → (m : W) × (median (x ∷ xs) ≡ some m)
  unfolding median
  median_exists x xs =
      middle_exists (length (x ∷ xs)) (sort_by fl.lt (x ∷ xs)) (length-sort_by fl.lt (x ∷ xs))
        (omega arith)

  -- With a positive cap `_chart_intervals` draws what `_bucket_intervals` draws, each number rounded to
  -- two digits; if one raises an exception, so does the other.
  pub chart_intervals-bucket_intervals :
      (c : Columns W) (cap : ℕ)
      → 0 < cap
      → chart_intervals c cap ≡ rounded_option (bucket_intervals c (pos cap))
  unfolding chart_intervals bucket_intervals
  chart_intervals-bucket_intervals c cap h =
      let positive : leb_ℤ (pos cap) (pos 0) ≡ false = ground arith in
      elim (Bool-cases (leb (length c.vrms) cap)) [
        | inl e ↦
            let few : leb_ℤ (pos (length c.vrms)) (pos cap) ≡ true = ground arith in
            rw (positive, few, e) refl
        | inr e ↦
            let many : leb_ℤ (pos (length c.vrms)) (pos cap) ≡ false = ground arith in
            rw (positive, many, e) refl
      ]

  last_stamp-All :
      (P : ℕ → Type 0) (t : ℕ) (rows : List (Interval W))
      → P t
      → All (λ r. P r.stamp) rows
      → P (last_stamp t rows)
  unfolding last_stamp
  last_stamp-All P t [] h hs = h
  last_stamp-All P t (r ∷ rows) h (k, ks) = last_stamp-All P r.stamp rows k ks

  summary-stamp :
      (P : ℕ → Type 0) (bucket : ℕ) (rows : List (Interval W))
      → 0 < bucket
      → 0 < length rows
      → All (λ r. P r.stamp) rows
      → P (summary (take bucket rows)).stamp
  unfolding summary
  summary-stamp P zero rows h k hs = absurd (omega arith)
  summary-stamp P (suc b) [] h k hs = absurd (omega arith)
  summary-stamp P (suc b) (r ∷ rows) h k (p, ps) =
      last_stamp-All P r.stamp (take b rows) p (All-take (λ r. P r.stamp) b rows ps)

  groups-stamps :
      (P : ℕ → Type 0) (bucket left : ℕ) (rows : List (Interval W))
      → 0 < bucket
      → ((m : ℕ) → m < left → m * bucket < length rows)
      → All (λ r. P r.stamp) rows
      → All (λ r. P r.stamp) (map summary (groups bucket left rows))
  unfolding groups
  groups-stamps P bucket zero rows h inside hs = tt
  groups-stamps P bucket (suc left) rows h inside hs = (
    summary-stamp P bucket rows h (omega (arith, inside 0 (omega arith))) hs,
    groups-stamps P bucket left (drop bucket rows) h
        (λ m k. omega (arith, inside (suc m) (omega arith), length-drop bucket rows))
        (All-drop (λ r. P r.stamp) bucket rows hs),
  )

  All-stamps :
      (P : ℕ → Type 0) (rows : List (Interval W))
      → All (λ r. P r.stamp) rows
      → All P (map (λ r. r.stamp) rows)
  All-stamps P [] h = tt
  All-stamps P (r ∷ rows) (h, hs) = (h, All-stamps P rows hs)

  pub full_intervals-stamps :
      (P : ℕ → Type 0) (rows : List (Interval W))
      → All (λ r. P r.stamp) rows
      → All P (rounded (columns_of rows)).timestamps
  full_intervals-stamps P rows hs = All-stamps P rows hs

  -- The chart of rows exists, and takes its times from them.
  pub chart_intervals-stamps :
      (P : ℕ → Type 0) (rows : List (Interval W)) (cap : ℕ)
      → 0 < cap
      → All (λ r. P r.stamp) rows
      → (c : Columns W) × (chart_intervals (columns_of rows) cap ≡ some c) × All P c.timestamps
  unfolding chart_intervals
  chart_intervals-stamps P rows cap h hs =
      let n = length rows in
      elim (Bool-cases (leb n cap)) [
        | inl e ↦
            let e' : leb (length (map (λ (r : Interval W). r.vrms) rows)) cap ≡ true =
              ap (λ k. leb k cap) (length-map (λ (r : Interval W). r.vrms) rows) ∙ e in
            (rounded (columns_of rows), rw e' refl, All-stamps P rows hs)
        | inr e ↦
            let bucket = ceil_div n cap in
            let some_rows : 0 < bucket = ceil_div-pos n cap h (ground arith) in
            let left = ceil_div n bucket in
            let drawn = map summary (groups bucket left rows) in
            (
              rounded (columns_of drawn),
              chart_intervals-bucket_intervals (columns_of rows) cap h
                  ∙ ap rounded_option (bucket_intervals-groups rows cap h (ground arith)),
              All-stamps P drawn (
                  groups-stamps P bucket left rows some_rows
                    (λ m k. ceil_div-lt n bucket m some_rows k) hs),
            )
      ]
