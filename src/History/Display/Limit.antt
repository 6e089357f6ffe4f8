-- ===== src/History/Display/Limit.antt =====
-- history_service.py: the number of points that `_bucket_intervals` draws, and the last of them.
use pika_pika.Prelude.{
  ℕ, zero, suc, ◌*◌, ◌≤◌, ◌<◌, ◌≡◌, refl, sym, ap, ◌∙◌, true, Bool-cases, inl, inr, some, List, [],
  ◌∷◌, ◌++◌, map, arith, length, length-map, length-drop, take, drop, take-append-drop, ltb, ltb→lt,
}
use pika_pika.Prelude.Int.{pos, leb_ℤ}
use pika_pika.Float.{Float}
use pika_pika.History.Format.{Interval}
use pika_pika.History.Parse.{columns_of}
use pika_pika.History.Display.{ceil_div, bucket_intervals}
use pika_pika.History.Display.Groups.{
  last_stamp, groups, summary, ceil_div-lt, ceil_div-pos, ceil_div-covers, ceil_div-ceil_div-le,
  bucket_intervals-groups,
}

module _ {W : Type 0} ⦃fl : Float W⦄ where
  length-groups :
      (bucket left : ℕ) (rows : List (Interval W)) → length (groups bucket left rows) ≡ left
  unfolding groups
  length-groups bucket zero rows = refl
  length-groups bucket (suc left) rows = ap suc (length-groups bucket left (drop bucket rows))

  last_stamp-append :
      (t : ℕ) (xs ys : List (Interval W))
      → last_stamp t (xs ++ ys) ≡ last_stamp (last_stamp t xs) ys
  unfolding last_stamp
  last_stamp-append t [] ys = refl
  last_stamp-append t (x ∷ xs) ys = last_stamp-append x.stamp xs ys

  stamp-summary :
      (t bucket : ℕ) (rows : List (Interval W))
      → 0 < bucket
      → 0 < length rows
      → (summary (take bucket rows)).stamp ≡ last_stamp t (take bucket rows)
  unfolding summary last_stamp
  stamp-summary t zero rows h k = absurd (omega arith)
  stamp-summary t (suc b) [] h k = absurd (omega arith)
  stamp-summary t (suc b) (r ∷ rows) h k = refl

  last_stamp-groups :
      (t bucket left : ℕ) (rows : List (Interval W))
      → 0 < bucket
      → length rows ≤ left * bucket
      → ((m : ℕ) → m < left → m * bucket < length rows)
      → last_stamp t (map summary (groups bucket left rows)) ≡ last_stamp t rows
  unfolding groups last_stamp
  last_stamp-groups t bucket zero [] h all inside = refl
  last_stamp-groups t bucket zero (r ∷ rows) h all inside = absurd (omega arith)
  last_stamp-groups t bucket (suc left) rows h all inside =
      let g = take bucket rows in
      let rest = drop bucket rows in
      let stop = (summary g).stamp in
      let later : (m : ℕ) → m < left → m * bucket < length rest =
        λ m k. omega (arith, inside (suc m) (omega arith), length-drop bucket rows) in
      last_stamp-groups stop bucket left rest h (omega (arith, all, length-drop bucket rows)) later
      ∙ ap (λ s. last_stamp s rest)
          (stamp-summary t bucket rows h (omega (arith, inside 0 (omega arith))))
      ∙ sym (last_stamp-append t g rest)
      ∙ ap (last_stamp t) (take-append-drop bucket rows)

  bucket_intervals-few :
      (rows : List (Interval W)) (d : ℕ)
      → length rows ≤ d
      → bucket_intervals (columns_of rows) (pos d) ≡ some (columns_of rows)
  unfolding bucket_intervals
  bucket_intervals-few rows d h =
      let all : leb_ℤ (pos (length rows)) (pos d) ≡ true = ground arith in
      elim (Bool-cases (leb_ℤ (pos d) (pos 0))) [
        | inl e ↦ rw (length-map (λ (r : Interval W). r.vrms) rows, e) refl
        | inr e ↦ rw (length-map (λ (r : Interval W). r.vrms) rows, e, all) refl
      ]

  -- With a positive limit `_bucket_intervals` returns rows, as many as the limit at most, and the
  -- time of the last row is the time of the last interval. The lists that it takes are of one length.
  pub bucket_intervals-limit :
      (rows : List (Interval W)) (d t : ℕ)
      → 0 < d
      → (drawn : List (Interval W)) × (bucket_intervals (columns_of rows) (pos d)
          ≡ some (columns_of drawn))
        × (length drawn ≤ d)
        × (last_stamp t drawn ≡ last_stamp t rows)
  bucket_intervals-limit rows d t h = elim (Bool-cases (ltb d (length rows))) [
    | inr e ↦ (rows, bucket_intervals-few rows d (ground arith), ground arith, refl)
    | inl e ↦
        let over = ltb→lt d (length rows) e in
        let bucket = ceil_div (length rows) d in
        let left = ceil_div (length rows) bucket in
        let some_rows = ceil_div-pos (length rows) d h (omega arith) in
        let drawn = map summary (groups bucket left rows) in
        (
          drawn,
          bucket_intervals-groups rows d h over,
          omega (
            arith,
            length-map summary (groups bucket left rows),
            length-groups bucket left rows,
            ceil_div-ceil_div-le (length rows) d h (omega arith),
          ),
          last_stamp-groups t bucket left rows some_rows
              (ceil_div-covers (length rows) bucket some_rows)
              (λ m k. ceil_div-lt (length rows) bucket m some_rows k),
        )
  ]
