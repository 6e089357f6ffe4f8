-- ===== src/History/Display/Envelope.antt =====
-- history_service.py: the waveform envelope through `_bucket_intervals`.
use pika_pika.Prelude.{
  ℕ, zero, suc, ◌*◌, ◌≤◌, ◌<◌, ◌≡◌, ◌⊎◌, inl, inr, refl, sym, subst, true, Bool-cases, some, List,
  [], ◌∷◌, map, arith, length, length-drop, take, drop, take-append-drop, All, All-append,
  All-weaken, All-both, All-take, All-drop,
}
use pika_pika.Prelude.Int.{pos}
use pika_pika.Float.{Float, IsOrdered, IsNumber, min_from, max_from}
use pika_pika.History.Format.{Interval}
use pika_pika.History.Parse.{columns_of}
use pika_pika.History.Display.{ceil_div, bucket_intervals}
use pika_pika.History.Display.Groups.{
  groups, summary, ceil_div-covers, ceil_div-pos, bucket_intervals-groups,
}

-- Some drawn row encloses the waveform of a measured interval.
abbrev pub Encloses : {W : Type 0} ⦃fl : Float W⦄ → List (Interval W) → Interval W → Type 0
Encloses [] r = ⊥
Encloses ⦃fl⦄ (s ∷ drawn) r =
    ((fl.le s.low r.low ≡ true) × (fl.le r.high s.high ≡ true)) ⊎ Encloses drawn r

-- Neither end of an interval's waveform is NaN.
abbrev pub IsMeasured : {W : Type 0} ⦃fl : Float W⦄ → Interval W → Type 0
IsMeasured r = IsNumber r.low × IsNumber r.high

module _ {W : Type 0} ⦃fl : Float W⦄ where
  -- No item is below `m`, or none above.
  abbrev Below : W → List W → Type 0
  Below m xs = All (λ x. fl.le m x ≡ true) xs

  abbrev Above : W → List W → Type 0
  Above m xs = All (λ x. fl.le x m ≡ true) xs

module _ {W : Type 0} ⦃fl : Float W⦄ (laws : IsOrdered W) where
  min_from-Below :
      (best : W) (xs : List W)
      → IsNumber best
      → All IsNumber xs
      → Below (min_from best xs) (best ∷ xs)
  unfolding min_from
  min_from-Below best [] k ks = (k, tt)
  min_from-Below best (x ∷ xs) b (k, ks) = elim (Bool-cases (fl.lt x best)) [
    | inl e ↦
        let (low, rest) = min_from-Below x xs k ks in
        let same : min_from best (x ∷ xs) ≡ min_from x xs = rw e refl in
        subst (λ m. Below m (best ∷ x ∷ xs)) (sym same)
          (laws.le-le _ x best low (laws.lt-le x best e), (low, rest))
    | inr e ↦
        let (low, rest) = min_from-Below best xs b ks in
        let above : fl.le best x ≡ true = ground (arith, laws.lt_or_le x best (k, b)) in
        let same : min_from best (x ∷ xs) ≡ min_from best xs = rw e refl in
        subst (λ m. Below m (best ∷ x ∷ xs)) (sym same) (low, (laws.le-le _ best x low above, rest))
  ]

  max_from-Above :
      (best : W) (xs : List W)
      → IsNumber best
      → All IsNumber xs
      → Above (max_from best xs) (best ∷ xs)
  unfolding max_from
  max_from-Above best [] k ks = (k, tt)
  max_from-Above best (x ∷ xs) b (k, ks) = elim (Bool-cases (fl.lt best x)) [
    | inl e ↦
        let (high, rest) = max_from-Above x xs k ks in
        let same : max_from best (x ∷ xs) ≡ max_from x xs = rw e refl in
        subst (λ m. Above m (best ∷ x ∷ xs)) (sym same)
          (laws.le-le best x _ (laws.lt-le best x e) high, (high, rest))
    | inr e ↦
        let (high, rest) = max_from-Above best xs b ks in
        let below : fl.le x best ≡ true = ground (arith, laws.lt_or_le best x (b, k)) in
        let same : max_from best (x ∷ xs) ≡ max_from best xs = rw e refl in
        subst (λ m. Above m (best ∷ x ∷ xs)) (sym same)
          (high, (laws.le-le x best _ below high, rest))
  ]

  All-of_map :
      {A : Type 0} (f : A → W) (P : W → Type 0) (xs : List A)
      → All P (map f xs)
      → All (λ x. P (f x)) xs
  All-of_map f P [] h = tt
  All-of_map f P (x ∷ xs) (h, hs) = (h, All-of_map f P xs hs)

  All-map :
      {A : Type 0} (f : A → W) (P : W → Type 0) (xs : List A)
      → All (λ x. P (f x)) xs
      → All P (map f xs)
  All-map f P [] h = tt
  All-map f P (x ∷ xs) (h, hs) = (h, All-map f P xs hs)

  summary-encloses :
      (g : List (Interval W))
      → All IsMeasured g
      → All (λ r. (fl.le (summary g).low r.low ≡ true) × (fl.le r.high (summary g).high ≡ true)) g
  unfolding summary
  summary-encloses [] h = tt
  summary-encloses (r ∷ g) ((a, b), h) =
      let lows =
        All-map (λ s. s.low) IsNumber g
          (All-weaken IsMeasured (λ s. IsNumber s.low) g (λ s k. k.0) h) in
      let highs =
        All-map (λ s. s.high) IsNumber g
          (All-weaken IsMeasured (λ s. IsNumber s.high) g (λ s k. k.1) h) in
      let low = min_from-Below r.low (map (λ s. s.low) g) a lows in
      let high = max_from-Above r.high (map (λ s. s.high) g) b highs in
      (
        (low.0, high.0),
        All-both (λ s. fl.le (min_from r.low (map (λ s. s.low) g)) s.low ≡ true)
            (λ s. fl.le s.high (max_from r.high (map (λ s. s.high) g)) ≡ true) g
            (All-of_map (λ s. s.low) (λ x. fl.le (min_from r.low (map (λ s. s.low) g)) x ≡ true) g
              low.1)
            (All-of_map (λ s. s.high) (λ x. fl.le x (max_from r.high (map (λ s. s.high) g)) ≡ true)
              g high.1),
      )

  groups-enclose :
      (bucket left : ℕ) (rows : List (Interval W))
      → length rows ≤ left * bucket
      → All IsMeasured rows
      → All (Encloses (map summary (groups bucket left rows))) rows
  unfolding groups
  groups-enclose bucket zero [] h m = tt
  groups-enclose bucket zero (r ∷ rows) h m = absurd (omega arith)
  groups-enclose bucket (suc left) rows h m =
      let g = take bucket rows in
      let drawn = summary g ∷ map summary (groups bucket left (drop bucket rows)) in
      subst (All (Encloses drawn)) (take-append-drop bucket rows) (
        All-append (Encloses drawn) g (drop bucket rows)
          (All-weaken
            (λ r. (fl.le (summary g).low r.low ≡ true) × (fl.le r.high (summary g).high ≡ true))
            (Encloses drawn) g (λ r k. inl k)
            (summary-encloses g (All-take IsMeasured bucket rows m)))
          (All-weaken (Encloses (map summary (groups bucket left (drop bucket rows))))
            (Encloses drawn) (drop bucket rows) (λ r k. inr k)
            (groups-enclose bucket left (drop bucket rows) (omega (arith, length-drop bucket rows))
              (All-drop IsMeasured bucket rows m))))

  -- If no waveform end of the intervals is NaN and there are more intervals than the positive limit,
  -- `_bucket_intervals` returns rows, and the envelope of each interval lies within that of some
  -- drawn row.
  pub bucket_intervals-Encloses :
      (rows : List (Interval W)) (d : ℕ)
      → 0 < d
      → d < length rows
      → All IsMeasured rows
      → (drawn : List (Interval W)) × (bucket_intervals (columns_of rows) (pos d)
          ≡ some (columns_of drawn))
        × All (Encloses drawn) rows
  bucket_intervals-Encloses rows d h over m =
      let bucket = ceil_div (length rows) d in
      let left = ceil_div (length rows) bucket in
      (
        map summary (groups bucket left rows),
        bucket_intervals-groups rows d h over,
        groups-enclose bucket left rows
            (ceil_div-covers (length rows) bucket (ceil_div-pos (length rows) d h (omega arith))) m,
      )
