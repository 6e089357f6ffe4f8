-- ===== src/Observations/Correlate/Extremes.antt =====
-- observation_service.py: the lowest and the highest interval that `correlate` reports.
use pika_pika.Prelude.{
  ◌≡◌, refl, inl, inr, true, false, Bool, Bool-cases, List, [], ◌∷◌, arith, All, IsOneOf,
  if◌then◌else◌,
}
use pika_pika.Float.{Float, IsOrdered, IsNumber}
use pika_pika.History.Format.{Interval}
use pika_pika.Observations.Stats.{lowest, highest}
use pika_pika.Observations.Correlate.{measure_window}

module _ {W : Type 0} ⦃fl : Float W⦄ where
  IsOneOf-picked :
      (k best r : Interval W) (c : Bool) (rows : List (Interval W))
      → IsOneOf k ((if c then r else best) ∷ rows)
      → IsOneOf k (best ∷ r ∷ rows)
  IsOneOf-picked k best r true rows h = inr h
  IsOneOf-picked k best r false rows (inl e) = inl e
  IsOneOf-picked k best r false rows (inr h) = inr (inr h)

  pub lowest-IsOneOf :
      (best : Interval W) (rows : List (Interval W)) → IsOneOf (lowest best rows) (best ∷ rows)
  unfolding lowest
  lowest-IsOneOf best [] = inl refl
  lowest-IsOneOf best (r ∷ rows) =
      let c = fl.lt r.vrms best.vrms in
      IsOneOf-picked _ best r c rows (lowest-IsOneOf (if c then r else best) rows)

  pub highest-IsOneOf :
      (best : Interval W) (rows : List (Interval W)) → IsOneOf (highest best rows) (best ∷ rows)
  unfolding highest
  highest-IsOneOf best [] = inl refl
  highest-IsOneOf best (r ∷ rows) =
      let c = fl.lt best.vrms r.vrms in
      IsOneOf-picked _ best r c rows (highest-IsOneOf (if c then r else best) rows)

module _ {W : Type 0} ⦃fl : Float W⦄ (laws : IsOrdered W) where
  abbrev Measured : List (Interval W) → Type 0
  Measured rows = All (λ r. IsNumber r.vrms) rows

  abbrev NoneBelow : W → List (Interval W) → Type 0
  NoneBelow v rows = All (λ r. fl.le v r.vrms ≡ true) rows

  abbrev NoneAbove : W → List (Interval W) → Type 0
  NoneAbove v rows = All (λ r. fl.le r.vrms v ≡ true) rows

  -- The better of two voltages is a number, and it is on the right side of both.
  lower :
      (r best : Interval W)
      → IsNumber r.vrms
      → IsNumber best.vrms
      → let v = (if fl.lt r.vrms best.vrms then r else best).vrms in
        IsNumber v × (fl.le v best.vrms ≡ true) × (fl.le v r.vrms ≡ true)
  lower r best k b = elim (Bool-cases (fl.lt r.vrms best.vrms)) [
    | inl e ↦ rw e (k, laws.lt-le r.vrms best.vrms e, k)
    | inr e ↦
        let above : fl.le best.vrms r.vrms ≡ true =
          ground (arith, laws.lt_or_le r.vrms best.vrms (k, b)) in
        rw e (b, b, above)
  ]

  upper :
      (r best : Interval W)
      → IsNumber r.vrms
      → IsNumber best.vrms
      → let v = (if fl.lt best.vrms r.vrms then r else best).vrms in
        IsNumber v × (fl.le best.vrms v ≡ true) × (fl.le r.vrms v ≡ true)
  upper r best k b = elim (Bool-cases (fl.lt best.vrms r.vrms)) [
    | inl e ↦ rw e (k, laws.lt-le best.vrms r.vrms e, k)
    | inr e ↦
        let below : fl.le r.vrms best.vrms ≡ true =
          ground (arith, laws.lt_or_le best.vrms r.vrms (b, k)) in
        rw e (b, b, below)
  ]

  lowest-NoneBelow :
      (best : Interval W) (rows : List (Interval W))
      → IsNumber best.vrms
      → Measured rows
      → NoneBelow (lowest best rows).vrms (best ∷ rows)
  unfolding lowest
  lowest-NoneBelow best [] k ks = (k, tt)
  lowest-NoneBelow best (r ∷ rows) b (k, ks) =
      let v = (if fl.lt r.vrms best.vrms then r else best) in
      let (number, le, le') = lower r best k b in
      let (low, rest) = lowest-NoneBelow v rows number ks in
      (laws.le-le _ v.vrms best.vrms low le, (laws.le-le _ v.vrms r.vrms low le', rest))

  highest-NoneAbove :
      (best : Interval W) (rows : List (Interval W))
      → IsNumber best.vrms
      → Measured rows
      → NoneAbove (highest best rows).vrms (best ∷ rows)
  unfolding highest
  highest-NoneAbove best [] k ks = (k, tt)
  highest-NoneAbove best (r ∷ rows) b (k, ks) =
      let v = (if fl.lt best.vrms r.vrms then r else best) in
      let (number, le, le') = upper r best k b in
      let (high, rest) = highest-NoneAbove v rows number ks in
      (laws.le-le best.vrms v.vrms _ le high, (laws.le-le r.vrms v.vrms _ le' high, rest))

  -- Comparisons away from NaN are a total order, and no voltage of the window is NaN. Then the
  -- lowest voltage and its time, as they are reported, are those of an interval of the window, rounded to two digits, and no
  -- interval's voltage is below that interval's; the highest ones in the same way.
  pub measure_window-extremes :
      (nominal median : W) (r : Interval W) (rows : List (Interval W))
      → All (λ i. IsNumber i.vrms) (r ∷ rows)
      → let m = measure_window nominal median r rows in
        (low : Interval W) × (high : Interval W) × IsOneOf low (r ∷ rows)
        × IsOneOf high (r ∷ rows)
        × (m.lowest_vrms_v ≡ fl.round low.vrms 2)
        × (m.lowest_vrms_ns ≡ low.stamp)
        × (m.highest_vrms_v ≡ fl.round high.vrms 2)
        × (m.highest_vrms_ns ≡ high.stamp)
        × All (λ i. fl.le low.vrms i.vrms ≡ true) (r ∷ rows)
        × All (λ i. fl.le i.vrms high.vrms ≡ true) (r ∷ rows)
  unfolding measure_window
  measure_window-extremes nominal median r rows (k, ks) = (
    lowest r rows,
    highest r rows,
    lowest-IsOneOf r rows,
    highest-IsOneOf r rows,
    refl,
    refl,
    refl,
    refl,
    lowest-NoneBelow r rows k ks,
    highest-NoneAbove r rows k ks,
  )
