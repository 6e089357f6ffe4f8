-- ===== src/Scope/Payload.antt =====
-- shared_memory.py: how many samples `get_window` sends.
use pika_pika.Prelude.{
  ℕ, zero, suc, ◌+◌, ◌*◌, ◌-◌, ◌/◌, ◌<◌, ◌≡◌, refl, false, Bool-cases, inl, inr, some, List, [],
  ◌∷◌, map, arith, length, length-map, ltb, ltb→lt, ◌==◌,
}
use native.Mathlib.Nat.{add-div_right, div-lt_iff_lt-mul, div-eq_of_lt}
use pika_pika.Prelude.Int.{ℤ}
use pika_pika.Float.{Float}
use pika_pika.Scope.{
  Shared, Measured, every, req_samples_of, raw_window, max_points, decimate, without_mean, measure,
  get_window,
}

-- After `skip` items, one of each `step` items.
length-every :
    {A : Type 0} (skip step : ℕ) (xs : List A)
    → 0 < step
    → length (every skip step xs) ≡ (length xs + step - 1 - skip) / step
unfolding every
length-every skip step [] h = grind (arith, div-eq_of_lt)
length-every zero step (x ∷ xs) h =
    let rest = length-every (step - 1) step xs h in
    let same : length xs + step - 1 - (step - 1) ≡ length xs = omega arith in
    let next : suc (length xs) + step - 1 - 0 ≡ length xs + step = omega arith in
    rw (rest, same, next, add-div_right (length xs) h) (omega arith)
length-every (suc skip) step (x ∷ xs) h =
    let rest = length-every skip step xs h in
    let same : suc (length xs) + step - 1 - suc skip ≡ length xs + step - 1 - skip = omega arith in
    rw (rest, same) refl

stride_bound :
    (n : ℕ)
    → 2000 < n
    → let stride = n / 2000 in (0 < stride) × ((n + stride - 1 - 0) / stride < 4000)
stride_bound n h =
    let stride = n / 2000 in
    let positive : 0 < stride = omega arith in
    let below : n < 2000 * stride + 2000 = omega arith in
    (positive, grind (arith, positive, below, div-lt_iff_lt-mul))

length-decimate : {A : Type 0} (xs : List A) → length (decimate xs) < 4000
unfolding decimate
length-decimate xs = elim (Bool-cases (ltb max_points (length xs))) [
  | inr e ↦ rw e (ground arith)
  | inl e ↦
      let (positive, few) = stride_bound (length xs) (ltb→lt max_points (length xs) e) in
      rw (e, length-every 0 (length xs / 2000) xs positive) few
]

module _ {W : Type 0} ⦃fl : Float W⦄ (adc_vref full_scale scale : W) where
  -- With at least one channel `get_window` answers, for every request and whatever the buffer holds,
  -- with fewer than 4000 samples.
  pub get_window-length :
      (shm : Shared) (requested : ℤ) (channel : ℕ) (old : Measured W)
      → 0 < shm.channels
      → (sent : List W) × (kept : Measured W) × (get_window adc_vref full_scale scale shm requested
            channel old
          ≡ some (sent, kept))
        × (length sent < 4000)
  unfolding get_window without_mean
  get_window-length shm requested channel old h =
      let ch_raw = every channel shm.channels (raw_window shm (req_samples_of shm requested)) in
      let ac = without_mean (decimate ch_raw) in
      let fits : length (map (λ x. fl.round (fl.mul x scale) 2) ac) < 4000 = omega (
        arith,
        length-map (λ x. fl.round (fl.mul x scale) 2) ac,
        length_without_mean (decimate ch_raw),
        length-decimate ch_raw,
      ) in
      let some_channel : shm.channels == 0 ≡ false = ground arith in
      elim (Bool-cases (shm.total_samples == 0)) [
        | inl e ↦ ([], old, rw e refl, omega arith)
        | inr e ↦ elim (Bool-cases (req_samples_of shm requested == 0)) [
          | inl e' ↦ ([], old, rw (e, e') refl, omega arith)
          | inr e' ↦ (
            map (λ x. fl.round (fl.mul x scale) 2) ac,
            measure adc_vref full_scale old ac,
            rw (e, e', some_channel) refl,
            fits,
          )
        ]
      ]
    where
      length_without_mean : (xs : List ℤ) → length (without_mean {W = W} xs) ≡ length xs
      length_without_mean xs = length-map _ xs
