-- ===== src/Scope.antt =====
-- pika/webapp/app/services/shared_memory.py: the oscilloscope window, read from the ring buffer that
-- the datalogger keeps in shared memory.
pub mod Payload
pub mod Frames
pub mod Place
pub mod Window
mod Examples
use pika_pika.Prelude.{
  ℕ, zero, suc, ◌+◌, ◌*◌, ◌-◌, ◌/◌, ◌%◌, min, Option, none, some, List, [], ◌∷◌, ◌++◌, map, ltb,
  leb, ◌==◌, if◌then◌else◌, length, take, drop,
}
use pika_pika.Prelude.Int.{ℤ, pos, pos_part, ◌+ℤ◌}
use pika_pika.Float.{Float, of_nat, min_from, max_from}

-- The fields of `ScopeSHM` that the window uses, and the int16 samples behind the header.
pub record Shared : Type 0 where
  pub channels : ℕ
  pub capacity : ℕ
  pub total_samples : ℕ
  pub samples : List ℤ

-- `xs[skip::step]`, for a step that is not 0.
unfoldable pub every {ℓ} : {A : Type ℓ} → ℕ → ℕ → List A → List A
every skip step [] = []
every zero step (x ∷ xs) = x ∷ every (step - 1) step xs
every (suc skip) step (x ∷ xs) = every skip step xs

-- `req_samples`, given `int(rate * time_window_s)`.
unfoldable pub req_samples_of : Shared → ℤ → ℕ
req_samples_of shm requested = min (min (pos_part requested) shm.capacity) shm.total_samples

-- `raw`: one slice, or two around the end of the buffer.
unfoldable pub raw_window : Shared → ℕ → List ℤ
raw_window shm req_samples =
    let head = shm.total_samples % shm.capacity in
    let start_idx = (head + shm.capacity - req_samples) % shm.capacity in
    let part = λ (i stop : ℕ).
      take (stop * shm.channels - i * shm.channels) (drop (i * shm.channels) shm.samples) in
    if ltb start_idx head then part start_idx head else part start_idx shm.capacity ++ part 0 head

abbrev pub max_points : ℕ
max_points = 2000

-- The decimation for transmission.
unfoldable pub decimate {ℓ} : {A : Type ℓ} → List A → List A
decimate ch_raw =
    if ltb max_points (length ch_raw) then every 0 (length ch_raw / max_points) ch_raw else ch_raw

-- The measurements that the service keeps of the last window.
pub record Measured (W : Type 0) : Type 0 where
  pub last_raw_range : Option (ℤ × ℤ)
  pub last_adc_vrms : Option W
  pub last_adc_vpp : Option W
  pub last_adc_vref : W

-- `sum(ch_raw)`.
abbrev pub total : List ℤ → ℤ
total [] = pos 0
total (z ∷ zs) = z +ℤ total zs

module _ {W : Type 0} ⦃fl : Float W⦄ where
  unfoldable pub without_mean : List ℤ → List W
  without_mean ch_raw =
      let mean = fl.div (fl.of_int (total ch_raw)) (of_nat (length ch_raw)) in
      map (λ r. fl.sub (fl.of_int r) mean) ch_raw

  -- What is measured of a window without its mean; an empty window keeps the reference voltage.
  unfoldable pub measure : W → W → Measured W → List W → Measured W
  measure adc_vref full_scale old [] = record old {
    last_raw_range = none;
    last_adc_vrms = none;
    last_adc_vpp = none;
  }
  measure adc_vref full_scale old (x ∷ xs) =
      let adc_scale = fl.div adc_vref full_scale in
      let low = min_from x xs in
      let high = max_from x xs in
      let mean_sq = fl.div (fl.sum (map (λ y. fl.mul y y) (x ∷ xs))) (of_nat (length (x ∷ xs))) in
      record {
        last_raw_range = some (fl.trunc low, fl.trunc high);
        last_adc_vrms = some (fl.mul (fl.sqrt mean_sq) adc_scale);
        last_adc_vpp = some (fl.mul (fl.sub high low) adc_scale);
        last_adc_vref = adc_vref;
      }

  -- `get_window` with a connected header: the samples that are sent, and what is kept. The
  -- calibration scale and the converter's numbers come from other services. `none` is the
  -- exception of a slice whose step is 0.
  unfoldable pub get_window : W → W → W → Shared → ℤ → ℕ → Measured W → Option (List W × Measured W)
  get_window adc_vref full_scale scale shm requested channel old =
      let req_samples = req_samples_of shm requested in
      let ac = without_mean (decimate (every channel shm.channels (raw_window shm req_samples))) in
      if shm.total_samples == 0
      then some ([], old)
      else if req_samples == 0
      then some ([], old)
      else if shm.channels == 0
      then none
      else some (map (λ x. fl.round (fl.mul x scale) 2) ac, measure adc_vref full_scale old ac)
