-- ===== src/Scope/Examples.antt =====
-- Runs of the oscilloscope window on a ring of four frames, and applications of its theorems.
use pika_pika.Prelude.{
  ℕ, zero, suc, ◌-◌, ◌<◌, ◌≡◌, refl, none, some, List, [], ◌∷◌, map, arith, length, drop,
}
use pika_pika.Prelude.Int.{ℤ, pos, negsuc}
use pika_pika.Float.Fixed.{Fixed, fixed_float}
use pika_pika.Scope.{Measured, every, req_samples_of, raw_window, get_window}
use pika_pika.Scope.Payload.{get_window-length}
use pika_pika.Scope.Window.{Holds, ring, channel_of, raw_window-last}

abbrev frame : ℕ → List ℤ
frame n = pos n ∷ negsuc n ∷ []

-- Six frames arrived, the last four are kept.
abbrev frames : List (List ℤ)
frames = frame 10 ∷ frame 11 ∷ frame 12 ∷ frame 13 ∷ frame 14 ∷ frame 15 ∷ []

abbrev slots : List (List ℤ)
slots = frame 14 ∷ frame 15 ∷ frame 12 ∷ frame 13 ∷ []

around_the_end : every 0 2 (raw_window (ring 2 4 6 slots) 3) ≡ pos 13 ∷ pos 14 ∷ pos 15 ∷ []
unfolding raw_window every
around_the_end = refl

slots-Holds : Holds 4 slots frames
slots-Holds zero a b = absurd (omega arith)
slots-Holds (suc zero) a b = absurd (omega arith)
slots-Holds (suc (suc zero)) a b = refl
slots-Holds (suc (suc (suc zero))) a b = refl
slots-Holds (suc (suc (suc (suc zero)))) a b = refl
slots-Holds (suc (suc (suc (suc (suc zero))))) a b = refl
slots-Holds (suc (suc (suc (suc (suc (suc k)))))) a b = absurd (omega arith)

raw_window-last_example :
    every 0 2 (raw_window (ring 2 4 6 slots) (req_samples_of (ring 2 4 6 slots) (pos 3)))
    ≡ map (channel_of 0) (drop (6 - req_samples_of (ring 2 4 6 slots) (pos 3)) frames)
unfolding req_samples_of
raw_window-last_example =
    raw_window-last slots frames 2 4 0 (pos 3) (omega arith) (refl, (refl, (refl, (refl, tt))))
      (refl, (refl, (refl, (refl, (refl, (refl, tt)))))) refl slots-Holds (omega arith)

abbrev unmeasured : Measured Fixed
unmeasured = record {
  last_raw_range = none;
  last_adc_vrms = none;
  last_adc_vpp = none;
  last_adc_vref = some (pos 500);
}

get_window-length_example :
    (sent : List Fixed) × (kept : Measured Fixed) × (get_window
        (some (pos 500))
        (some (pos 3_276_800))
        (some (pos 2))
        (ring 2 4 6 slots)
        (pos 3)
        0
        unmeasured
      ≡ some (sent, kept))
    × (length sent < 4000)
get_window-length_example =
    get_window-length (some (pos 500)) (some (pos 3_276_800)) (some (pos 2)) (ring 2 4 6 slots)
      (pos 3) 0 unmeasured (omega arith)
