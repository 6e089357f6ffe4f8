-- ===== src/Validator/Index/Ends.antt =====
-- validate_data.py: the loop of `validate_event_index`.
use pika_pika.Prelude.{
  ℕ, zero, suc, ◌+◌, ◌-◌, ◌%◌, ◌≤◌, ◌<◌, ◌≡◌, refl, inl, inr, Bool, true, false, Bool-cases, Option,
  none, some, List, arith, ltb, ◌==◌, length, length-take, length-drop, drop, done, Returns,
  Returns-bind, Returns-done,
}
use pika_pika.Float.{Float}
use pika_pika.Binary.{read}
use pika_pika.Events.{IndexFormat, v2, v3, record_size}
use pika_pika.Validator.Index.{format_of_size, records_loop, verdict, size_of, validate_event_index}

length-read_le : (f : List ℕ) (at n : ℕ) → length (read f at n) ≤ length f - at
unfolding read
length-read_le f at n = omega (arith, length-take n (drop at f), length-drop at f)

record_size-pos : (fmt : IndexFormat) → 0 < record_size fmt
record_size-pos v2 = omega arith
record_size-pos v3 = omega arith

module _ (W : Type 0) ⦃fl : Float W⦄ where
  records_loop_ends :
      (fmt : IndexFormat) (f : List ℕ) (fuel i at : ℕ)
      → at ≤ length f
      → length f < fuel + at
      → Returns (records_loop {W = W} fmt f fuel i at) (λ p. Unit)
  unfolding records_loop
  records_loop_ends fmt f zero i at low h = absurd (omega arith)
  records_loop_ends fmt f (suc fuel) i at low h =
      let n = record_size fmt in
      let some_bytes = record_size-pos fmt in
      elim (Bool-cases (length (read f at n) == 0)) [
        | inl a ↦ rw a tt
        | inr a ↦ elim (Bool-cases (ltb (length (read f at n)) n)) [
          | inl b ↦ rw (a, b) tt
          | inr b ↦
              let whole : n ≤ length (read f at n) = ground arith in
              let inside : at + n ≤ length f = omega (arith, whole, length-read_le f at n) in
              rw (a, b)
                (Returns-bind (records_loop {W = W} fmt f fuel (suc i) (at + n)) _ (λ p. Unit)
                  (λ p. Unit)
                  (records_loop_ends fmt f fuel (suc i) (at + n) inside (omega (arith, some_bytes)))
                  (λ p u. tt))
        ]
      ]

  -- The loop over the records ends, whatever bytes the index holds.
  validate_event_index_ends :
      (index events : Option (List ℕ))
      → (passed : Bool) × (validate_event_index W index events ≡ done passed)
  unfolding validate_event_index
  validate_event_index_ends none events = (false, refl)
  validate_event_index_ends (some f) events = elim (Bool-cases (length f == 0)) [
    | inl e ↦ (true, rw e refl)
    | inr e ↦
        let fmt = format_of_size (length f) in
        let (p, run, u) =
          Returns-done (records_loop {W = W} fmt f (suc (length f)) 0 0) (λ p. Unit)
            (records_loop_ends fmt f (suc (length f)) 0 0 (omega arith) (omega arith)) in
        (verdict (length f % record_size fmt == 0) (size_of events) p, rw (e, run) refl)
  ]
