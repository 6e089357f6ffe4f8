-- ===== src/Validator/Trend/Ends.antt =====
-- validate_data.py: the loop of `validate_decimated`.
use pika_pika.Prelude.{
  ℕ, zero, suc, ◌+◌, ◌*◌, ◌-◌, ◌≤◌, ◌<◌, ◌≡◌, refl, ◌⊎◌, inl, inr, false, Bool-cases, Option, none,
  some, List, [], ◌∷◌, ◌++◌, arith, ltb, ◌==◌, length, length-take, length-drop, drop, Run, done,
}
use pika_pika.Binary.{read, shorts}
use pika_pika.History.Format.{header_size, total_values}
use pika_pika.History.Seek.{header_at}
use pika_pika.Validator.Trend.{
  truncated_header, data_truncated, header_problems, add_chunk, chunks_loop, trend_verdict,
  validate_decimated,
}

length-read_le : (f : List ℕ) (at n : ℕ) → length (read f at n) ≤ length f - at
unfolding read
length-read_le f at n = omega (arith, length-take n (drop at f), length-drop at f)

-- Somewhere in the file, 24 bytes that are read as a header ask for more than can be read at once.
abbrev pub AsksTooMuch : ℕ → List ℕ → Type 0
AsksTooMuch limit f =
    (at : ℕ) × (at + header_size ≤ length f) × (limit < total_values (header_at f at) * 2)

-- The run ends with a result, or with an exception for which there is a reason.
abbrev pub EndsOr : {A : Type 0} → Type 0 → Run (Option A) → Type 0
EndsOr {A} Reason r = ((x : A) × (r ≡ done (some x))) ⊎ (Reason × (r ≡ done none))

module _ (limit : ℕ) (f : List ℕ) where
  chunks_loop_ends :
      (fuel i at : ℕ)
      → at ≤ length f
      → length f < fuel + at
      → EndsOr (AsksTooMuch limit f) (chunks_loop limit f fuel i at)
  unfolding chunks_loop
  chunks_loop_ends zero i at low h = absurd (omega arith)
  chunks_loop_ends (suc fuel) i at low h =
      let data_size = total_values (header_at f at) * 2 in
      elim (Bool-cases (length (read f at header_size) == 0)) [
        | inl a ↦ inl (record { chunks = []; problems = [] }, rw a refl)
        | inr a ↦ elim (Bool-cases (ltb (length (read f at header_size)) header_size)) [
          | inl b ↦ inl (record { chunks = []; problems = truncated_header i ∷ [] }, rw (a, b) refl)
          | inr b ↦
              let head : 24 ≤ length (read f at header_size) = ground arith in
              let whole : at + header_size ≤ length f =
                omega (arith, head, length-read_le f at header_size) in
              elim (Bool-cases (ltb limit data_size)) [
                | inl d ↦ inr ((at, whole, ground arith), rw (a, b, d) refl)
                | inr d ↦
                    elim (Bool-cases
                      (ltb (length (read f (at + header_size) data_size)) data_size)) [
                        | inl c ↦ inl (
                          record {
                            chunks = [];
                            problems =
                                header_problems i (header_at f at) ++ (data_truncated i ∷ []);
                          },
                          rw (a, b, d, c) refl,
                        )
                        | inr c ↦
                            let tail : data_size ≤ length (read f (at + header_size) data_size) =
                              ground arith in
                            let next = at + (header_size + data_size) in
                            let inside : next ≤ length f = omega (
                              arith,
                              head,
                              tail,
                              length-read_le f at header_size,
                              length-read_le f (at + header_size) data_size,
                            ) in
                            elim (chunks_loop_ends fuel (suc i) next inside (omega arith)) [
                              | inl (p, e) ↦ inl (
                                add_chunk
                                    (record {
                                      header = header_at f at;
                                      values = shorts (read f (at + header_size) data_size);
                                    })
                                    (header_problems i (header_at f at)) p,
                                rw (a, b, d, c, e) refl,
                              )
                              | inr (reason, e) ↦ inr (reason, rw (a, b, d, c, e) refl)
                            ]
                      ]
              ]
        ]
      ]

  -- Whatever bytes the file holds, `validate_decimated` ends: with a verdict, or with the exception of
  -- `f.read`, and then 24 bytes of the file, read as a header, ask for more bytes of payload than can
  -- be read at once.
  pub validate_decimated_ends : EndsOr (AsksTooMuch limit f) (validate_decimated limit (some f))
  unfolding validate_decimated
  validate_decimated_ends = elim (Bool-cases (length f == 0)) [
    | inl e ↦ inl (false, rw e refl)
    | inr e ↦ elim (chunks_loop_ends (suc (length f)) 0 0 (omega arith) (omega arith)) [
      | inl (p, run) ↦ inl (trend_verdict p, rw (e, run) refl)
      | inr (reason, run) ↦ inr (reason, rw (e, run) refl)
    ]
  ]
