-- ===== src/Validator/Trend/Envelope.antt =====
-- validate_data.py: the comparison of minima and maxima in `validate_decimated`.
use pika_pika.Prelude.{
  ℕ, ◌*◌, ◌≡◌, ◌↔◌, ◌⊎◌, inl, inr, refl, ap, ◌∙◌, Bool-cases, List, [], ◌∷◌, arith, ◌==◌, length,
  All, take, take_all,
}
use pika_pika.Prelude.Int.{ℤ, ◌≤ℤ◌, ltb_ℤ}
use pika_pika.History.Written.{Chunk, IsSound}
use pika_pika.Validator.Trend.{pair_errors, triple_errors, envelope_errors, minmax_errors}

-- Values of (minimum, maximum) pairs, and of triples that end in such a pair.
abbrev pub PairsOrdered : List ℤ → Type 0
PairsOrdered (mn ∷ mx ∷ vals) = (mn ≤ℤ mx) × PairsOrdered vals
PairsOrdered _ = Unit

abbrev pub TriplesOrdered : List ℤ → Type 0
TriplesOrdered (v ∷ mn ∷ mx ∷ vals) = (mn ≤ℤ mx) × TriplesOrdered vals
TriplesOrdered _ = Unit

-- No envelope has its minimum above its maximum, in a chunk of pairs, of triples, or of neither.
abbrev pub IsEnveloped : Chunk → Type 0
IsEnveloped c =
    ((c.header.vps ≡ 2) × PairsOrdered c.values)
    ⊎ (((c.header.vps ≡ 3) × TriplesOrdered c.values)
        ⊎ ((¬ (c.header.vps ≡ 2)) × (¬ (c.header.vps ≡ 3))))

pair_errors-zero : (vals : List ℤ) → (pair_errors vals ≡ 0) ↔ PairsOrdered vals
unfolding pair_errors
pair_errors-zero [] = (λ h. tt, λ h. refl)
pair_errors-zero (mn ∷ []) = (λ h. tt, λ h. refl)
pair_errors-zero (mn ∷ mx ∷ vals) =
    let later = pair_errors-zero vals in
    elim (Bool-cases (ltb_ℤ mx mn)) [
      | inl e ↦ rw e (λ h. absurd (omega arith), λ (k, ks). absurd (ground arith))
      | inr e ↦ rw e (λ h. (ground arith, later.0 h), λ (k, ks). later.1 ks)
    ]

triple_errors-zero : (vals : List ℤ) → (triple_errors vals ≡ 0) ↔ TriplesOrdered vals
unfolding triple_errors
triple_errors-zero [] = (λ h. tt, λ h. refl)
triple_errors-zero (v ∷ []) = (λ h. tt, λ h. refl)
triple_errors-zero (v ∷ mn ∷ []) = (λ h. tt, λ h. refl)
triple_errors-zero (v ∷ mn ∷ mx ∷ vals) =
    let later = triple_errors-zero vals in
    elim (Bool-cases (ltb_ℤ mx mn)) [
      | inl e ↦ rw e (λ h. absurd (omega arith), λ (k, ks). absurd (ground arith))
      | inr e ↦ rw e (λ h. (ground arith, later.0 h), λ (k, ks). later.1 ks)
    ]

-- The values that are compared are all of them.
take-values :
    (c : Chunk) (vps : ℕ)
    → IsSound c
    → c.header.vps ≡ vps
    → take (c.header.count * c.header.channels * vps) c.values ≡ c.values
take-values c vps s e =
    let size : length c.values ≡ c.header.count * c.header.channels * vps =
      s.values_length ∙ ap (λ (k : ℕ). c.header.count * c.header.channels * k) e in
    take_all (c.header.count * c.header.channels * vps) c.values (omega (arith, size))

envelope_errors-zero : (c : Chunk) → IsSound c → (envelope_errors c ≡ 0) ↔ IsEnveloped c
unfolding envelope_errors
envelope_errors-zero c s =
    let n = c.header.count * c.header.channels in
    elim (Bool-cases (c.header.vps == 2)) [
      | inl two ↦
          let two' : c.header.vps ≡ 2 = ground arith in
          let all : take (n * 2) c.values ≡ c.values = take-values c 2 s two' in
          let zero_iff = pair_errors-zero c.values in
          rw (two, all)
            (
              λ h. inl (two', zero_iff.0 h),
              λ h. elim h [
                | inl (e, o) ↦ zero_iff.1 o
                | inr (inl (e, o)) ↦ absurd (omega arith)
                | inr (inr (e, o)) ↦ absurd (e two')
              ],
            )
      | inr other ↦ elim (Bool-cases (c.header.vps == 3)) [
        | inl three ↦
            let three' : c.header.vps ≡ 3 = ground arith in
            let all : take (n * 3) c.values ≡ c.values = take-values c 3 s three' in
            let zero_iff = triple_errors-zero c.values in
            rw (other, three, all)
              (
                λ h. inr (inl (three', zero_iff.0 h)),
                λ h. elim h [
                  | inl (e, o) ↦ absurd (omega arith)
                  | inr (inl (e, o)) ↦ zero_iff.1 o
                  | inr (inr (e, o)) ↦ absurd (o three')
                ],
              )
        | inr others ↦
            rw (other, others)
              (λ h. inr (inr (λ e. absurd (ground arith), λ e. absurd (ground arith))), λ h. refl)
      ]
    ]

pub minmax-zero : (cs : List Chunk) → All IsSound cs → (minmax_errors cs ≡ 0) ↔ All IsEnveloped cs
unfolding minmax_errors
minmax-zero [] sound = (λ h. tt, λ h. refl)
minmax-zero (c ∷ cs) (s, sounds) =
    let here = envelope_errors-zero c s in
    let later = minmax-zero cs sounds in
    (
      λ h. (here.0 (omega arith), later.0 (omega arith)),
      λ (k, ks). let first = here.1 k in let rest = later.1 ks in omega arith,
    )
