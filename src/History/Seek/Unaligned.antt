-- ===== src/History/Seek/Unaligned.antt =====
-- history_service.py: the coarse seek through a damaged file.
use pika_pika.Prelude.{
  ℕ, zero, suc, ◌-◌, ◌/◌, ◌%◌, ◌<◌, ◌≡◌, ◌⊎◌, inl, inr, refl, true, Bool-cases, Option, none, some,
  List, arith, length, Run, done, Returns, Returns-bind, Returns-weaken, ltb, ltb→lt, ◌==◌,
}
use pika_pika.Prelude.Int.{ℤ, pos, ◌≤ℤ◌}
use pika_pika.History.Format.{typical_iec_chunk_bytes}
use pika_pika.History.Seek.{
  header_at, whole_chunk, find_next_valid_chunk, Coarse, stop, onward, coarse_round, coarse_loop,
  seek_unaligned_near, bisect_loop, seek_chunk_at_or_before,
}
use pika_pika.History.Seek.Damage.{FirstTarget, find_next_valid_chunk-FirstTarget}
use pika_pika.History.Seek.Bisect.{Splits, bisect_loop-Splits}

-- The beginning of the file, or a whole chunk that begins no later than the window.
abbrev pub BeginsBefore : List ℕ → ℤ → ℕ → Type 0
BeginsBefore f start_ns p =
    (p ≡ 0) ⊎ ((whole_chunk f (length f) p ≡ true) × (pos (header_at f p).ts ≤ℤ start_ns))

abbrev RoundKeeps : List ℕ → ℤ → ℕ → Coarse → Type 0
RoundKeeps f start_ns at (stop p) = BeginsBefore f start_ns p
RoundKeeps f start_ns at (onward best next) = BeginsBefore f start_ns best × (at < next)

coarse_round-RoundKeeps :
    (f : List ℕ) (start_ns : ℤ) (at best : ℕ) (synced : Option ℕ)
    → BeginsBefore f start_ns best
    → FirstTarget f at synced
    → RoundKeeps f start_ns at (coarse_round f (length f) start_ns best synced)
unfolding coarse_round
coarse_round-RoundKeeps f start_ns at best none b t = b
coarse_round-RoundKeeps f start_ns at best (some synced) b (o, target, first) =
    ground (arith, o, b, target.0)

coarse_then :
    (f : List ℕ) (start_ns : ℤ) (fuel at : ℕ)
    → length f - at < suc fuel
    → at < length f
    → (r : Coarse) → RoundKeeps f start_ns at r
    → ((best next : ℕ)
        → length f - next < fuel
        → BeginsBefore f start_ns best
        → Returns (coarse_loop f (length f) start_ns fuel best next) (BeginsBefore f start_ns))
    → Returns
        (elim r as (λ s. Run ℕ) [
          | stop p ↦ done p
          | onward best next ↦ coarse_loop f (length f) start_ns fuel best next
        ])
        (BeginsBefore f start_ns)
coarse_then f start_ns fuel at m inside (stop p) k ih = k
coarse_then f start_ns fuel at m inside (onward best next) (b, later) ih =
    ih best next (omega arith) b

coarse_loop-BeginsBefore :
    (f : List ℕ) (start_ns : ℤ) (fuel best at : ℕ)
    → length f - at < fuel
    → BeginsBefore f start_ns best
    → Returns (coarse_loop f (length f) start_ns fuel best at) (BeginsBefore f start_ns)
unfolding coarse_loop
coarse_loop-BeginsBefore f start_ns zero best at m b = absurd (omega arith)
coarse_loop-BeginsBefore f start_ns (suc fuel) best at m b = elim (Bool-cases (ltb at (length f))) [
  | inr e ↦ rw e b
  | inl e ↦ rw e (
      Returns-bind (find_next_valid_chunk f (length f) at) _ (FirstTarget f at)
        (BeginsBefore f start_ns) (find_next_valid_chunk-FirstTarget f at)
        (λ synced t.
          coarse_then f start_ns fuel at m (ltb→lt at (length f) e)
            (coarse_round f (length f) start_ns best synced)
            (coarse_round-RoundKeeps f start_ns at best synced b t)
            (λ best' next m' b'. coarse_loop-BeginsBefore f start_ns fuel best' next m' b')))
]

-- `_seek_unaligned_near` ends on every file, at its beginning or at a whole chunk that begins no
-- later than the window.
pub seek_unaligned_near-BeginsBefore :
    (f : List ℕ) (start_ns : ℤ)
    → Returns (seek_unaligned_near f (length f) start_ns) (BeginsBefore f start_ns)
unfolding seek_unaligned_near
seek_unaligned_near-BeginsBefore f start_ns =
    coarse_loop-BeginsBefore f start_ns (suc (length f)) 0 0 (omega arith) (inl refl)

-- Every seek ends.
pub seek_chunk_at_or_before_ends :
    (f : List ℕ) (start_ns : ℤ)
    → Returns (seek_chunk_at_or_before f (length f) start_ns) (λ p. Unit {0})
unfolding seek_chunk_at_or_before
seek_chunk_at_or_before_ends f start_ns =
    elim (Bool-cases (ltb (length f) typical_iec_chunk_bytes)) [
      | inl e ↦ rw e tt
      | inr e ↦ elim (Bool-cases (length f % typical_iec_chunk_bytes == 0)) [
        | inr u ↦
            rw (e, u)
              (Returns-weaken (seek_unaligned_near f (length f) start_ns) (BeginsBefore f start_ns)
                (λ p. Unit {0}) (seek_unaligned_near-BeginsBefore f start_ns) (λ p b. tt))
        | inl u ↦
            rw (e, u)
              (Returns-bind (bisect_loop f start_ns (suc n) 0 n) _ (Splits f start_ns n)
                (λ p. Unit {0})
                (bisect_loop-Splits f start_ns n (suc n) 0 n (omega arith) (omega arith)
                  (omega arith) (λ lt. absurd (omega arith)) (λ lt. absurd (omega arith)))
                (λ lo s. tt))
      ]
    ]
  where
    n : ℕ
    n = length f / typical_iec_chunk_bytes
