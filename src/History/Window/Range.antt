-- ===== src/History/Window/Range.antt =====
-- history_service.py: the timestamps of `intervals_between`, on any files.
use pika_pika.Prelude.{
  ℕ, zero, suc, ◌+◌, ◌-◌, ◌≤◌, ◌<◌, ◌≡◌, refl, inl, inr, ◌⊎◌, Bool, true, Bool-cases, Option, none,
  some, List, [], ◌∷◌, ◌++◌, arith, ltb, leb, leb→le, ltb, length, All, All-append, All-weaken,
  keep, Run, done, Returns, Returns-bind,
}
use pika_pika.Prelude.Int.{ℤ, pos, ltb_ℤ, ◌≤ℤ◌}
use pika_pika.Float.{Float}
use pika_pika.History.Format.{header_size, Interval, Columns}
use pika_pika.History.Seek.{find_next_valid_chunk, seek_chunk_at_or_before}
use pika_pika.History.Seek.Damage.{FirstTarget, find_next_valid_chunk-FirstTarget}
use pika_pika.History.Seek.Unaligned.{seek_chunk_at_or_before_ends}
use pika_pika.History.Window.{
  in_window, Visit, damaged, past, earlier, use_chunk, visit, window_rows, window_loop,
  intervals_in_open_file, intervals_in_file, sort_rows, dedupe, interval_payload, intervals_between,
}
use pika_pika.History.Window.Order.{
  Increasing, All-sort_rows, sort_rows-Sorted, All-dedupe, All-stamps, dedupe-Increasing,
}

All-keep {ℓ} : {A : Type ℓ} (p : A → Bool) (xs : List A) → All (λ x. p x ≡ true) (keep p xs)
All-keep p [] = tt
All-keep p (x ∷ xs) = elim (Bool-cases (p x)) [
  | inl e ↦ rw e (e, All-keep p xs)
  | inr e ↦ rw e (All-keep p xs)
]

Visit-cases :
    (v : Visit)
    → (v ≡ damaged)
      ⊎ (v ≡ past)
      ⊎ ((next : ℕ) × (v ≡ earlier next))
      ⊎ ((next : ℕ) × (v ≡ use_chunk next))
Visit-cases damaged = inl refl
Visit-cases past = inr (inl refl)
Visit-cases (earlier next) = inr (inr (inl (next, refl)))
Visit-cases (use_chunk next) = inr (inr (inr (next, refl)))

visit-lt :
    (f : List ℕ) (size : ℕ) (start_ns end_ns : ℤ) (at next : ℕ)
    → (visit f size start_ns end_ns at ≡ earlier next)
      ⊎ (visit f size start_ns end_ns at ≡ use_chunk next)
    → at < next
unfolding visit
visit-lt f size start_ns end_ns at next h = ground arith

module _ {W : Type 0} ⦃fl : Float W⦄ (scale : W) (start_ns end_ns : ℤ) where
  abbrev InWindow : Interval W → Type 0
  InWindow r = in_window start_ns end_ns r.stamp ≡ true

  window_rows-InWindow :
      (f : List ℕ) (size at : ℕ) → All InWindow (window_rows scale f size start_ns end_ns at)
  unfolding window_rows
  window_rows-InWindow f size at = All-keep (λ r. in_window start_ns end_ns r.stamp) _

  -- After damage the loop goes on at the next chunk, or ends.
  window_resumed :
      (f : List ℕ) (fuel at : ℕ) (rows : List (Interval W))
      → length f - at < suc fuel
      → at + header_size ≤ length f
      → All InWindow rows
      → ((next : ℕ)
          → length f - next < fuel
          → Returns (window_loop scale f (length f) start_ns end_ns fuel next rows) (All InWindow))
      → (o : Option ℕ) → FirstTarget f (at + 1) o
      → Returns
          (elim o as (λ p. Run (List (Interval W))) [
            | none ↦ done rows
            | some next ↦ window_loop scale f (length f) start_ns end_ns fuel next rows
          ])
          (All InWindow)
  window_resumed f fuel at rows m inside h ih none t = h
  window_resumed f fuel at rows m inside h ih (some next) (further, target, first) =
      ih next (omega arith)

  window_loop-InWindow :
      (f : List ℕ) (fuel at : ℕ) (rows : List (Interval W))
      → length f - at < fuel
      → All InWindow rows
      → Returns (window_loop scale f (length f) start_ns end_ns fuel at rows) (All InWindow)
  unfolding window_loop
  window_loop-InWindow f zero at rows m h = absurd (omega arith)
  window_loop-InWindow f (suc fuel) at rows m h =
      elim (Bool-cases (leb (at + header_size) (length f))) [
        | inr e ↦ rw e h
        | inl e ↦
            let inside = leb→le _ _ e in
            elim (Visit-cases (visit f (length f) start_ns end_ns at)) [
              | inl v ↦
                  rw (e, v, window_loop)
                    (Returns-bind (find_next_valid_chunk f (length f) (at + 1)) _
                      (FirstTarget f (at + 1)) (All InWindow)
                      (find_next_valid_chunk-FirstTarget f (at + 1))
                      (λ o t.
                        window_resumed f fuel at rows m inside h
                          (λ next m'. window_loop-InWindow f fuel next rows m' h) o t))
              | inr (inl v) ↦ rw (e, v, window_loop) h
              | inr (inr (inl (next, v))) ↦
                  rw (e, v, window_loop)
                    (let further = visit-lt f (length f) start_ns end_ns at next (inl v) in
                      window_loop-InWindow f fuel next rows (omega arith) h)
              | inr (inr (inr (next, v))) ↦
                  rw (e, v, window_loop)
                    (let further = visit-lt f (length f) start_ns end_ns at next (inr v) in
                      window_loop-InWindow f fuel next
                        (rows ++ window_rows scale f (length f) start_ns end_ns at) (omega arith)
                        (All-append InWindow rows _ h (window_rows-InWindow f (length f) at)))
            ]
      ]

  intervals_in_file-InWindow :
      (file : Option (List ℕ))
      → Returns (intervals_in_file scale start_ns end_ns file) (All InWindow)
  unfolding intervals_in_file intervals_in_open_file
  intervals_in_file-InWindow none = tt
  intervals_in_file-InWindow (some f) = elim (Bool-cases (ltb (length f) header_size)) [
    | inl e ↦ rw e tt
    | inr e ↦ rw e (
        Returns-bind (seek_chunk_at_or_before f (length f) start_ns) _ (λ p. Unit {0})
          (All InWindow) (seek_chunk_at_or_before_ends f start_ns)
          (λ at u. window_loop-InWindow f (suc (length f)) at [] (omega arith) tt))
  ]

  abbrev Good : Columns W → Type 0
  Good c = Increasing c.timestamps × All (λ t. (start_ns ≤ℤ pos t) × (pos t ≤ℤ end_ns)) c.timestamps

  merged :
      (rows : List (Interval W))
      → All InWindow rows
      → Good (interval_payload (dedupe [] (sort_rows rows)))
  unfolding interval_payload
  merged rows h =
      let kept = All-dedupe InWindow [] (sort_rows rows) (All-sort_rows InWindow rows h) in
      (
        dedupe-Increasing [] (sort_rows rows) (sort_rows-Sorted rows),
        All-stamps (λ t. (start_ns ≤ℤ pos t) × (pos t ≤ℤ end_ns)) (dedupe [] (sort_rows rows))
            (All-weaken InWindow (λ r. (start_ns ≤ℤ pos r.stamp) × (pos r.stamp ≤ℤ end_ns))
              (dedupe [] (sort_rows rows)) (λ r p. ground arith) kept),
      )

  -- `intervals_between` ends, whatever the two files hold. Every timestamp that it returns lies in
  -- the window, and they increase strictly, so that none is repeated.
  pub intervals_between-InWindow :
      (old new : Option (List ℕ))
      → Returns (intervals_between scale old new start_ns end_ns) (λ c.
        Increasing c.timestamps × All (λ t. (start_ns ≤ℤ pos t) × (pos t ≤ℤ end_ns)) c.timestamps)
  unfolding intervals_between interval_payload
  intervals_between-InWindow old new = elim (Bool-cases (ltb_ℤ end_ns start_ns)) [
    | inl e ↦ rw e (tt, tt)
    | inr e ↦ rw e (
        Returns-bind (intervals_in_file scale start_ns end_ns old) _ (All InWindow) Good
          (intervals_in_file-InWindow old)
          (λ first p.
            Returns-bind (intervals_in_file scale start_ns end_ns new) _ (All InWindow) Good
              (intervals_in_file-InWindow new)
              (λ second q. merged (first ++ second) (All-append InWindow first second p q))))
  ]
