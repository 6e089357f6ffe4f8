-- ===== src/Observations/Stats/Run.antt =====
-- observation_service.py: `_longest_run`.
use pika_pika.Prelude.{
  ℕ, zero, suc, ◌+◌, ◌*◌, ◌≤◌, ◌≡◌, ◌⊎◌, inl, inr, refl, max, true, false, Bool-cases, Option, none,
  some, List, [], ◌∷◌, arith, leb, ◌&&◌, length, All, InOrder,
}
use pika_pika.Prelude.Int.{ℤ, sub_ℕ, ltb_ℤ, ◌≤ℤ◌}
use pika_pika.Observations.Stats.{LowRun, run_of, better, Flagged, run_end, run_loop, longest_run}

-- From an item at time `t` some flagged items follow, each at most `gap` after the one before, up to
-- one at time `s`.
abbrev pub Reaches : ℕ → ℕ → List Flagged → ℕ → Type 0
Reaches gap t [] s = t ≡ s
Reaches gap t ((u, flag) ∷ rows) s =
    (t ≡ s) ⊎ ((flag ≡ true) × (u ≤ gap + t) × Reaches gap u rows s)

-- Such a run begins at a flagged item at time `t`.
abbrev pub Stretch : ℕ → List Flagged → ℕ → ℕ → Type 0
Stretch gap [] t s = ⊥
Stretch gap ((u, flag) ∷ rows) t s =
    ((flag ≡ true) × (u ≡ t) × Reaches gap u rows s) ⊎ Stretch gap rows t s

abbrev time : Flagged → ℕ
time r = r.0

abbrev Later : ℕ → List Flagged → Type 0
Later t rows = All (λ r. t ≤ time r) rows

run_end-Reaches : (gap t : ℕ) (rows : List Flagged) → Reaches gap t rows (run_end gap t rows).0
unfolding run_end
run_end-Reaches gap t [] = refl
run_end-Reaches gap t ((u, flag) ∷ rows) = elim (Bool-cases (flag && leb u (gap + t))) [
  | inl e ↦ rw e (inr (ground arith, ground arith, run_end-Reaches gap u rows))
  | inr e ↦ rw e (inl refl)
]

run_end-le :
    (gap t : ℕ) (rows : List Flagged)
    → Later t rows
    → InOrder time rows
    → t ≤ (run_end gap t rows).0
unfolding run_end
run_end-le gap t [] l o = omega arith
run_end-le gap t ((u, flag) ∷ rows) (l, ls) (o, os) = elim (Bool-cases (flag && leb u (gap + t))) [
  | inl e ↦ let le = run_end-le gap u rows o os in rw e (omega arith)
  | inr e ↦ rw e (omega arith)
]

-- A run that begins at `t` ends no later than the one that the code follows.
run_end-last :
    (gap t s : ℕ) (rows : List Flagged)
    → Later t rows
    → InOrder time rows
    → Reaches gap t rows s
    → s ≤ (run_end gap t rows).0
unfolding run_end
run_end-last gap t s [] l o h = omega arith
run_end-last gap t s ((u, flag) ∷ rows) l o (inl e) =
    omega (arith, e, run_end-le gap t ((u, flag) ∷ rows) l o)
run_end-last gap t s ((u, flag) ∷ rows) l (o, os) (inr (f, near, h)) =
    let joined : (flag && leb u (gap + t)) ≡ true = ground arith in
    rw joined (run_end-last gap u s rows o os h)

-- A run behind `t` is within the one that the code follows, or behind it.
run_end-rest :
    (gap t u s : ℕ) (rows : List Flagged)
    → Later t rows
    → InOrder time rows
    → Stretch gap rows u s
    → ((t ≤ u) × (s ≤ (run_end gap t rows).0)) ⊎ Stretch gap (run_end gap t rows).1 u s
unfolding run_end
run_end-rest gap t u s [] l o h = absurd h
run_end-rest gap t u s ((v, flag) ∷ rows) (l, ls) (o, os) h =
    elim (Bool-cases (flag && leb v (gap + t))) [
      | inr e ↦ rw e (inr h)
      | inl e ↦ rw e (elim h [
        | inl (f, same, r) ↦ inl (omega arith, run_end-last gap v s rows o os r)
        | inr later ↦ elim (run_end-rest gap v u s rows o os later) [
          | inl (low, high) ↦ inl (omega arith, high)
          | inr k ↦ inr k
        ]
      ])
    ]

run_end-Stretch :
    (gap t u s : ℕ) (rows : List Flagged)
    → Stretch gap (run_end gap t rows).1 u s
    → Stretch gap rows u s
unfolding run_end
run_end-Stretch gap t u s [] = λ h. h
run_end-Stretch gap t u s ((v, flag) ∷ rows) = elim (Bool-cases (flag && leb v (gap + t))) [
  | inl e ↦ rw e (λ h. inr (run_end-Stretch gap v u s rows h))
  | inr e ↦ rw e (λ h. h)
]

run_end-InOrder :
    (gap t : ℕ) (rows : List Flagged) → InOrder time rows → InOrder time (run_end gap t rows).1
unfolding run_end
run_end-InOrder gap t [] o = tt
run_end-InOrder gap t ((v, flag) ∷ rows) (o, os) = elim (Bool-cases (flag && leb v (gap + t))) [
  | inl e ↦ rw e (run_end-InOrder gap v rows os)
  | inr e ↦ rw e (o, os)
]

length-run_end : (gap t : ℕ) (rows : List Flagged) → length (run_end gap t rows).1 ≤ length rows
unfolding run_end
length-run_end gap t [] = omega arith
length-run_end gap t ((v, flag) ∷ rows) = elim (Bool-cases (flag && leb v (gap + t))) [
  | inl e ↦ let le = length-run_end gap v rows in rw e (omega arith)
  | inr e ↦ rw e (omega arith)
]

-- A result of at least some duration.
abbrev AtLeast : Option LowRun → ℤ → Type 0
AtLeast none d = ⊥
AtLeast (some r) d = d ≤ℤ r.duration_ns

-- A result that is a run of the rows.
abbrev IsFound : ℕ → List Flagged → Option LowRun → Type 0
IsFound bucket rows none = Unit
IsFound bucket rows (some r) =
    Stretch (max (bucket * 2) 1) rows r.start_ns r.end_ns
    × (r.duration_ns ≡ sub_ℕ (r.end_ns + bucket) r.start_ns)

better-AtLeast_new :
    (best : Option LowRun) (r : LowRun) → r.duration_ns ≤ℤ (better best r).duration_ns
unfolding better
better-AtLeast_new none r = omega arith
better-AtLeast_new (some b) r = elim (Bool-cases (ltb_ℤ b.duration_ns r.duration_ns)) [
  | inl e ↦ rw e (omega arith)
  | inr e ↦ rw e (ground arith)
]

better-AtLeast_old :
    (best : Option LowRun) (r : LowRun) (d : ℤ) → AtLeast best d → d ≤ℤ (better best r).duration_ns
unfolding better
better-AtLeast_old none r d h = absurd h
better-AtLeast_old (some b) r d h = elim (Bool-cases (ltb_ℤ b.duration_ns r.duration_ns)) [
  | inl e ↦ rw e (ground arith)
  | inr e ↦ rw e h
]

better-IsFound :
    (bucket : ℕ) (rows : List Flagged) (best : Option LowRun) (r : LowRun)
    → IsFound bucket rows best
    → IsFound bucket rows (some r)
    → IsFound bucket rows (some (better best r))
unfolding better
better-IsFound bucket rows none r h k = k
better-IsFound bucket rows (some b) r h k = elim (Bool-cases (ltb_ℤ b.duration_ns r.duration_ns)) [
  | inl e ↦ rw e k
  | inr e ↦ rw e h
]

run_loop-keeps :
    (bucket left : ℕ) (best : Option LowRun) (rows : List Flagged) (d : ℤ)
    → AtLeast best d
    → AtLeast (run_loop bucket left best rows) d
unfolding run_loop
run_loop-keeps bucket zero best rows d h = h
run_loop-keeps bucket (suc left) best [] d h = h
run_loop-keeps bucket (suc left) best ((t, false) ∷ rows) d h =
    run_loop-keeps bucket left best rows d h
run_loop-keeps bucket (suc left) best ((t, true) ∷ rows) d h =
    let after = run_end (max (bucket * 2) 1) t rows in
    run_loop-keeps bucket left _ after.1 d (better-AtLeast_old best (run_of bucket t after.0) d h)

duration-le : (b t u s stop : ℕ) → t ≤ u → s ≤ stop → sub_ℕ (s + b) u ≤ℤ sub_ℕ (stop + b) t
duration-le b t u s stop h k = ground arith

run_loop-longest :
    (bucket left : ℕ) (best : Option LowRun) (rows : List Flagged) (u s : ℕ)
    → length rows ≤ left
    → InOrder time rows
    → Stretch (max (bucket * 2) 1) rows u s
    → AtLeast (run_loop bucket left best rows) (sub_ℕ (s + bucket) u)
unfolding run_loop
run_loop-longest bucket zero best [] u s h o k = absurd k
run_loop-longest bucket zero best (r ∷ rows) u s h o k = absurd (omega arith)
run_loop-longest bucket (suc left) best [] u s h o k = absurd k
run_loop-longest bucket (suc left) best ((t, false) ∷ rows) u s h (o, os) (inl (f, same, k)) =
    absurd (cc)
run_loop-longest bucket (suc left) best ((t, false) ∷ rows) u s h (o, os) (inr k) =
    run_loop-longest bucket left best rows u s (omega arith) os k
run_loop-longest bucket (suc left) best ((t, true) ∷ rows) u s h (o, os) k =
    let gap = max (bucket * 2) 1 in
    let after = run_end gap t rows in
    let r = run_of bucket t after.0 in
    let within : t ≤ u
        → s ≤ after.0
        → AtLeast (run_loop bucket left (some (better best r)) after.1) (sub_ℕ (s + bucket) u) =
      λ low high. run_loop-keeps bucket left (some (better best r)) after.1 _ (
        let new = better-AtLeast_new best r in
        let shorter = duration-le bucket t u s after.0 low high in omega arith) in
    elim k [
      | inl (f, same, reach) ↦ within (omega arith) (run_end-last gap t s rows o os reach)
      | inr later ↦ elim (run_end-rest gap t u s rows o os later) [
        | inl (low, high) ↦ within low high
        | inr behind ↦
            run_loop-longest bucket left _ after.1 u s (omega (arith, length-run_end gap t rows))
              (run_end-InOrder gap t rows os) behind
      ]
    ]

run_loop-IsFound :
    (bucket left : ℕ) (best : Option LowRun) (all rows : List Flagged)
    → IsFound bucket all best
    → ((u s : ℕ) → Stretch (max (bucket * 2) 1) rows u s → Stretch (max (bucket * 2) 1) all u s)
    → IsFound bucket all (run_loop bucket left best rows)
unfolding run_loop
run_loop-IsFound bucket zero best all rows h sub = h
run_loop-IsFound bucket (suc left) best all [] h sub = h
run_loop-IsFound bucket (suc left) best all ((t, false) ∷ rows) h sub =
    run_loop-IsFound bucket left best all rows h (λ u s k. sub u s (inr k))
run_loop-IsFound bucket (suc left) best all ((t, true) ∷ rows) h sub =
    let gap = max (bucket * 2) 1 in
    let after = run_end gap t rows in
    let r = run_of bucket t after.0 in
    run_loop-IsFound bucket left _ all after.1
      (better-IsFound bucket all best r h
        (sub t after.0 (inl (refl, refl, run_end-Reaches gap t rows)), refl))
      (λ u s k. sub u s (inr (run_end-Stretch gap t u s rows k)))

-- Let the times be in order. If some flagged rows follow each other at distances of at most twice
-- the bucket, or 1, from time `t` to time `s`, then `_longest_run` returns such a run of the rows, with the time
-- between its ends and one bucket more as its duration, which is not less than that of the run from
-- `t` to `s`.
pub longest_run-longest :
    (rows : List Flagged) (bucket t s : ℕ)
    → InOrder (λ r. r.0) rows
    → Stretch (max (bucket * 2) 1) rows t s
    → (r : LowRun) × (longest_run rows bucket ≡ some r)
      × Stretch (max (bucket * 2) 1) rows r.start_ns r.end_ns
      × (r.duration_ns ≡ sub_ℕ (r.end_ns + bucket) r.start_ns)
      × (sub_ℕ (s + bucket) t ≤ℤ r.duration_ns)
unfolding longest_run
longest_run-longest rows bucket t s o k =
    result (run_loop bucket (length rows) none rows)
      (run_loop-IsFound bucket (length rows) none rows rows tt (λ u v h. h))
      (run_loop-longest bucket (length rows) none rows t s (omega arith) o k)
  where
    result :
        (o : Option LowRun)
        → IsFound bucket rows o
        → AtLeast o (sub_ℕ (s + bucket) t)
        → (r : LowRun) × (o ≡ some r)
          × Stretch (max (bucket * 2) 1) rows r.start_ns r.end_ns
          × (r.duration_ns ≡ sub_ℕ (r.end_ns + bucket) r.start_ns)
          × (sub_ℕ (s + bucket) t ≤ℤ r.duration_ns)
    result none f h = absurd h
    result (some r) (f, d) h = (r, refl, f, d, h)
