-- ===== src/Web/Health/Stalled.antt =====
-- main.py: how long `get_health_snapshot` takes a stalled datalogger for a running one.
use pika_pika.Prelude.{
  ℕ, ◌≡◌, refl, ap, ◌∙◌, inl, inr, true, Bool-cases, ◌&&◌, Option, none, some, List, [], ◌∷◌, arith,
  ltb, ◌==◌, All,
}
use pika_pika.Float.{Float}
use pika_pika.Text.{Text}
use pika_pika.Web.Health.{
  ScopeHeader, Progress, has_moved, scope_liveness_timeout_s, advance, after_call,
  datalogger_running_of, get_health_snapshot, after_calls,
}

-- A look at the buffer that finds it at `total`, or does not find it.
abbrev pub IsAt : ℕ → Option ScopeHeader → Type 0
IsAt total none = Unit
IsAt total (some h) = h.total_samples ≡ total

-- A look that finds the buffer, at `total`.
abbrev pub Shows : ℕ → ScopeHeader → Type 0
Shows total h = (h.magic ≡ 0x5c09_e000) × (h.total_samples ≡ total)

module _ {W : Type 0} ⦃fl : Float W⦄ where
  advance_still :
      (p : Progress W) (now : W) (total : ℕ)
      → p.last_scope_total ≡ some total
      → advance p now total ≡ p
  unfolding advance
  advance_still p now total e = let same : total == total ≡ true = ground arith in rw (e, same) refl

  after_call_still :
      (p : Progress W) (now : W) (header : Option ScopeHeader) (total : ℕ)
      → p.last_scope_total ≡ some total
      → IsAt total header
      → after_call p now header ≡ p
  unfolding after_call
  after_call_still p now none total e h = refl
  after_call_still p now (some k) total e h = elim (Bool-cases (k.magic == 0x5c09_e000)) [
    | inl m ↦ rw (m, h) (advance_still p now total e)
    | inr m ↦ rw m refl
  ]

  after_calls_still :
      (p : Progress W) (calls : List (W × Option ScopeHeader)) (total : ℕ)
      → p.last_scope_total ≡ some total
      → All (λ c. IsAt total c.1) calls
      → after_calls p calls ≡ p
  unfolding after_calls
  after_calls_still p [] total e h = refl
  after_calls_still p ((now, header) ∷ calls) total e (h, hs) =
      ap (λ q. after_calls q calls) (after_call_still p now header total e h)
      ∙ after_calls_still p calls total e hs

  moved :
      (p : Progress W) (t : W) (h : ScopeHeader) (total : ℕ)
      → has_moved p.last_scope_total total ≡ true
      → Shows total h
      → after_call p t (some h)
        ≡ record { last_scope_total = some total; last_scope_progress_at = t }
  unfolding after_call advance
  moved p t h total e (m, same) =
      let found : h.magic == 0x5c09_e000 ≡ true = ground arith in rw (found, same, e) refl

  running_at :
      (p : Progress W) (now : W) (h : ScopeHeader) (total : ℕ)
      → p.last_scope_total ≡ some total
      → Shows total h
      → datalogger_running_of p now (some h) ≡ (
          ltb 0 total
          && fl.lt (fl.sub now p.last_scope_progress_at) (scope_liveness_timeout_s h.sample_rate))
  unfolding datalogger_running_of
  running_at p now h total e (m, same) =
      let found : h.magic == 0x5c09_e000 ≡ true = ground arith in
      rw (found, after_call_still p now (some h) total e same, same) refl

  -- Let the buffer have moved to a new total when a call looks at it at time `t`, and let every later
  -- call find it at that total, or not find it. However many calls there are and whatever their times,
  -- a call at time `now` that finds it reports the datalogger as running exactly if the total is not
  -- 0 and less than the timeout of the sample rate has passed since `t`.
  pub get_health_snapshot-stalled :
      (p : Progress W) (t now : W) (h h' : ScopeHeader) (total : ℕ)
      (calls : List (W × Option ScopeHeader)) (processors : Option (List (Text × Text)))
      (voltage ratio : W)
      → has_moved p.last_scope_total total ≡ true
      → Shows total h
      → All (λ c. IsAt total c.1) calls
      → Shows total h'
      → (get_health_snapshot
          (after_calls (after_call p t (some h)) calls)
          now
          processors
          (some h')
          voltage
          ratio).datalogger_running
        ≡ (ltb 0 total && fl.lt (fl.sub now t) (scope_liveness_timeout_s h'.sample_rate))
  unfolding get_health_snapshot
  get_health_snapshot-stalled p t now h h' total calls processors voltage ratio e shows still
        shows' =
      let q : Progress W = record { last_scope_total = some total; last_scope_progress_at = t } in
      let state : after_calls (after_call p t (some h)) calls ≡ q =
        ap (λ s. after_calls s calls) (moved p t h total e shows)
        ∙ after_calls_still q calls total refl still in
      ap (λ s. datalogger_running_of s now (some h')) state ∙ running_at q now h' total refl shows'
