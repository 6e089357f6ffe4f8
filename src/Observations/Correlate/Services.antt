-- ===== src/Observations/Correlate/Services.antt =====
-- observation_service.py: `correlate` on the history and the event service of the application.
use pika_pika.Prelude.{
  ℕ, ◌≤◌, ◌<◌, ◌≡◌, refl, sym, ap, ◌∙◌, subst, inl, inr, Bool-cases, Option, List, [], ◌∷◌, ◌++◌,
  map, arith, All, InOrder, Run, done, out_of_fuel, ◌>>=◌, Returns, Returns-weaken,
}
use pika_pika.Prelude.Int.{ℤ, ltb_ℤ}
use pika_pika.Float.{Float}
use pika_pika.History.Format.{Interval, Columns}
use pika_pika.History.Parse.{columns_of}
use pika_pika.History.Window.{
  sort_rows, dedupe, interval_payload, intervals_in_file, intervals_between,
}
use pika_pika.History.Window.Order.{Increasing}
use pika_pika.History.Window.Range.{intervals_between-InWindow}
use pika_pika.Events.{Settings, events_between}
use pika_pika.Events.Window.{events_between-InWindow}
use pika_pika.Observations.Correlate.{Sources, AreInWindow, Inside}

Returns-both :
    {A : Type 0} (r : Run A) (P Q : A → Type 0)
    → Returns r P
    → Returns r Q
    → Returns r (λ a. P a × Q a)
Returns-both (done a) P Q p q = (p, q)
Returns-both out_of_fuel P Q p q = p

map-map :
    {A B C : Type 0} (f : A → B) (g : B → C) (xs : List A)
    → map g (map f xs) ≡ map (λ x. g (f x)) xs
map-map f g [] = refl
map-map f g (x ∷ xs) = ap (g (f x) ∷◌) (map-map f g xs)

module _ {W : Type 0} where
  abbrev AreRows : Columns W → Type 0
  AreRows c = (rows : List (Interval W)) × (c ≡ columns_of rows)

  InOrder-stamps :
      (rows : List (Interval W))
      → Increasing (map (λ r. r.stamp) rows)
      → InOrder (λ r. r.stamp) rows
  InOrder-stamps [] h = tt
  InOrder-stamps (r ∷ rows) (h, hs) = (later rows h, InOrder-stamps rows hs)
    where
      later :
          (ss : List (Interval W))
          → All (λ t. r.stamp < t) (map (λ s. s.stamp) ss)
          → All (λ s. r.stamp ≤ s.stamp) ss
      later [] k = tt
      later (s ∷ ss) (k, ks) = (omega arith, later ss ks)

  All-stamps :
      (P : ℕ → Type 0) (rows : List (Interval W))
      → All P (map (λ r. r.stamp) rows)
      → All (λ r. P r.stamp) rows
  All-stamps P [] h = tt
  All-stamps P (r ∷ rows) (h, hs) = (h, All-stamps P rows hs)

module _ {W : Type 0} ⦃fl : Float W⦄ where
  abbrev round_row : Interval W → Interval W
  round_row r = record {
    vrms = fl.round r.vrms 2;
    low = fl.round r.low 2;
    high = fl.round r.high 2;
    stamp = r.stamp;
  }

  -- What the history returns are the columns of rounded rows.
  payload-AreRows : (rows : List (Interval W)) → AreRows (interval_payload rows)
  unfolding interval_payload
  payload-AreRows rows = (
    map round_row rows,
    λ i. record {
      vrms =
          (map-map (λ (r : Interval W). r.vrms) (λ v. fl.round v 2) rows
              ∙ sym (map-map round_row (λ (r : Interval W). r.vrms) rows))
            i;
      mins =
          (map-map (λ (r : Interval W). r.low) (λ v. fl.round v 2) rows
              ∙ sym (map-map round_row (λ (r : Interval W). r.low) rows))
            i;
      maxs =
          (map-map (λ (r : Interval W). r.high) (λ v. fl.round v 2) rows
              ∙ sym (map-map round_row (λ (r : Interval W). r.high) rows))
            i;
      timestamps = sym (map-map round_row (λ (r : Interval W). r.stamp) rows) i;
    },
  )

  merged-AreRows :
      (P : Columns W → Type 0) (first second : Run (List (Interval W)))
      → let merged = first >>= λ xs.
          second >>= λ ys. done (interval_payload (dedupe [] (sort_rows (xs ++ ys)))) in
        Returns merged P → Returns merged AreRows
  merged-AreRows P (done xs) (done ys) h = payload-AreRows (dedupe [] (sort_rows (xs ++ ys)))
  merged-AreRows P (done xs) out_of_fuel h = absurd h
  merged-AreRows P out_of_fuel second h = absurd h

module _ {W : Type 0} ⦃fl : Float W⦄ (scale : W) (old new : Option (List ℕ)) (settings : Settings W)
    (index waveforms : Option (List ℕ)) (sag_pct swell_pct : W) where
  -- The services on the files of the data directory: the trend in `old` and `new`, the events in
  -- `index` and `waveforms`.
  unfoldable pub services : Sources W
  services = record {
    intervals_between = intervals_between scale old new;
    events_between = events_between settings waveforms index;
    target_mains_vrms = settings.target_mains_vrms;
    sag_threshold_pct = sag_pct;
    swell_threshold_pct = swell_pct;
  }

  intervals-AreRows :
      (P : Columns W → Type 0) (start_ns end_ns : ℤ)
      → Returns (intervals_between scale old new start_ns end_ns) P
      → Returns (intervals_between scale old new start_ns end_ns) AreRows
  unfolding intervals_between
  intervals-AreRows P start_ns end_ns = elim (Bool-cases (ltb_ℤ end_ns start_ns)) [
    | inl e ↦ rw e (λ h. payload-AreRows [])
    | inr e ↦ rw e (
        merged-AreRows P (intervals_in_file scale start_ns end_ns old)
          (intervals_in_file scale start_ns end_ns new))
  ]

  rows_of_window :
      (start_ns end_ns : ℤ) (c : Columns W)
      → (Increasing c.timestamps × All (Inside start_ns end_ns) c.timestamps) × AreRows c
      → (rows : List (Interval W)) × (c ≡ columns_of rows)
        × InOrder (λ r. r.stamp) rows
        × All (λ r. Inside start_ns end_ns r.stamp) rows
  rows_of_window start_ns end_ns c ((up, inside), (rows, e)) =
      let stamps : c.timestamps ≡ map (λ r. r.stamp) rows = ap (λ k. k.timestamps) e in
      (
        rows,
        e,
        InOrder-stamps rows (subst Increasing stamps up),
        All-stamps (Inside start_ns end_ns) rows
            (subst (All (Inside start_ns end_ns)) stamps inside),
      )

  -- The two services, whatever the files of the data directory hold, keep what `correlate` relies on:
  -- both searches end, with lists of one length, in order of time and within the window.
  pub services-AreInWindow : AreInWindow services
  unfolding services
  services-AreInWindow = record {
    intervals = λ start_ns end_ns.
        let run = intervals_between scale old new start_ns end_ns in
        let Good =
          λ (c : Columns W). Increasing c.timestamps × All (Inside start_ns end_ns) c.timestamps in
        let good : Returns run Good = intervals_between-InWindow scale start_ns end_ns old new in
        Returns-weaken run (λ c. Good c × AreRows c) _
          (Returns-both run Good AreRows good (intervals-AreRows Good start_ns end_ns good))
          (rows_of_window start_ns end_ns);
    events = λ start_ns end_ns. events_between-InWindow settings waveforms index start_ns end_ns;
  }
