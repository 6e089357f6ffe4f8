-- ===== src/History/Parse/Total.antt =====
-- history_service.py: the loops of the sequential readers and their fuel.
use pika_pika.Prelude.{
  ℕ, zero, suc, ◌+◌, ◌-◌, ◌≤◌, ◌<◌, ◌≡◌, refl, ◌⊎◌, inl, inr, Bool, true, false, Option, List,
  arith, Run, done, ◌>>=◌, if◌then◌else◌, drop,
}
use pika_pika.Prelude.Int.{ℤ}
use pika_pika.Float.{Float}
use pika_pika.History.Format.{header_size, Header}
use pika_pika.History.Parse.{
  Found, too_short, bad_header, chunk, next_chunk, Parsed, Walked, parse_loop, parse_from, or_else,
  walk_loop, walk_all, scan_loop, scan_and_parse, read_tail_intervals,
}

-- The run ends.
abbrev pub Ends {ℓ} : {A : Type ℓ} → Run A → Type ℓ
Ends {A = A} r = (a : A) × (r ≡ done a)

pub Found-cases :
    (r : Found)
    → (r ≡ too_short)
      ⊎ (r ≡ bad_header)
      ⊎ ((h : Header) × (zs : List ℤ) × (next : ℕ) × (r ≡ chunk h zs next))
Found-cases too_short = inl refl
Found-cases bad_header = inr (inl refl)
Found-cases (chunk h zs next) = inr (inr (h, zs, next, refl))

Ends-bind {ℓ κ} :
    {A : Type ℓ} {B : Type κ} (m : Run A) (k : A → Run B)
    → Ends m
    → ((a : A) → Ends (k a))
    → Ends (m >>= k)
Ends-bind m k (a, e) next = rw e (next a)

Ends-if {ℓ} : {A : Type ℓ} (b : Bool) {x y : Run A} → Ends x → Ends y → Ends (if b then x else y)
Ends-if true p q = p
Ends-if false p q = q

-- A chunk lies in the file, and what follows it lies further on.
pub next_chunk-lt :
    (f : List ℕ) (size at : ℕ) {h : Header} {zs : List ℤ} {next : ℕ}
    → next_chunk f size at ≡ chunk h zs next
    → (at + header_size ≤ size) × (at + header_size ≤ next)
unfolding next_chunk
next_chunk-lt f size at e = ground arith

or_else-Ends :
    {W : Type 0} (p : Option (Parsed W)) {r : Run (Option (Parsed W))} → Ends r → Ends (or_else p r)
or_else-Ends p ends = Ends-if _ (p, refl) ends

module _ {W : Type 0} ⦃fl : Float W⦄ (scale : W) (f : List ℕ) (size : ℕ) where
  parse_loop-Ends :
      (fuel at : ℕ) (p : Parsed W) → size - at < fuel → Ends (parse_loop scale f size fuel at p)
  unfolding parse_loop
  parse_loop-Ends zero at p m = absurd (omega arith)
  parse_loop-Ends (suc fuel) at p m = elim (Found-cases (next_chunk f size at)) [
    | inl e ↦ rw (e, parse_loop) (_, refl)
    | inr (inl e) ↦ rw (e, parse_loop) (_, refl)
    | inr (inr (h, zs, next, e)) ↦
        rw (e, parse_loop) (parse_loop-Ends fuel next _ (omega (arith, next_chunk-lt f size at e)))
  ]

  walk_loop-Ends :
      (source_cap fuel at : ℕ) (w : Walked W)
      → size - at < fuel
      → Ends (walk_loop scale f size source_cap fuel at w)
  unfolding walk_loop
  walk_loop-Ends source_cap zero at w m = absurd (omega arith)
  walk_loop-Ends source_cap (suc fuel) at w m = elim (Found-cases (next_chunk f size at)) [
    | inl e ↦ rw (e, walk_loop) (_, refl)
    | inr (inl e) ↦ rw (e, walk_loop) (_, refl)
    | inr (inr (h, zs, next, e)) ↦
        rw (e, walk_loop)
          (walk_loop-Ends source_cap fuel next _ (omega (arith, next_chunk-lt f size at e)))
  ]

  pub parse_from-Ends : (start source_cap : ℕ) → Ends (parse_from scale f size start source_cap)
  unfolding parse_from
  parse_from-Ends start source_cap =
      Ends-bind _ _ (parse_loop-Ends (suc size) start _ (omega arith)) (λ p. (_, refl))

  pub walk_all-Ends : (source_cap : ℕ) → Ends (walk_all scale f size source_cap)
  unfolding walk_all
  walk_all-Ends source_cap =
      Ends-bind _ _ (walk_loop-Ends source_cap (suc size) 0 _ (omega arith)) (λ w. (_, refl))

  scan_loop-Ends :
      (source_cap left at : ℕ) (probe : List ℕ)
      → Ends (scan_loop scale f size source_cap left at probe)
  unfolding scan_loop
  scan_loop-Ends source_cap zero at probe = (_, refl)
  scan_loop-Ends source_cap (suc left) at probe =
      let rest = scan_loop-Ends source_cap left (at + 1) (drop 1 probe) in
      Ends-if _ rest
        (Ends-if _ rest (Ends-bind _ _ (parse_from-Ends at source_cap) (λ p. or_else-Ends p rest)))

  pub scan_and_parse-Ends :
      (start source_cap : ℕ) → Ends (scan_and_parse scale f size start source_cap)
  unfolding scan_and_parse
  scan_and_parse-Ends start source_cap = scan_loop-Ends source_cap _ start _

  -- `_read_tail_intervals` ends, with its answer or `None`, on every file, and whatever the size is
  -- that was measured.
  pub read_tail_intervals-Ends :
      (source_cap : ℕ)
      → (p : Option (Parsed W)) × (read_tail_intervals scale f size source_cap ≡ done p)
  unfolding read_tail_intervals
  read_tail_intervals-Ends source_cap =
      Ends-if _ (Ends-bind _ _ (parse_from-Ends _ source_cap) (λ p. or_else-Ends p (scan_from _)))
        (scan_from _)
    where
      scan_from :
          (from : ℕ)
          → Ends (
              scan_and_parse scale f size from source_cap >>= λ p.
              or_else p (walk_all scale f size source_cap))
      scan_from from =
          Ends-bind _ _ (scan_and_parse-Ends from source_cap)
            (λ p. or_else-Ends p (walk_all-Ends source_cap))
