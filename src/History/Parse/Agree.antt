-- ===== src/History/Parse/Agree.antt =====
-- history_service.py: the two sequential readers. `_walk_all` keeps a bounded queue of rows,
-- `_parse_from` keeps all columns and cuts them at the end.
use pika_pika.Prelude.{
  ℕ, zero, suc, ◌-◌, ◌≤◌, ◌<◌, ◌≡◌, refl, sym, ap, subst, ◌∙◌, ◌⊎◌, inl, inr, false, Bool-cases,
  ◌==◌, Option, none, some, List, [], ◌∷◌, ◌++◌, map, arith, ltb, length, drop, length-drop,
  length-map, map-drop, last_items, Run, done, >>=-eq-done,
}
use pika_pika.Float.{Float}
use pika_pika.History.Format.{vps_iec_vrms, Header, Interval, Layout, legacy, iec_vrms, layout}
use pika_pika.History.Parse.{
  next_chunk, Parsed, Walked, columns_of, last_columns, is_empty, finish, walked, parse_loop,
  parse_from, walked_layout, walk_loop, walk_all,
}
use pika_pika.History.Rows.{
  keep_last, chunk_intervals, parse_chunk_payload-columns_of, walk_payload-chunk,
}
use pika_pika.History.Parse.Total.{Found-cases}

-- What a walk without a bound would have collected, as the columns of `_parse_from`.
abbrev pub parsed_of : {W : Type 0} → Walked W → Parsed W
parsed_of w = record { columns = columns_of w.rows; sample_rate = w.sample_rate; fmt = w.fmt }

abbrev pub trimmed : {W : Type 0} → ℕ → Walked W → Walked W
trimmed source_cap w = record w { rows = keep_last source_cap w.rows }

pub is_empty_of_pos {ℓ} : {A : Type ℓ} (xs : List A) → 0 < length xs → is_empty xs ≡ false
is_empty_of_pos [] h = absurd (omega arith)
is_empty_of_pos (x ∷ xs) h = refl

pub is_empty-keep_last {ℓ} :
    {A : Type ℓ} (k : ℕ) (xs : List A) → 0 < k → is_empty (keep_last k xs) ≡ is_empty xs
is_empty-keep_last {A = A} k [] h = ap is_empty (drop_nil (0 - k))
  where
    drop_nil : (n : ℕ) → drop {A = A} n [] ≡ []
    drop_nil zero = refl
    drop_nil (suc n) = refl
is_empty-keep_last {A = A} k (x ∷ xs) h =
    is_empty_of_pos (drop (length (x ∷ xs) - k) (x ∷ xs))
      (omega (arith, length-drop (length (x ∷ xs) - k) (x ∷ xs)))

pub last_items-map {ℓ κ} :
    {A : Type ℓ} {B : Type κ} (f : A → B) (k : ℕ) (xs : List A)
    → 0 < k
    → last_items k (map f xs) ≡ map f (keep_last k xs)
last_items-map f k xs h =
    let e : (length (map f xs) - k) ≡ length xs - k = omega (arith, length-map f xs) in
    unless_zero k h ∙ ap (λ n. drop n (map f xs)) e ∙ sym (map-drop f (length xs - k) xs)
  where
    unless_zero :
        (k : ℕ) → 0 < k → last_items k (map f xs) ≡ drop (length (map f xs) - k) (map f xs)
    unless_zero k h = ground arith

keep_last-nil {ℓ} : {A : Type ℓ} (k : ℕ) → keep_last {A = A} k [] ≡ []
keep_last-nil {A = A} k = let e : length {A = A} [] - k ≡ 0 = omega arith in ap (λ n. drop n []) e

keep_last_all {ℓ} : {A : Type ℓ} (k : ℕ) (xs : List A) → length xs ≤ k → keep_last k xs ≡ xs
keep_last_all k xs h = let e : length xs - k ≡ 0 = omega arith in ap (λ n. drop n xs) e

pub is_empty-map {ℓ κ} :
    {A : Type ℓ} {B : Type κ} (g : A → B) (xs : List A) → is_empty (map g xs) ≡ is_empty xs
is_empty-map g [] = refl
is_empty-map g (x ∷ xs) = refl

last_columns-columns_of :
    {W : Type 0} (k : ℕ) (rows : List (Interval W))
    → 0 < k
    → last_columns k (columns_of rows) ≡ columns_of (keep_last k rows)
last_columns-columns_of k rows h = λ i. record {
  vrms = last_items-map (λ r. r.vrms) k rows h i;
  mins = last_items-map (λ r. r.low) k rows h i;
  maxs = last_items-map (λ r. r.high) k rows h i;
  timestamps = last_items-map (λ r. r.stamp) k rows h i;
}

-- Cutting the columns at the end is the same as a bounded queue.
pub finish-parsed_of :
    {W : Type 0} (source_cap : ℕ) (w : Walked W)
    → 0 < source_cap
    → finish source_cap (some (parsed_of w)) ≡ walked (trimmed source_cap w)
unfolding finish walked
finish-parsed_of source_cap w h = ground (
  arith,
  is_empty-map (λ r. r.vrms) w.rows,
  is_empty-keep_last source_cap w.rows h,
  last_columns-columns_of source_cap w.rows h,
  keep_last_all source_cap w.rows,
  length-map (λ r. r.vrms) w.rows,
)

-- What follows the loop keeps the format, and does not look at it.
finish-fmt :
    {W : Type 0} (source_cap : ℕ) (q : Parsed W) (g : Layout) {p : Parsed W}
    → finish source_cap (some q) ≡ some p
    → (q.fmt ≡ p.fmt)
      × (finish source_cap (some (record q { fmt = g })) ≡ some (record p { fmt = g }))
unfolding finish
finish-fmt source_cap q g {p} e = elim (Bool-cases (is_empty q.columns.vrms)) [
  | inl a ↦ absurd (let e' = rw a at e in cc)
  | inr a ↦ elim (Bool-cases (ltb source_cap (length q.columns.vrms))) [
    | inl b ↦
        let e' : record q { columns = last_columns source_cap q.columns } ≡ p =
          let e'' = rw (a, b) at e in cc in
        (
          ap (λ (x : Parsed _). x.fmt) e',
          rw (a, b) (ap (λ (x : Parsed _). some (record x { fmt = g })) e'),
        )
    | inr b ↦
        let e' : q ≡ p = let e'' = rw (a, b) at e in cc in
        (
          ap (λ (x : Parsed _). x.fmt) e',
          rw (a, b) (ap (λ (x : Parsed _). some (record x { fmt = g })) e'),
        )
  ]
]

-- The format of `_parse_from` is that of the last chunk; `_walk_all` reports the IEC layout also where
-- only an earlier chunk has it.
abbrev pub FormatsAgree : Layout → Layout → Type 0
FormatsAgree parsed walked = (parsed ≡ walked) ⊎ ((parsed ≡ legacy) × (walked ≡ iec_vrms))

layout-FormatsAgree : (h : Header) (g : Layout) → FormatsAgree (layout h) (walked_layout h g)
unfolding layout walked_layout
layout-FormatsAgree h legacy = inl refl
layout-FormatsAgree h iec_vrms = elim (Bool-cases (h.vps == vps_iec_vrms)) [
  | inl e ↦ rw e (inl refl)
  | inr e ↦ rw e (inr (refl, refl))
]

module _ {W : Type 0} ⦃fl : Float W⦄ (scale : W) (f : List ℕ) (size source_cap : ℕ) where
  parse_loop-walk_loop :
      (fuel at : ℕ) (v : Walked W) (g : Layout) {p : Parsed W}
      → FormatsAgree v.fmt g
      → parse_loop scale f size fuel at (parsed_of v) ≡ done (some p)
      → (w : Walked W) × (g' : Layout) × (parsed_of w ≡ p)
        × FormatsAgree p.fmt g'
        × (walk_loop scale f size source_cap fuel at (record (trimmed source_cap v) { fmt = g })
            ≡ done (record (trimmed source_cap w) { fmt = g' }))
  unfolding parse_loop walk_loop
  parse_loop-walk_loop zero at v g a q = absurd (cc)
  parse_loop-walk_loop (suc fuel) at v g {p} a q = elim (Found-cases (next_chunk f size at)) [
    | inl e ↦
        let same : parsed_of v ≡ p = cc (rw (e, parse_loop) at q) in
        (v, g, same, subst (λ (x : Parsed W). FormatsAgree x.fmt g) same a, rw (e, walk_loop) refl)
    | inr (inl e) ↦ absurd (cc (rw (e, parse_loop) at q))
    | inr (inr (h, zs, next, e)) ↦
        let next_v : Walked W = record {
          rows = v.rows ++ chunk_intervals scale h zs;
          sample_rate = h.rate;
          fmt = layout h;
        } in
        let more = rw (e, parse_loop, parse_chunk_payload-columns_of scale h zs v.rows) at q in
        let (w, g', same, agree, ends) =
          parse_loop-walk_loop fuel next next_v (walked_layout h g) (layout-FormatsAgree h g)
            more in
        (
          w,
          g',
          same,
          agree,
          rw (e, walk_loop, walk_payload-chunk scale h zs source_cap v.rows) ends,
        )
  ]

  -- If `_parse_from`, from the file's start and with a positive `source_cap`, returns rows, then
  -- `_walk_all` with this `source_cap` returns the same rows and the same rate. It returns the same
  -- format too, or else "iec_vrms" where that of `_parse_from` is "legacy".
  pub parse_from-walk_all :
      {p : Parsed W}
      → 0 < source_cap
      → parse_from scale f size 0 source_cap ≡ done (some p)
      → (g : Layout) × FormatsAgree p.fmt g
        × (walk_all scale f size source_cap ≡ done (some (record p { fmt = g })))
  unfolding parse_from walk_all
  parse_from-walk_all {p = p} h e =
      let (o, ends, cut) =
        >>=-eq-done (parse_loop scale f size (suc size) 0 (parsed_of start)) _ e in
      accepted o ends cut
    where
      start : Walked W
      start = record { rows = []; sample_rate = 0; fmt = legacy }

      accepted :
          (o : Option (Parsed W))
          → parse_loop scale f size (suc size) 0 (parsed_of start) ≡ done o
          → ◌≡◌ {A = Run (Option (Parsed W))} (done (finish source_cap o)) (done (some p))
          → (g : Layout) × FormatsAgree p.fmt g
            × (walk_all scale f size source_cap ≡ done (some (record p { fmt = g })))
      accepted none ends cut = absurd (cc)
      accepted (some q) ends cut =
          let (w, g, same, agree, walk) =
            parse_loop-walk_loop (suc size) 0 start legacy (inl refl) ends in
          let walk' = rw (keep_last-nil {A = Interval W} source_cap) at walk in
          let cut' : finish source_cap (some q) ≡ some p = cc in
          let same_end = finish-fmt source_cap q g cut' in
          (
            g,
            subst (λ t. FormatsAgree t g) same_end.0 agree,
            rw walk' (
                ap done (
                  sym (finish-parsed_of source_cap (record w { fmt = g }) h)
                  ∙ ap (λ (x : Parsed W). finish source_cap (some (record x { fmt = g }))) same
                  ∙ same_end.1)),
          )
