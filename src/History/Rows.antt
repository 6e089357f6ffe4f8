-- ===== src/History/Rows.antt =====
-- What a chunk means, as a list of intervals, and the payload loops of history_service.py.
use pika_pika.Prelude.{
  ℕ, zero, suc, ◌+◌, ◌*◌, ◌-◌, ◌≤◌, ◌≡◌, refl, sym, ap, ◌∙◌, List, [], ◌∷◌, ◌++◌, append-nil,
  append_assoc, arith, length, drop, length-append, length-drop, drop-drop, drop-append,
  drop-append_left,
}
use mathlib.Core.List.{map-append}
use pika_pika.Prelude.Int.{ℤ}
use pika_pika.Float.{Float}
use pika_pika.History.Format.{
  Header, Interval, bucket_ns, push, interval_at, payload_loop, parse_chunk_payload,
}
use pika_pika.History.Parse.{columns_of, append_bounded, walk_payload}

-- The last `source_cap` items.
abbrev pub keep_last {ℓ} : {A : Type ℓ} → ℕ → List A → List A
keep_last source_cap xs = drop (length xs - source_cap) xs

pub keep_last-append {ℓ} :
    {A : Type ℓ} (source_cap : ℕ) (xs ys : List A)
    → keep_last source_cap (keep_last source_cap xs ++ ys) ≡ keep_last source_cap (xs ++ ys)
keep_last-append source_cap xs ys =
    let k = length xs - source_cap in
    let n = length (xs ++ ys) in
    let e : length (drop k xs ++ ys) - source_cap ≡ n - k - source_cap =
      omega (arith, length-append (drop k xs) ys, length-drop k xs, length-append xs ys) in
    let e' : k + (n - k - source_cap) ≡ n - source_cap = omega (arith, length-append xs ys) in
    ap (λ i. drop i (drop k xs ++ ys)) e
    ∙ ap (drop (n - k - source_cap)) (sym (drop-append_left k xs ys (omega arith)))
    ∙ drop-drop (n - k - source_cap) k (xs ++ ys)
    ∙ ap (λ i. drop i (xs ++ ys)) e'

pub columns_of-push :
    {W : Type 0} (rows : List (Interval W)) (r : Interval W)
    → push (columns_of rows) r ≡ columns_of (rows ++ (r ∷ []))
columns_of-push rows r = simp map-append

module _ {W : Type 0} ⦃fl : Float W⦄ (scale : W) (h : Header) (zs : List ℤ) where
  pub stamp-interval_at : (i : ℕ) → (interval_at scale h zs i).stamp ≡ h.ts + i * bucket_ns h.rate
  unfolding interval_at
  stamp-interval_at i = ground arith

  -- Intervals `i`, `i + 1`, … of a chunk, `left` of them.
  unfoldable pub intervals_from : ℕ → ℕ → List (Interval W)
  intervals_from zero i = []
  intervals_from (suc left) i = interval_at scale h zs i ∷ intervals_from left (i + 1)

  unfoldable pub chunk_intervals : List (Interval W)
  unfolding intervals_from
  chunk_intervals = intervals_from h.count 0

  payload_loop-columns_of :
      (left i : ℕ) (rows : List (Interval W))
      → payload_loop scale h zs left i (columns_of rows)
        ≡ columns_of (rows ++ intervals_from left i)
  unfolding payload_loop intervals_from
  payload_loop-columns_of zero i rows = rw append-nil
  payload_loop-columns_of (suc left) i rows = rw (columns_of-push rows (interval_at scale h zs i)) (
      payload_loop-columns_of left (i + 1) (rows ++ (interval_at scale h zs i ∷ []))
      ∙ ap columns_of
          (append_assoc rows (interval_at scale h zs i ∷ []) (intervals_from left (i + 1))))

  -- `_parse_chunk_payload` appends the chunk's intervals to the columns.
  pub parse_chunk_payload-columns_of :
      (rows : List (Interval W))
      → parse_chunk_payload scale h zs (columns_of rows) ≡ columns_of (rows ++ chunk_intervals)
  unfolding parse_chunk_payload chunk_intervals
  parse_chunk_payload-columns_of rows = payload_loop-columns_of h.count 0 rows

  pub walk_payload-keep_last :
      (source_cap left i : ℕ) (rows : List (Interval W))
      → walk_payload scale source_cap h zs left i (keep_last source_cap rows)
        ≡ keep_last source_cap (rows ++ intervals_from left i)
  unfolding walk_payload append_bounded intervals_from
  walk_payload-keep_last source_cap zero i rows = rw append-nil
  walk_payload-keep_last source_cap (suc left) i rows =
      let r = interval_at scale h zs i in
      ap (walk_payload scale source_cap h zs left (i + 1))
        (keep_last-append source_cap rows (r ∷ []))
      ∙ walk_payload-keep_last source_cap left (i + 1) (rows ++ (r ∷ []))
      ∙ ap (keep_last source_cap) (append_assoc rows (r ∷ []) (intervals_from left (i + 1)))

  -- `_walk_all` appends them to its bounded queue.
  pub walk_payload-chunk :
      (source_cap : ℕ) (rows : List (Interval W))
      → walk_payload scale source_cap h zs h.count 0 (keep_last source_cap rows)
        ≡ keep_last source_cap (rows ++ chunk_intervals)
  unfolding chunk_intervals
  walk_payload-chunk source_cap rows = walk_payload-keep_last source_cap h.count 0 rows

  pub length-intervals_from : (left i : ℕ) → length (intervals_from left i) ≡ left
  unfolding intervals_from
  length-intervals_from zero i = refl
  length-intervals_from (suc left) i = ap suc (length-intervals_from left (i + 1))

-- The last items of an append, where the second list holds enough of them.
pub keep_last-append_right {ℓ} :
    {A : Type ℓ} (k : ℕ) (xs ys : List A) → k ≤ length ys → keep_last k (xs ++ ys) ≡ keep_last k ys
keep_last-append_right k xs ys h =
    let e : length (xs ++ ys) - k ≡ length xs + (length ys - k) =
      omega (arith, length-append xs ys) in
    ap (λ n. drop n (xs ++ ys)) e
    ∙ sym (drop-drop (length ys - k) (length xs) (xs ++ ys))
    ∙ ap (drop (length ys - k)) (drop-append (length xs) xs ys refl)
