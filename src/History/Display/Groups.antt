-- ===== src/History/Display/Groups.antt =====
-- history_service.py: the loop of `_bucket_intervals`, group by group.
use pika_pika.Prelude.{
  ℕ, zero, suc, ◌+◌, ◌*◌, ◌-◌, ◌≤◌, ◌<◌, ◌≡◌, refl, sym, ap, ◌∙◌, min, false, some, List, [], ◌∷◌,
  map, arith, length, length-map, length-drop, take, drop, map-drop, drop-drop, get_elem?,
}
use native.Mathlib.Nat.{mul-le-mul, le_refl, div-lt_iff_lt-mul}
use pika_pika.Prelude.Int.{pos, leb_ℤ}
use pika_pika.Float.{Float, of_nat, min_from, max_from}
use pika_pika.History.Format.{Interval}
use pika_pika.History.Parse.{columns_of}
use pika_pika.History.Display.{slice, ceil_div, bucket_at, bucket_loop, bucket_intervals}

module _ {W : Type 0} where
  -- The time of the last of some rows.
  unfoldable pub last_stamp : ℕ → List (Interval W) → ℕ
  last_stamp t [] = t
  last_stamp t (r ∷ rows) = last_stamp r.stamp rows

  -- The first `left` groups of `bucket` rows.
  unfoldable pub groups : ℕ → ℕ → List (Interval W) → List (List (Interval W))
  groups bucket zero rows = []
  groups bucket (suc left) rows = take bucket rows ∷ groups bucket left (drop bucket rows)

module _ {W : Type 0} ⦃fl : Float W⦄ where
  -- One drawn row: the mean, the envelope, and the last time. A group is never empty.
  unfoldable pub summary : List (Interval W) → Interval W
  unfolding last_stamp
  summary [] = record { vrms = of_nat 0; low = of_nat 0; high = of_nat 0; stamp = 0 }
  summary (r ∷ rows) = record {
    vrms = fl.div (fl.sum (map (λ s. s.vrms) (r ∷ rows))) (of_nat (length (r ∷ rows)));
    low = min_from r.low (map (λ s. s.low) rows);
    high = max_from r.high (map (λ s. s.high) rows);
    stamp = last_stamp r.stamp rows;
  }

map-take {ℓ κ} :
    {A : Type ℓ} {B : Type κ} (f : A → B) (n : ℕ) (xs : List A)
    → map f (take n xs) ≡ take n (map f xs)
map-take f zero xs = refl
map-take f (suc n) [] = refl
map-take f (suc n) (x ∷ xs) = ap (◌∷◌ (f x)) (map-take f n xs)

take-nil {ℓ} : {A : Type ℓ} (n : ℕ) → take {A = A} n [] ≡ []
take-nil zero = refl
take-nil (suc n) = refl

-- A slice that ends at the list's end is not shorter than its bucket.
take-min {ℓ} : {A : Type ℓ} (b n : ℕ) (xs : List A) → length xs ≤ n → take (min b n) xs ≡ take b xs
take-min zero n xs h = let e : min 0 n ≡ 0 = omega arith in ap (λ k. take k xs) e
take-min (suc b) n [] h = take-nil (min (suc b) n)
take-min (suc b) zero (x ∷ xs) h = absurd (omega arith)
take-min (suc b) (suc n) (x ∷ xs) h =
    let e : min (suc b) (suc n) ≡ suc (min b n) = omega arith in
    ap (λ k. take k (x ∷ xs)) e ∙ ap (◌∷◌ x) (take-min b n xs (omega arith))

slice-map :
    {A B : Type 0} (f : A → B) (bucket i : ℕ) (xs : List A)
    → slice i (min (i + bucket) (length xs)) (map f xs) ≡ map f (take bucket (drop i xs))
slice-map f bucket i xs =
    let e : min (i + bucket) (length xs) - i ≡ min bucket (length xs - i) = omega arith in
    rw (e, sym (map-drop f i xs), sym (map-take f (min bucket (length xs - i)) (drop i xs)))
      (ap (map f) (take-min bucket (length xs - i) (drop i xs) (omega (arith, length-drop i xs))))

-- The last of the first `b` items that follow `i` others.
get_elem?-last_stamp :
    {W : Type 0} (rows : List (Interval W)) (r : Interval W) (b k : ℕ)
    → k ≡ min b (length rows)
    → get_elem? (map (λ s. s.stamp) (r ∷ rows)) k ≡ some (last_stamp r.stamp (take b rows))
unfolding last_stamp
get_elem?-last_stamp rows r zero zero e = refl
get_elem?-last_stamp rows r zero (suc k) e = absurd (omega arith)
get_elem?-last_stamp [] r (suc b) zero e = refl
get_elem?-last_stamp [] r (suc b) (suc k) e = absurd (omega arith)
get_elem?-last_stamp (s ∷ rows) r (suc b) zero e = absurd (omega arith)
get_elem?-last_stamp (s ∷ rows) r (suc b) (suc k) e = get_elem?-last_stamp rows s b k (omega arith)

get_elem?-drop {ℓ} :
    {A : Type ℓ} (i j : ℕ) (xs : List A) → get_elem? xs (i + j) ≡ get_elem? (drop i xs) j
get_elem?-drop zero j xs = let e : zero + j ≡ j = omega arith in ap (get_elem? xs) e
get_elem?-drop (suc i) j [] = refl
get_elem?-drop (suc i) j (x ∷ xs) =
    let e : suc i + j ≡ suc (i + j) = omega arith in
    ap (get_elem? (x ∷ xs)) e ∙ get_elem?-drop i j xs

drop-nonempty :
    {A : Type 0} (i : ℕ) (xs : List A)
    → i < length xs
    → (x : A) × (rest : List A) × (drop i xs ≡ x ∷ rest)
drop-nonempty i [] h = absurd (omega arith)
drop-nonempty zero (x ∷ xs) h = (x, xs, refl)
drop-nonempty (suc i) (x ∷ xs) h = drop-nonempty i xs (omega arith)

stamp_at :
    {W : Type 0} (b i : ℕ) (rows : List (Interval W)) (r : Interval W) (rest : List (Interval W))
    → drop i rows ≡ r ∷ rest
    → get_elem? (map (λ s. s.stamp) rows) (min (i + suc b) (length rows) - 1)
      ≡ some (last_stamp r.stamp (take b rest))
stamp_at {W = W} b i rows r rest e =
    let total : length rows - i ≡ suc (length rest) = sym (length-drop i rows) ∙ ap length e in
    let place : min (i + suc b) (length rows) - 1 ≡ i + min b (length rest) =
      omega (arith, total) in
    rw
      (
        place,
        get_elem?-drop i (min b (length rest)) (map (λ (s : Interval W). s.stamp) rows),
        sym (map-drop (λ (s : Interval W). s.stamp) i rows),
        e,
      )
      (get_elem?-last_stamp rest r b (min b (length rest)) refl)

-- The code's count of buckets fits the list.
pub ceil_div-lt : (n d m : ℕ) → 0 < d → m < ceil_div n d → m * d < n
ceil_div-lt n d m h lt =
    let bound : ceil_div n d * d ≤ n + d - 1 = grind arith in
    let next : suc m * d ≤ ceil_div n d * d = mul-le-mul lt (le_refl d) in
    grind (arith, bound, next)

pub ceil_div-pos : (n d : ℕ) → 0 < d → 0 < n → 0 < ceil_div n d
ceil_div-pos n d h k = grind arith

module _ {W : Type 0} ⦃fl : Float W⦄ where
  bucket_at-summary :
      (bucket i : ℕ) (rows : List (Interval W))
      → 0 < bucket
      → i < length rows
      → bucket_at bucket (length rows) (columns_of rows) i
        ≡ some (summary (take bucket (drop i rows)))
  unfolding bucket_at summary
  bucket_at-summary zero i rows h inside = absurd (omega arith)
  bucket_at-summary (suc b) i rows h inside =
      let (r, rest, e) = drop-nonempty i rows inside in
      rw
        (
          slice-map (λ (s : Interval W). s.vrms) (suc b) i rows,
          slice-map (λ (s : Interval W). s.low) (suc b) i rows,
          slice-map (λ (s : Interval W). s.high) (suc b) i rows,
          stamp_at b i rows r rest e,
          e,
          length-map (λ (s : Interval W). s.vrms) (take b rest),
        )
        refl

  bucket_loop-groups :
      (bucket left i : ℕ) (rows : List (Interval W))
      → 0 < bucket
      → ((m : ℕ) → m < left → i + m * bucket < length rows)
      → bucket_loop bucket (length rows) (columns_of rows) left i
        ≡ some (map summary (groups bucket left (drop i rows)))
  unfolding bucket_loop groups
  bucket_loop-groups bucket zero i rows h inside = refl
  bucket_loop-groups bucket (suc left) i rows h inside =
      let first : i < length rows = omega (arith, inside 0 (omega arith)) in
      let later : (m : ℕ) → m < left → i + bucket + m * bucket < length rows =
        λ m k. omega (arith, inside (suc m) (omega arith)) in
      rw
        (
          bucket_at-summary bucket i rows h first,
          bucket_loop-groups bucket left (i + bucket) rows h later,
          drop-drop bucket i rows,
        )
        refl

  -- Drawing more rows than the limit draws one row for each group of `bucket` rows.
  pub bucket_intervals-groups :
      (rows : List (Interval W)) (d : ℕ)
      → 0 < d
      → d < length rows
      → let bucket = ceil_div (length rows) d in
        bucket_intervals (columns_of rows) (pos d)
        ≡ some (columns_of (map summary (groups bucket (ceil_div (length rows) bucket) rows)))
  unfolding bucket_intervals
  bucket_intervals-groups rows d h over =
      let n = length rows in
      let bucket = ceil_div n d in
      let positive : leb_ℤ (pos d) (pos 0) ≡ false = ground arith in
      let more : leb_ℤ (pos n) (pos d) ≡ false = ground arith in
      let some_rows : 0 < bucket = ceil_div-pos n d h (omega arith) in
      rw
        (
          length-map (λ (s : Interval W). s.vrms) rows,
          positive,
          more,
          bucket_loop-groups bucket (ceil_div n bucket) 0 rows some_rows
              (λ m k. omega (arith, ceil_div-lt n bucket m some_rows k)),
        )
        refl

-- As many buckets as the code draws hold every row, and they are no more than the limit.
pub ceil_div-covers : (n d : ℕ) → 0 < d → n ≤ ceil_div n d * d
ceil_div-covers n d h = grind arith

pub ceil_div-ceil_div-le : (n d : ℕ) → 0 < d → 0 < n → ceil_div n (ceil_div n d) ≤ d
ceil_div-ceil_div-le n d h k =
    let b = ceil_div n d in
    let enough : n ≤ b * d = ceil_div-covers n d h in
    let some_rows = ceil_div-pos n d h k in grind (arith, enough, some_rows, div-lt_iff_lt-mul)
