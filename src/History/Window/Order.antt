-- ===== src/History/Window/Order.antt =====
-- history_service.py: the sort of `intervals_between` and its loop over `seen`.
use pika_pika.Prelude.{
  ℕ, ◌≤◌, ◌<◌, ◌≡◌, ◌≢◌, inl, inr, true, Bool-cases, List, [], ◌∷◌, map, arith, leb, All,
  All-weaken, All-both,
}
use pika_pika.History.Format.{Interval}
use pika_pika.History.Window.{insert_row, sort_rows, contains, dedupe}

-- Rows in the order of their times, and in strictly increasing order.
abbrev pub Sorted : {W : Type 0} → List (Interval W) → Type 0
Sorted [] = Unit
Sorted (r ∷ rows) = All (λ s. r.stamp ≤ s.stamp) rows × Sorted rows

abbrev pub Increasing : List ℕ → Type 0
Increasing [] = Unit
Increasing (t ∷ ts) = All (λ s. t < s) ts × Increasing ts

module _ {W : Type 0} where
  All-insert_row :
      (P : Interval W → Type 0) (r : Interval W) (rows : List (Interval W))
      → P r
      → All P rows
      → All P (insert_row r rows)
  unfolding insert_row
  All-insert_row P r [] p ps = (p, tt)
  All-insert_row P r (s ∷ rows) p (q, qs) = elim (Bool-cases (leb r.stamp s.stamp)) [
    | inl e ↦ rw e (p, (q, qs))
    | inr e ↦ rw e (q, All-insert_row P r rows p qs)
  ]

  pub All-sort_rows :
      (P : Interval W → Type 0) (rows : List (Interval W)) → All P rows → All P (sort_rows rows)
  unfolding sort_rows
  All-sort_rows P [] ps = tt
  All-sort_rows P (r ∷ rows) (p, ps) =
      All-insert_row P r (sort_rows rows) p (All-sort_rows P rows ps)

  insert_row-Sorted :
      (r : Interval W) (rows : List (Interval W)) → Sorted rows → Sorted (insert_row r rows)
  unfolding insert_row
  insert_row-Sorted r [] s = (tt, tt)
  insert_row-Sorted r (s ∷ rows) (least, sorted) = elim (Bool-cases (leb r.stamp s.stamp)) [
    | inl e ↦ rw e (
      (
        ground arith,
        All-weaken (λ t. s.stamp ≤ t.stamp) (λ t. r.stamp ≤ t.stamp) rows (λ t h. ground arith)
            least,
      ),
      (least, sorted),
    )
    | inr e ↦ rw e (
      All-insert_row (λ t. s.stamp ≤ t.stamp) r rows (ground arith) least,
      insert_row-Sorted r rows sorted,
    )
  ]

  pub sort_rows-Sorted : (rows : List (Interval W)) → Sorted (sort_rows rows)
  unfolding sort_rows
  sort_rows-Sorted [] = tt
  sort_rows-Sorted (r ∷ rows) = insert_row-Sorted r (sort_rows rows) (sort_rows-Sorted rows)

  pub All-dedupe :
      (P : Interval W → Type 0) (seen : List ℕ) (rows : List (Interval W))
      → All P rows
      → All P (dedupe seen rows)
  unfolding dedupe
  All-dedupe P seen [] ps = tt
  All-dedupe P seen (r ∷ rows) (p, ps) = elim (Bool-cases (contains r.stamp seen)) [
    | inl e ↦ rw (e, dedupe) (All-dedupe P seen rows ps)
    | inr e ↦ rw (e, dedupe) (p, All-dedupe P (r.stamp ∷ seen) rows ps)
  ]

  -- What has been seen is not kept again.
  dedupe-unseen :
      (t : ℕ) (seen : List ℕ) (rows : List (Interval W))
      → contains t seen ≡ true
      → All (λ r. r.stamp ≢ t) (dedupe seen rows)
  unfolding dedupe contains
  dedupe-unseen t seen [] h = tt
  dedupe-unseen t seen (r ∷ rows) h = elim (Bool-cases (contains r.stamp seen)) [
    | inl e ↦ rw (e, dedupe) (dedupe-unseen t seen rows h)
    | inr e ↦
        rw (e, dedupe)
          ((λ same. cc (rw same at e)), dedupe-unseen t (r.stamp ∷ seen) rows (ground (arith, h)))
  ]

  pub All-stamps :
      (P : ℕ → Type 0) (rows : List (Interval W))
      → All (λ r. P r.stamp) rows
      → All P (map (λ r. r.stamp) rows)
  All-stamps P [] ps = tt
  All-stamps P (r ∷ rows) (p, ps) = (p, All-stamps P rows ps)

  -- Without repetitions a sorted list is strictly increasing.
  pub dedupe-Increasing :
      (seen : List ℕ) (rows : List (Interval W))
      → Sorted rows
      → Increasing (map (λ r. r.stamp) (dedupe seen rows))
  unfolding dedupe contains
  dedupe-Increasing seen [] s = tt
  dedupe-Increasing seen (r ∷ rows) (least, sorted) = elim (Bool-cases (contains r.stamp seen)) [
    | inl e ↦ rw (e, dedupe) (dedupe-Increasing seen rows sorted)
    | inr e ↦
        let rest = dedupe (r.stamp ∷ seen) rows in
        let later = All-dedupe (λ s. r.stamp ≤ s.stamp) (r.stamp ∷ seen) rows least in
        let other = dedupe-unseen r.stamp (r.stamp ∷ seen) rows (ground arith) in
        let both = All-both (λ s. r.stamp ≤ s.stamp) (λ s. s.stamp ≢ r.stamp) rest later other in
        rw (e, dedupe)
          (
            All-stamps (λ t. r.stamp < t) rest
                (All-weaken (λ s. (r.stamp ≤ s.stamp) × (s.stamp ≢ r.stamp))
                  (λ s. r.stamp < s.stamp) rest (λ s h. omega arith) both),
            dedupe-Increasing (r.stamp ∷ seen) rows sorted,
          )
  ]
