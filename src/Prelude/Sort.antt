-- ===== src/Prelude/Sort.antt =====
-- `sorted`, which keeps the order of equal items: an insertion sort by a test `a < b`.
use Prim.Native.Nat.{ℕ, ◌≤◌}
use mathlib.Core.Path.{◌≡◌, refl, ap, ◌∙◌}
use mathlib.Core.Logic.{inl, inr}
use mathlib.Core.List.{List, [], ◌∷◌}
use mathlib.Core.Bool.{Bool, false}
use native.Mathlib.Omega.{arith}
use pika_pika.Prelude.Tests.{if◌then◌else◌, ltb, Bool-cases}
use pika_pika.Prelude.Lists.{All, All-weaken, length}

module _ {ℓ} {A : Type ℓ} where
  unfoldable pub insert_by : (A → A → Bool) → A → List A → List A
  insert_by lt x [] = x ∷ []
  insert_by lt x (y ∷ ys) = if lt y x then y ∷ insert_by lt x ys else x ∷ y ∷ ys

  unfoldable pub sort_by : (A → A → Bool) → List A → List A
  unfolding insert_by
  sort_by lt [] = []
  sort_by lt (x ∷ xs) = insert_by lt x (sort_by lt xs)

  abbrev pub by_key : (A → ℕ) → A → A → Bool
  by_key key a b = ltb (key a) (key b)

  pub All-insert_by {κ} :
      (P : A → Type κ) (lt : A → A → Bool) (x : A) (ys : List A)
      → P x
      → All P ys
      → All P (insert_by lt x ys)
  unfolding insert_by
  All-insert_by P lt x [] p ps = (p, ps)
  All-insert_by P lt x (y ∷ ys) p (q, qs) = elim (Bool-cases (lt y x)) [
    | inl e ↦ rw e (q, All-insert_by P lt x ys p qs)
    | inr e ↦ rw e (p, (q, qs))
  ]

  pub All-sort_by {κ} :
      (P : A → Type κ) (lt : A → A → Bool) (xs : List A) → All P xs → All P (sort_by lt xs)
  unfolding sort_by
  All-sort_by P lt [] ps = ps
  All-sort_by P lt (x ∷ xs) (p, ps) =
      All-insert_by P lt x (sort_by lt xs) p (All-sort_by P lt xs ps)

  length-insert_by :
      (lt : A → A → Bool) (x : A) (ys : List A) → length (insert_by lt x ys) ≡ length (x ∷ ys)
  unfolding insert_by
  length-insert_by lt x [] = refl
  length-insert_by lt x (y ∷ ys) = elim (Bool-cases (lt y x)) [
    | inl e ↦ rw (e, length-insert_by lt x ys) refl
    | inr e ↦ rw e refl
  ]

  pub length-sort_by : (lt : A → A → Bool) (xs : List A) → length (sort_by lt xs) ≡ length xs
  unfolding sort_by
  length-sort_by lt [] = refl
  length-sort_by lt (x ∷ xs) =
      omega (arith, length-insert_by lt x (sort_by lt xs), length-sort_by lt xs)

  -- Every item is at most each later one.
  abbrev pub InOrder : (A → ℕ) → List A → Type 0
  InOrder key [] = Unit
  InOrder key (x ∷ xs) = All (λ y. key x ≤ key y) xs × InOrder key xs

  insert_by-InOrder :
      (key : A → ℕ) (x : A) (ys : List A)
      → InOrder key ys
      → InOrder key (insert_by (by_key key) x ys)
  unfolding insert_by
  insert_by-InOrder key x [] h = (tt, tt)
  insert_by-InOrder key x (y ∷ ys) (low, h) = elim (Bool-cases (ltb (key y) (key x))) [
    | inl e ↦ rw e (
      All-insert_by (λ z. key y ≤ key z) (by_key key) x ys (ground arith) low,
      insert_by-InOrder key x ys h,
    )
    | inr e ↦
        let le : key x ≤ key y = ground arith in
        rw e (
          (le, All-weaken (λ z. key y ≤ key z) (λ z. key x ≤ key z) ys (λ z k. omega arith) low),
          (low, h),
        )
  ]

  pub sort_by-InOrder : (key : A → ℕ) (xs : List A) → InOrder key (sort_by (by_key key) xs)
  unfolding sort_by
  sort_by-InOrder key [] = tt
  sort_by-InOrder key (x ∷ xs) =
      insert_by-InOrder key x (sort_by (by_key key) xs) (sort_by-InOrder key xs)

  insert_by-least :
      (key : A → ℕ) (x : A) (ys : List A)
      → All (λ y. key x ≤ key y) ys
      → insert_by (by_key key) x ys ≡ x ∷ ys
  unfolding insert_by
  insert_by-least key x [] h = refl
  insert_by-least key x (y ∷ ys) (h, hs) =
      let e : ltb (key y) (key x) ≡ false = ground arith in rw e

  -- What is in order stays as it is.
  pub sort_by_in_order : (key : A → ℕ) (xs : List A) → InOrder key xs → sort_by (by_key key) xs ≡ xs
  unfolding sort_by
  sort_by_in_order key [] h = refl
  sort_by_in_order key (x ∷ xs) (low, h) =
      ap (insert_by (by_key key) x) (sort_by_in_order key xs h) ∙ insert_by-least key x xs low
