-- ===== src/Validator.antt =====
-- pika/datalogger/validate_data.py: the checks of the files that the datalogger leaves. A message of a
-- failed check is the constructor that stands for it; printing and the diagnosis of the system are
-- left out.
pub mod Index
pub mod Trend
mod Examples
use pika_pika.Prelude.{ℕ, ◌*◌, ◌≡◌, refl, Bool, true, false, ◌||◌, List, [], ◌∷◌, ◌++◌, arith, ltb}

abbrev pub epoch_min_ns : ℕ
epoch_min_ns = 1_577_836_800 * 1_000_000_000

abbrev pub epoch_max_ns : ℕ
epoch_max_ns = 4_102_444_800 * 1_000_000_000

abbrev pub outside_epoch : ℕ → Bool
outside_epoch ts = ltb ts epoch_min_ns || ltb epoch_max_ns ts

-- `if ...: failures.append(...)`.
unfoldable pub when : {A : Type 0} → Bool → A → List A
when true a = a ∷ []
when false a = []

-- `if failures: return False`.
abbrev pub is_nil : {A : Type 0} → List A → Bool
is_nil [] = true
is_nil (a ∷ as') = false

module _ {A : Type 0} where
  pub is_nil-append :
      (xs ys : List A) → is_nil (xs ++ ys) ≡ true → (is_nil xs ≡ true) × (is_nil ys ≡ true)
  is_nil-append [] ys h = (refl, h)
  is_nil-append (x ∷ xs) ys h = absurd (cc)

  pub append-is_nil :
      (xs ys : List A) → is_nil xs ≡ true → is_nil ys ≡ true → is_nil (xs ++ ys) ≡ true
  append-is_nil [] ys h k = k
  append-is_nil (x ∷ xs) ys h k = h

  -- A check that adds no message.
  pub when-nil : (b : Bool) (a : A) → is_nil (when b a) ≡ true → b ≡ false
  unfolding when
  when-nil true a h = absurd (cc)
  when-nil false a h = refl

  pub nil-when : (b : Bool) (a : A) → b ≡ false → is_nil (when b a) ≡ true
  unfolding when
  nil-when true a h = absurd (cc)
  nil-when false a h = refl
