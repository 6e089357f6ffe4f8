-- ===== src/Observations/Validate/Allowed.antt =====
-- observation_service.py: the limits that a note meets when `_validate` returns it.
use pika_pika.Prelude.{
  ℕ, ◌+◌, ◌≤◌, ◌≡◌, refl, inl, inr, true, Bool-cases, Option, none, some, [], ◌∷◌, arith, ltb, ◌&&◌,
  length, Result, ok, error, Holds, Holds-and_then,
}
use pika_pika.Prelude.Int.{ℤ, pos, times, ◌-ℤ◌, ◌≤ℤ◌, ltb_ℤ}
use pika_pika.Float.{Float}
use pika_pika.Text.{Text, codes}
use pika_pika.Observations.Note.{
  Kind, lights, tv, both, TvCount, one, several, unsure, SameMoment, Picture, Entry,
}
use pika_pika.Observations.Validate.{
  Body, Builtins, int_of, float_of, text_or, word_or, kind_of, tv_count_of, same_moment_of,
  tv_source_of, recovery_of, check_time, check_note, check_location, check_same, check_blank,
  check_picture, with_picture, validate,
}

-- Five minutes ahead at most, seven days old at most.
abbrev pub IsTimely : ℕ → ℤ → Type 0
IsTimely now_ns t =
    (t ≤ℤ pos (now_ns + 300_000_000_000)) × (pos now_ns -ℤ pos 604_800_000_000_000 ≤ℤ t)

-- Only several sets can go dark at the same moment.
abbrev pub SameAllowed : TvCount → Option SameMoment → Type 0
SameAllowed several none = ⊥
SameAllowed several (some s) = Unit
SameAllowed _ none = Unit
SameAllowed _ (some s) = ⊥

abbrev pub LocationAllowed : Text → Type 0
LocationAllowed s = (1 ≤ length s) × (length s ≤ 80)

module _ {W : Type 0} ⦃fl : Float W⦄ where
  -- A tenth of a second to ten seconds, rounded to two digits.
  abbrev pub BlankAllowed : W → Type 0
  BlankAllowed x =
      (blank : W) × (x ≡ fl.round blank 2)
      × (fl.le (fl.decimal 1 1) blank ≡ true)
      × (fl.le blank (fl.decimal 100 1) ≡ true)

  abbrev pub PictureAllowed : Kind → Option (Picture W) → Type 0
  PictureAllowed lights none = Unit
  PictureAllowed lights (some p) = ⊥
  PictureAllowed _ none = ⊥
  PictureAllowed _ (some p) = SameAllowed p.tv_count p.same_moment × BlankAllowed p.blank_s

  abbrev pub IsAllowed : ℕ → Entry W → Type 0
  IsAllowed now_ns e =
      IsTimely now_ns e.observed_at_ns
      × (length e.note ≤ 500)
      × LocationAllowed e.pika_location
      × PictureAllowed e.kind e.picture

holds_anything : {E A : Type 0} (r : Result E A) → Holds r (λ a. Unit)
holds_anything (ok a) = tt
holds_anything (error e) = tt

module _ {W : Type 0} ⦃fl : Float W⦄ (py : Builtins W) (now_ns : ℕ) where
  check_time-IsTimely :
      (observed_ms : ℤ) → Holds (check_time py now_ns observed_ms) (IsTimely now_ns)
  unfolding check_time
  check_time-IsTimely observed_ms =
      let t = times 1_000_000 observed_ms in
      let oldest = pos now_ns -ℤ pos 604_800_000_000_000 in
      elim (Bool-cases (ltb_ℤ (pos (now_ns + 300_000_000_000)) t)) [
        | inl late ↦ rw late tt
        | inr soon ↦ elim (Bool-cases (ltb_ℤ t oldest)) [
          | inl old ↦ rw (soon, old) tt
          | inr recent ↦ rw (soon, recent) (ground arith, ground arith)
        ]
      ]

  check_note-le : (s : Text) → Holds (check_note py s) (λ t. length t ≤ 500)
  unfolding check_note
  check_note-le s = elim (Bool-cases (ltb 500 (length s))) [
    | inl e ↦ rw e tt
    | inr e ↦ rw e (ground arith)
  ]

  check_location-LocationAllowed : (s : Text) → Holds (check_location py s) LocationAllowed
  unfolding check_location
  check_location-LocationAllowed [] = tt
  check_location-LocationAllowed (c ∷ s) = elim (Bool-cases (ltb 80 (length (c ∷ s)))) [
    | inl e ↦ rw e tt
    | inr e ↦ rw e (omega arith, ground arith)
  ]

  check_same-SameAllowed :
      (b : Body W) (count : TvCount) → Holds (check_same py b count) (SameAllowed count)
  unfolding check_same
  check_same-SameAllowed b several =
      let word = same_moment_of (word_or py (codes "unsure") b.same_moment) in
      Holds-and_then word (λ s. ok (some s)) (λ s. Unit) (SameAllowed several) (holds_anything word)
        (λ s u. tt)
  check_same-SameAllowed b one = tt
  check_same-SameAllowed b unsure = tt

  abbrev InRange : W → Type 0
  InRange x = (fl.le (fl.decimal 1 1) x ≡ true) × (fl.le x (fl.decimal 100 1) ≡ true)

  check_blank-InRange : (x : W) → Holds (check_blank py x) InRange
  unfolding check_blank
  check_blank-InRange x =
      elim (Bool-cases (fl.le (fl.decimal 1 1) x && fl.le x (fl.decimal 100 1))) [
        | inl e ↦ rw e (ground arith, ground arith)
        | inr e ↦ rw e tt
      ]

  check_picture-Allowed :
      (b : Body W)
      → Holds
          (check_picture py b)
          (λ p. SameAllowed p.tv_count p.same_moment × BlankAllowed p.blank_s)
  unfolding check_picture
  check_picture-Allowed b =
      let Q = λ (p : Picture W). SameAllowed p.tv_count p.same_moment × BlankAllowed p.blank_s in
      Holds-and_then (tv_count_of (word_or py (codes "unsure") b.tv_count)) _ (λ c. Unit) Q
        (holds_anything _)
        (λ count u.
          Holds-and_then (check_same py b count) _ (SameAllowed count) Q
            (check_same-SameAllowed b count)
            (λ same allowed.
              Holds-and_then (tv_source_of (word_or py (codes "unsure") b.tv_source)) _ (λ c. Unit)
                Q (holds_anything _)
                (λ source u.
                  Holds-and_then (float_of py b.blank_s) _ (λ c. Unit) Q (holds_anything _)
                    (λ x u.
                      Holds-and_then (check_blank py x) _ InRange Q (check_blank-InRange x)
                        (λ blank (low, high).
                          Holds-and_then (recovery_of (word_or py (codes "av_continue") b.recovery))
                            _ (λ c. Unit) Q (holds_anything _)
                            (λ recovery u. (allowed, (blank, refl, low, high))))))))

  with_picture-Allowed :
      (b : Body W) (kind : Kind) → Holds (with_picture py b kind) (PictureAllowed kind)
  unfolding with_picture
  with_picture-Allowed b lights = tt
  with_picture-Allowed b tv =
      Holds-and_then (check_picture py b) (λ p. ok (some p))
        (λ p. SameAllowed p.tv_count p.same_moment × BlankAllowed p.blank_s) (PictureAllowed tv)
        (check_picture-Allowed b) (λ p h. h)
  with_picture-Allowed b both =
      Holds-and_then (check_picture py b) (λ p. ok (some p))
        (λ p. SameAllowed p.tv_count p.same_moment × BlankAllowed p.blank_s) (PictureAllowed both)
        (check_picture-Allowed b) (λ p h. h)

  -- Whatever the body of the request, a note that `_validate` returns is at most five minutes ahead of
  -- the clock and at most seven days behind it, has at most 500 characters of text and 1 to 80 of
  -- location, and has the fields of a picture exactly if it is not on lights alone; among these, a
  -- same moment is present exactly for several sets, and the blank is a rounded number from 0.1 to
  -- 10 seconds.
  pub validate-IsAllowed :
      (body : Option (Body W)) → Holds (validate py body now_ns) (IsAllowed now_ns)
  unfolding validate
  validate-IsAllowed none = tt
  validate-IsAllowed (some b) =
      Holds-and_then (kind_of (word_or py [] b.kind)) _ (λ k. Unit) (IsAllowed now_ns)
        (holds_anything _)
        (λ kind u.
          Holds-and_then (int_of py b.observed_at_ms) _ (λ z. Unit) (IsAllowed now_ns)
            (holds_anything _)
            (λ observed_ms u.
              Holds-and_then (check_time py now_ns observed_ms) _ (IsTimely now_ns)
                (IsAllowed now_ns) (check_time-IsTimely observed_ms)
                (λ t timely.
                  Holds-and_then (check_note py (text_or py [] b.note)) _ (λ s. length s ≤ 500)
                    (IsAllowed now_ns) (check_note-le _)
                    (λ note short.
                      Holds-and_then (check_location py (text_or py [] b.pika_location)) _
                        LocationAllowed (IsAllowed now_ns) (check_location-LocationAllowed _)
                        (λ location named.
                          Holds-and_then (with_picture py b kind) _ (PictureAllowed kind)
                            (IsAllowed now_ns) (with_picture-Allowed b kind)
                            (λ picture allowed. (timely, short, named, allowed)))))))
