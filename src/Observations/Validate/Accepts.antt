-- ===== src/Observations/Validate/Accepts.antt =====
-- observation_service.py: the bodies that `_validate` accepts: those that spell a note out.
use pika_pika.Prelude.{
  ℕ, ◌+◌, ◌≤◌, ◌≡◌, refl, ap, false, Option, none, some, [], ◌∷◌, arith, ltb, length, ok,
}
use pika_pika.Prelude.Int.{ℤ, pos, times, ◌-ℤ◌, ltb_ℤ}
use pika_pika.Float.{Float}
use pika_pika.Text.{Text, same, strip, lstrip}
use pika_pika.Observations.Note.{
  Kind, lights, tv, both, TvCount, one, several, unsure, SameMoment, Picture,
}
use pika_pika.Observations.Validate.{
  int, text, Body, Builtins, int_of, float_of, str, text_or, check_time, check_note, check_location,
  check_same, check_blank, check_picture, with_picture, validate,
}
use pika_pika.Observations.Validate.Allowed.{IsTimely, SameAllowed, LocationAllowed}
use pika_pika.Observations.Validate.Words.{
  KeepsSmall, kind_text, same_value, body_of, IsExactBlank, IsExactPicture, kind_word,
  tv_count_word, same_moment_word, tv_source_word, recovery_word,
}

module _ {W : Type 0} ⦃fl : Float W⦄ (py : Builtins W) (small : KeepsSmall py) where
  free_text : (s : Text) → strip s ≡ s → text_or py [] (some (text s)) ≡ s
  unfolding text_or str strip lstrip
  free_text [] h = refl
  free_text (c ∷ s) h = h

  timely :
      (now_ns : ℕ) (ms : ℤ)
      → IsTimely now_ns (times 1_000_000 ms)
      → check_time py now_ns ms ≡ ok (times 1_000_000 ms)
  unfolding check_time
  timely now_ns ms (soon, recent) =
      let t = times 1_000_000 ms in
      let a : ltb_ℤ (pos (now_ns + 300_000_000_000)) t ≡ false = ground arith in
      let b : ltb_ℤ t (pos now_ns -ℤ pos 604_800_000_000_000) ≡ false = ground arith in
      rw (a, b) refl

  short : (s : Text) → length s ≤ 500 → check_note py s ≡ ok s
  unfolding check_note
  short s h = let a : ltb 500 (length s) ≡ false = ground arith in rw a refl

  named : (s : Text) → LocationAllowed s → check_location py s ≡ ok s
  unfolding check_location
  named [] (low, high) = absurd (omega arith)
  named (c ∷ s) (low, high) = let a : ltb 80 (length (c ∷ s)) ≡ false = ground arith in rw a refl

  in_range : (x : W) → IsExactBlank x → check_blank py x ≡ ok x
  unfolding check_blank
  in_range x (e, low, high) = rw (low, high) refl

  same_word :
      (b : Body W) (count : TvCount) (s : Option SameMoment)
      → b.same_moment ≡ same_value s
      → SameAllowed count s
      → check_same py b count ≡ ok s
  unfolding check_same
  same_word b several none e h = absurd h
  same_word b several (some s) e h = rw (e, same_moment_word py small s) refl
  same_word b one none e h = refl
  same_word b one (some s) e h = absurd h
  same_word b unsure none e h = refl
  same_word b unsure (some s) e h = absurd h

  spelt :
      (ms : ℤ) (kind : Kind) (location note : Text) (p : Picture W)
      → SameAllowed p.tv_count p.same_moment
      → IsExactBlank p.blank_s
      → check_picture py (body_of ms kind location note (some p)) ≡ ok p
  unfolding check_picture float_of
  spelt ms kind location note p same blank =
      rw
        (
          tv_count_word py small p.tv_count,
          same_word (body_of ms kind location note (some p)) p.tv_count p.same_moment refl same,
          tv_source_word py small p.tv_source,
          in_range p.blank_s blank,
          recovery_word py small p.recovery,
        )
        (ap
          (λ x. ok (record {
            tv_count = p.tv_count;
            same_moment = p.same_moment;
            tv_source = p.tv_source;
            blank_s = x;
            recovery = p.recovery;
          }))
          blank.0)

  pictured :
      (ms : ℤ) (kind : Kind) (location note : Text) (picture : Option (Picture W))
      → IsExactPicture kind picture
      → with_picture py (body_of ms kind location note picture) kind ≡ ok picture
  unfolding with_picture
  pictured ms lights location note none h = refl
  pictured ms lights location note (some p) h = absurd h
  pictured ms tv location note none h = absurd h
  pictured ms tv location note (some p) (same, blank) =
      rw (spelt ms tv location note p same blank) refl
  pictured ms both location note none h = absurd h
  pictured ms both location note (some p) (same, blank) =
      rw (spelt ms both location note p same blank) refl

  pub body_of-fields :
      (ms : ℤ) (kind : Kind) (location note : Text) (picture : Option (Picture W))
      → let b = body_of ms kind location note picture in
        (b.kind ≡ some (text (kind_text kind)))
        × (b.observed_at_ms ≡ some (int ms))
        × (b.note ≡ some (text note))
        × (b.pika_location ≡ some (text location))
  body_of-fields ms kind location note none = (refl, refl, refl, refl)
  body_of-fields ms kind location note (some p) = (refl, refl, refl, refl)

  -- Let `str.lower` keep small letters and underscores. A request that writes a note out, with its
  -- time as an integer of milliseconds, is accepted, and gives that note back, if the time is at most
  -- five minutes ahead and seven days old, the text and the location have no spaces around them and
  -- at most 500 and 1 to 80 characters, and the fields of a picture are there exactly if the note is
  -- not on lights alone, with a same moment exactly for several sets and a blank from 0.1 to 10
  -- seconds that rounding to two digits keeps.
  pub validate-body_of :
      (now_ns : ℕ) (ms : ℤ) (kind : Kind) (location note : Text) (picture : Option (Picture W))
      → IsTimely now_ns (times 1_000_000 ms)
      → strip note ≡ note
      → length note ≤ 500
      → strip location ≡ location
      → LocationAllowed location
      → IsExactPicture kind picture
      → validate py (some (body_of ms kind location note picture)) now_ns
        ≡ ok (record {
          observed_at_ns = times 1_000_000 ms;
          kind = kind;
          pika_location = location;
          note = note;
          picture = picture;
        })
  unfolding validate int_of
  validate-body_of now_ns ms kind location note picture soon trimmed len trimmed' loc pic =
      let (a, b, c, d) = body_of-fields ms kind location note picture in
      rw
        (
          a,
          b,
          c,
          d,
          kind_word py small kind,
          timely now_ns ms soon,
          free_text note trimmed,
          short note len,
          free_text location trimmed',
          named location loc,
          pictured ms kind location note picture pic,
        )
        refl
