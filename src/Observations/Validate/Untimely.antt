-- ===== src/Observations/Validate/Untimely.antt =====
-- observation_service.py: `_validate` on a time that is out of range.
use pika_pika.Prelude.{
  ℕ, ◌+◌, ◌≡◌, ◌⊎◌, refl, inl, inr, true, false, Option, some, arith, if◌then◌else◌, error,
}
use pika_pika.Prelude.Int.{ℤ, pos, times, ◌-ℤ◌, ◌<ℤ◌, ltb_ℤ}
use pika_pika.Float.{Float}
use pika_pika.Text.{Text}
use pika_pika.Observations.Note.{Kind, Picture}
use pika_pika.Observations.Validate.{
  Builtins, too_far_in_future, too_old, int_of, check_time, validate,
}
use pika_pika.Observations.Validate.Words.{KeepsSmall, body_of, kind_word}
use pika_pika.Observations.Validate.Accepts.{body_of-fields}

module _ {W : Type 0} ⦃fl : Float W⦄ (py : Builtins W) (small : KeepsSmall py) where
  late :
      (now_ns : ℕ) (ms : ℤ)
      → pos (now_ns + 300_000_000_000) <ℤ times 1_000_000 ms
      → check_time py now_ns ms ≡ error too_far_in_future
  unfolding check_time
  late now_ns ms h =
      let e : ltb_ℤ (pos (now_ns + 300_000_000_000)) (times 1_000_000 ms) ≡ true = ground arith in
      rw e refl

  soon :
      (now_ns : ℕ) (ms : ℤ)
      → times 1_000_000 ms <ℤ pos now_ns -ℤ pos 604_800_000_000_000
      → ltb_ℤ (pos (now_ns + 300_000_000_000)) (times 1_000_000 ms) ≡ false
  unfolding ◌-ℤ◌
  soon now_ns ms h = ground arith

  old :
      (now_ns : ℕ) (ms : ℤ)
      → times 1_000_000 ms <ℤ pos now_ns -ℤ pos 604_800_000_000_000
      → check_time py now_ns ms ≡ error too_old
  unfolding check_time
  old now_ns ms h =
      let t = times 1_000_000 ms in
      let e : ltb_ℤ t (pos now_ns -ℤ pos 604_800_000_000_000) ≡ true = ground arith in
      rw (soon now_ns ms h, e) refl

  -- Let `str.lower` keep small letters and underscores. A request that writes a note out, with its
  -- time as an integer of milliseconds, is refused if the time is more than five minutes ahead or more
  -- than seven days old, with an exception that tells which, whatever its text, its location and its
  -- picture.
  pub validate-untimely :
      (now_ns : ℕ) (ms : ℤ) (kind : Kind) (location note : Text) (picture : Option (Picture W))
      → (pos (now_ns + 300_000_000_000) <ℤ times 1_000_000 ms)
        ⊎ (times 1_000_000 ms <ℤ pos now_ns -ℤ pos 604_800_000_000_000)
      → validate py (some (body_of ms kind location note picture)) now_ns
        ≡ error (
            if ltb_ℤ (pos (now_ns + 300_000_000_000)) (times 1_000_000 ms)
            then too_far_in_future
            else too_old)
  unfolding validate int_of
  validate-untimely now_ns ms kind location note picture h =
      let (a, b, c, d) = body_of-fields py small ms kind location note picture in
      rw (a, b, kind_word py small kind, refused h) refl
    where
      refused :
          (pos (now_ns + 300_000_000_000) <ℤ times 1_000_000 ms)
            ⊎ (times 1_000_000 ms <ℤ pos now_ns -ℤ pos 604_800_000_000_000)
          → check_time py now_ns ms
            ≡ error (
                if ltb_ℤ (pos (now_ns + 300_000_000_000)) (times 1_000_000 ms)
                then too_far_in_future
                else too_old)
      refused (inl k) =
          let e : ltb_ℤ (pos (now_ns + 300_000_000_000)) (times 1_000_000 ms) ≡ true =
            ground arith in
          rw e (late now_ns ms k)
      refused (inr k) = let e = soon now_ns ms k in rw e (old now_ns ms k)
