-- ===== src/Observations/Validate.antt =====
-- observation_service.py: `_validate`, which turns the body of a request into a note or raises an
-- exception, the constructor of which stands for its text.
pub mod Allowed
pub mod Words
pub mod Accepts
pub mod Untimely
use pika_pika.Prelude.{
  ℕ, suc, ◌+◌, ◌*◌, ◌≡◌, Bool, true, false, not, ◌&&◌, Option, none, some, List, [], ◌∷◌, ltb, ◌==◌,
  if◌then◌else◌, length, Result, ok, error, and_then,
}
use pika_pika.Prelude.Int.{ℤ, pos, times, magnitude, ◌-ℤ◌, ltb_ℤ}
use pika_pika.Float.{Float, of_nat}
use pika_pika.Text.{Text, codes, same, strip}
use pika_pika.Observations.Stats.{is_zero}
use pika_pika.Observations.Note.{
  Kind, lights, tv, both, TvCount, one, several, unsure, SameMoment, together, TvSource, internal,
  external, mixed, Recovery, av_continue, reboot, Picture, Entry,
}

-- A value that `json.loads` returns; a list or an object is whether it has items, and its `str`.
pub data Value (W : Type 0) : Type 0 where
  null : Value W
  boolean : Bool → Value W
  int : ℤ → Value W
  real : W → Value W
  text : Text → Value W
  container : Bool → Text → Value W

-- The object of a request, `none` for a key that it does not have.
pub record Body (W : Type 0) : Type 0 where
  pub kind : Option (Value W)
  pub observed_at_ms : Option (Value W)
  pub note : Option (Value W)
  pub pika_location : Option (Value W)
  pub tv_count : Option (Value W)
  pub same_moment : Option (Value W)
  pub tv_source : Option (Value W)
  pub blank_s : Option (Value W)
  pub recovery : Option (Value W)

-- The functions of Python on texts: `str` of an integer and of a float, `str.lower`, and `int` and
-- `float` of a text, `none` where they raise ValueError.
pub record Builtins (W : Type 0) : Type 0 where
  pub str_int : ℤ → Text
  pub str_real : W → Text
  pub lower : Text → Text
  pub parse_int : Text → Option ℤ
  pub parse_float : Text → Option W

pub data Problem : Type 0 where
  not_an_object bad_kind observed_required too_far_in_future too_old note_too_long : Problem
  location_required location_too_long bad_tv_count bad_same_moment bad_tv_source : Problem
  blank_not_a_number blank_out_of_range bad_recovery : Problem
  -- OverflowError, which nothing catches.
  overflow : Problem

abbrev pub max_note_chars : ℕ
max_note_chars = 500

abbrev pub max_location_chars : ℕ
max_location_chars = 80

abbrev pub max_age_s : ℕ
max_age_s = 7 * 24 * 3600

abbrev pub max_future_s : ℕ
max_future_s = 5 * 60

-- Membership in the sets of words.
unfoldable pub kind_of : Text → Result Problem Kind
kind_of s =
    if same s (codes "lights")
    then ok lights
    else if same s (codes "tv")
    then ok tv
    else if same s (codes "both")
    then ok both
    else error bad_kind

unfoldable pub tv_count_of : Text → Result Problem TvCount
tv_count_of s =
    if same s (codes "one")
    then ok one
    else if same s (codes "several")
    then ok several
    else if same s (codes "unsure")
    then ok unsure
    else error bad_tv_count

unfoldable pub same_moment_of : Text → Result Problem SameMoment
same_moment_of s =
    if same s (codes "together")
    then ok together
    else if same s (codes "unsure")
    then ok SameMoment.unsure
    else error bad_same_moment

unfoldable pub tv_source_of : Text → Result Problem TvSource
tv_source_of s =
    if same s (codes "internal")
    then ok internal
    else if same s (codes "external")
    then ok external
    else if same s (codes "mixed")
    then ok mixed
    else if same s (codes "unsure")
    then ok TvSource.unsure
    else error bad_tv_source

unfoldable pub recovery_of : Text → Result Problem Recovery
recovery_of s =
    if same s (codes "av_continue")
    then ok av_continue
    else if same s (codes "reboot")
    then ok reboot
    else error bad_recovery

module _ {W : Type 0} ⦃fl : Float W⦄ (py : Builtins W) where
  unfoldable pub str : Value W → Text
  str null = codes "None"
  str (boolean true) = codes "True"
  str (boolean false) = codes "False"
  str (int z) = py.str_int z
  str (real x) = py.str_real x
  str (text s) = s
  str (container filled s) = s

  abbrev pub nonempty : Text → Bool
  nonempty [] = false
  nonempty (c ∷ s) = true

  abbrev pub is_true : Value W → Bool
  is_true null = false
  is_true (boolean b) = b
  is_true (int z) = not (magnitude z == 0)
  is_true (real x) = not (is_zero x)
  is_true (text s) = nonempty s
  is_true (container filled s) = filled

  -- `str(body.get(key) or default).strip()`.
  unfoldable pub text_or : Text → Option (Value W) → Text
  unfolding str
  text_or default none = strip default
  text_or default (some v) = if is_true v then strip (str v) else strip default

  abbrev pub word_or : Text → Option (Value W) → Text
  word_or default v = py.lower (text_or default v)

  -- `int(body.get("observed_at_ms"))`.
  unfoldable pub int_of : Option (Value W) → Result Problem ℤ
  int_of none = error observed_required
  int_of (some null) = error observed_required
  int_of (some (boolean b)) = ok (if b then pos 1 else pos 0)
  int_of (some (int z)) = ok z
  int_of (some (real x)) =
      if fl.is_finite x
      then ok (fl.trunc x)
      else if fl.le x x
      then error overflow
      else error observed_required
  int_of (some (text s)) = elim (py.parse_int s) [ none ↦ error observed_required | some z ↦ ok z ]
  int_of (some (container filled s)) = error observed_required

  -- `float(body.get("blank_s", 0.8))`.
  unfoldable pub float_of : Option (Value W) → Result Problem W
  float_of none = ok (fl.decimal 8 1)
  float_of (some null) = error blank_not_a_number
  float_of (some (boolean b)) = ok (if b then of_nat 1 else of_nat 0)
  float_of (some (int z)) = if fl.is_finite (fl.of_int z) then ok (fl.of_int z) else error overflow
  float_of (some (real x)) = ok x
  float_of (some (text s)) = elim (py.parse_float s) [
    | none ↦ error blank_not_a_number
    | some x ↦ ok x
  ]
  float_of (some (container filled s)) = error blank_not_a_number

  unfoldable pub check_time : ℕ → ℤ → Result Problem ℤ
  check_time now_ns observed_ms =
      let observed_ns = times 1_000_000 observed_ms in
      if ltb_ℤ (pos (now_ns + max_future_s * 1_000_000_000)) observed_ns
      then error too_far_in_future
      else if ltb_ℤ observed_ns (pos now_ns -ℤ pos (max_age_s * 1_000_000_000))
      then error too_old
      else ok observed_ns

  unfoldable pub check_note : Text → Result Problem Text
  check_note s = if ltb max_note_chars (length s) then error note_too_long else ok s

  unfoldable pub check_location : Text → Result Problem Text
  check_location [] = error location_required
  check_location (c ∷ s) =
      if ltb max_location_chars (length (c ∷ s)) then error location_too_long else ok (c ∷ s)

  unfoldable pub check_same : Body W → TvCount → Result Problem (Option SameMoment)
  check_same b several =
      and_then (same_moment_of (word_or (codes "unsure") b.same_moment)) (λ s. ok (some s))
  check_same b _ = ok none

  unfoldable pub check_blank : W → Result Problem W
  check_blank x =
      if fl.le (fl.decimal 1 1) x && fl.le x (fl.decimal 100 1)
      then ok x
      else error blank_out_of_range

  unfoldable pub check_picture : Body W → Result Problem (Picture W)
  check_picture b = and_then (tv_count_of (word_or (codes "unsure") b.tv_count)) (λ count.
      and_then (check_same b count) (λ same.
        and_then (tv_source_of (word_or (codes "unsure") b.tv_source)) (λ source.
          and_then (float_of b.blank_s) (λ x. and_then (check_blank x) (λ blank.
            and_then (recovery_of (word_or (codes "av_continue") b.recovery)) (λ recovery.
              ok (record {
                tv_count = count;
                same_moment = same;
                tv_source = source;
                blank_s = fl.round blank 2;
                recovery = recovery;
              })))))))

  -- A note on lights returns before the fields of the picture are read.
  unfoldable pub with_picture : Body W → Kind → Result Problem (Option (Picture W))
  with_picture b lights = ok none
  with_picture b _ = and_then (check_picture b) (λ p. ok (some p))

  -- `none` is a body that is no object.
  unfoldable pub validate : Option (Body W) → ℕ → Result Problem (Entry W)
  validate none now_ns = error not_an_object
  validate (some b) now_ns = and_then (kind_of (word_or [] b.kind)) (λ kind.
      and_then (int_of b.observed_at_ms) (λ observed_ms.
        and_then (check_time now_ns observed_ms) (λ observed_ns.
          and_then (check_note (text_or [] b.note)) (λ note.
            and_then (check_location (text_or [] b.pika_location)) (λ location.
              and_then (with_picture b kind) (λ picture. ok (record {
                observed_at_ns = observed_ns;
                kind = kind;
                pika_location = location;
                note = note;
                picture = picture;
              })))))))
