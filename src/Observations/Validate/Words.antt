-- ===== src/Observations/Validate/Words.antt =====
-- observation_service.py: the words of a note, and a note written out as the body of a request.
use pika_pika.Prelude.{
  ℕ, ◌≡◌, refl, ap, Bool, true, Option, none, some, [], ◌∷◌, leb, ◌==◌, ◌&&◌, ◌||◌, ok,
}
use pika_pika.Prelude.Int.{ℤ}
use pika_pika.Float.{Float}
use pika_pika.Text.{Text, codes, same, strip, lstrip, is_space}
use pika_pika.Observations.Note.{
  Kind, lights, tv, both, TvCount, one, several, unsure, SameMoment, together, TvSource, internal,
  external, mixed, Recovery, av_continue, reboot, Picture,
}
use pika_pika.Observations.Validate.{
  Value, int, real, text, Body, Builtins, str, text_or, word_or, kind_of, tv_count_of,
  same_moment_of, tv_source_of, recovery_of,
}
use pika_pika.Observations.Validate.Allowed.{SameAllowed}

-- The words of the code.
abbrev pub kind_text : Kind → Text
kind_text lights = codes "lights"
kind_text tv = codes "tv"
kind_text both = codes "both"

abbrev pub tv_count_text : TvCount → Text
tv_count_text one = codes "one"
tv_count_text several = codes "several"
tv_count_text unsure = codes "unsure"

abbrev pub same_moment_text : SameMoment → Text
same_moment_text together = codes "together"
same_moment_text unsure = codes "unsure"

abbrev pub tv_source_text : TvSource → Text
tv_source_text internal = codes "internal"
tv_source_text external = codes "external"
tv_source_text mixed = codes "mixed"
tv_source_text unsure = codes "unsure"

abbrev pub recovery_text : Recovery → Text
recovery_text av_continue = codes "av_continue"
recovery_text reboot = codes "reboot"

-- `str.lower` keeps a text of small letters and underscores.
abbrev pub is_small : ℕ → Bool
is_small c = (leb 97 c && leb c 122) || c == 95

abbrev pub all_small : Text → Bool
all_small [] = true
all_small (c ∷ s) = is_small c && all_small s

abbrev pub KeepsSmall : {W : Type 0} → Builtins W → Type 0
KeepsSmall py = (s : Text) → all_small s ≡ true → py.lower s ≡ s

module _ {W : Type 0} where
  -- A note written out as a request, at its time in milliseconds.
  abbrev pub same_value : Option SameMoment → Option (Value W)
  same_value none = none
  same_value (some s) = some (text (same_moment_text s))

  abbrev pub body_of : ℤ → Kind → Text → Text → Option (Picture W) → Body W
  body_of ms kind location note none = record {
    kind = some (text (kind_text kind));
    observed_at_ms = some (int ms);
    note = some (text note);
    pika_location = some (text location);
    tv_count = none;
    same_moment = none;
    tv_source = none;
    blank_s = none;
    recovery = none;
  }
  body_of ms kind location note (some p) = record {
    kind = some (text (kind_text kind));
    observed_at_ms = some (int ms);
    note = some (text note);
    pika_location = some (text location);
    tv_count = some (text (tv_count_text p.tv_count));
    same_moment = same_value p.same_moment;
    tv_source = some (text (tv_source_text p.tv_source));
    blank_s = some (real p.blank_s);
    recovery = some (text (recovery_text p.recovery));
  }

module _ {W : Type 0} ⦃fl : Float W⦄ where
  -- A blank that the code does not change.
  abbrev pub IsExactBlank : W → Type 0
  IsExactBlank x =
      (fl.round x 2 ≡ x) × (fl.le (fl.decimal 1 1) x ≡ true) × (fl.le x (fl.decimal 100 1) ≡ true)

  abbrev pub IsExactPicture : Kind → Option (Picture W) → Type 0
  IsExactPicture lights none = Unit
  IsExactPicture lights (some p) = ⊥
  IsExactPicture _ none = ⊥
  IsExactPicture _ (some p) = SameAllowed p.tv_count p.same_moment × IsExactBlank p.blank_s

module _ {W : Type 0} ⦃fl : Float W⦄ (py : Builtins W) (small : KeepsSmall py) where
  pub kind_word : (w : Kind) → kind_of (word_or py [] (some (text (kind_text w)))) ≡ ok w
  unfolding kind_of text_or str strip lstrip is_space same
  kind_word lights = ap kind_of (small (codes "lights") refl)
  kind_word tv = ap kind_of (small (codes "tv") refl)
  kind_word both = ap kind_of (small (codes "both") refl)

  pub tv_count_word :
      (w : TvCount)
      → tv_count_of (word_or py (codes "unsure") (some (text (tv_count_text w)))) ≡ ok w
  unfolding tv_count_of text_or str strip lstrip is_space same
  tv_count_word one = ap tv_count_of (small (codes "one") refl)
  tv_count_word several = ap tv_count_of (small (codes "several") refl)
  tv_count_word unsure = ap tv_count_of (small (codes "unsure") refl)

  pub same_moment_word :
      (w : SameMoment)
      → same_moment_of (word_or py (codes "unsure") (some (text (same_moment_text w)))) ≡ ok w
  unfolding same_moment_of text_or str strip lstrip is_space same
  same_moment_word together = ap same_moment_of (small (codes "together") refl)
  same_moment_word unsure = ap same_moment_of (small (codes "unsure") refl)

  pub tv_source_word :
      (w : TvSource)
      → tv_source_of (word_or py (codes "unsure") (some (text (tv_source_text w)))) ≡ ok w
  unfolding tv_source_of text_or str strip lstrip is_space same
  tv_source_word internal = ap tv_source_of (small (codes "internal") refl)
  tv_source_word external = ap tv_source_of (small (codes "external") refl)
  tv_source_word mixed = ap tv_source_of (small (codes "mixed") refl)
  tv_source_word unsure = ap tv_source_of (small (codes "unsure") refl)

  pub recovery_word :
      (w : Recovery)
      → recovery_of (word_or py (codes "av_continue") (some (text (recovery_text w)))) ≡ ok w
  unfolding recovery_of text_or str strip lstrip is_space same
  recovery_word av_continue = ap recovery_of (small (codes "av_continue") refl)
  recovery_word reboot = ap recovery_of (small (codes "reboot") refl)
