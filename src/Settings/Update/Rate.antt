-- ===== src/Settings/Update/Rate.antt =====
-- main.py: `update_sample_rate`. A request either changes nothing or writes an allowed rate.
use pika_pika.Prelude.{
  ℕ, ◌==◌, ◌≡◌, refl, ◌⊎◌, inl, inr, Bool, true, false, ◌||◌, Option, none, some, List, [], ◌∷◌,
  IsOneOf, ltb, ap, arith, ◌<◌, ◌≤◌, if◌then◌else◌, Bool-cases, suc, Result, ok, and_then,
}
use pika_pika.Prelude.Int.{ℤ, pos, negsuc, pos_part}
use pika_pika.Float.{Float}
use pika_pika.Text.{Text}
use pika_pika.Observations.Validate.{Value}
use pika_pika.Settings.Persist.{persist_nominal_rate_hz}
use pika_pika.Settings.Persist.Layout.{layout}
use pika_pika.Settings.Persist.Rate.{persist_nominal_rate_hz-layout}
use pika_pika.Web.Health.{ScopeHeader, field_or_zero}
use pika_pika.Settings.Config.{Node, Raised, get_nominal_rate_hz}
use pika_pika.Settings.Config.Defaults.{load_config}
use pika_pika.Settings.Update.{
  pika_yaml_path-write_text, pika_yaml_path, Server, Library, int_or, saved, restarted,
}

abbrev pub allowed_sample_rates_hz : List ℕ
allowed_sample_rates_hz =
    10 ∷ 20 ∷ 50 ∷ 100 ∷ 200 ∷ 500 ∷ 1000 ∷ 2000 ∷ 5000 ∷ 10_000 ∷ 20_000 ∷ 50_000 ∷ 100_000
    ∷ 150_000 ∷ 180_000 ∷ []

abbrev pub aliasing_warn_below_hz : ℕ
aliasing_warn_below_hz = 120

unfoldable pub is_among : ℕ → List ℕ → Bool
is_among n [] = false
is_among n (x ∷ xs) = n == x || is_among n xs

unfoldable pub is_allowed_rate : ℤ → Bool
unfolding is_among
is_allowed_rate (pos n) = is_among n allowed_sample_rates_hz
is_allowed_rate (negsuc n) = false

pub data RateReply : Type 0 where
  rate_not_allowed rate_no_file rate_failed : RateReply
  rate_updated : (sample_rate : ℕ) (aliasing_warning : Bool) → RateReply

module _ {W : Type 0} ⦃fl : Float W⦄ (lib : Library W) where
  -- With the text that replaces the file's.
  unfoldable pub save_rate : Server W → ℕ → Option Text → RateReply × Server W
  save_rate s rate none = (rate_failed, s)
  save_rate s rate (some new) =
      (rate_updated rate (ltb rate aliasing_warn_below_hz), restarted (saved lib s new))

  -- With the file's text.
  unfoldable pub write_rate : Server W → ℕ → Option Text → RateReply × Server W
  write_rate s rate none = (rate_no_file, s)
  write_rate s rate (some old) = save_rate s rate (persist_nominal_rate_hz old rate)

  unfoldable pub request_rate : Server W → Option ℤ → RateReply × Server W
  unfolding is_allowed_rate
  request_rate s none = (rate_failed, s)
  request_rate s (some z) =
      if is_allowed_rate z
      then write_rate s (pos_part z) (pika_yaml_path s.files)
      else (rate_not_allowed, s)

  -- `none` is a body that is no JSON object.
  unfoldable pub update_sample_rate : Option (Option (Value W)) → Server W → RateReply × Server W
  update_sample_rate none s = (rate_failed, s)
  update_sample_rate (some field) s = request_rate s (int_or lib (pos 10_000) field)

-- The answer of `get_sample_rate`, next to the two constants.
pub record RateStatus : Type 0 where
  pub sample_rate : ℤ
  pub configured_sample_rate : ℤ

unfoldable pub get_sample_rate :
    {W : Type 0} ⦃fl : Float W⦄
    → (Text → Option ℤ)
    → Option ScopeHeader
    → Node W
    → Result Raised RateStatus
get_sample_rate parse_int header config =
    and_then (get_nominal_rate_hz parse_int config) (λ configured.
      let live = field_or_zero (λ h. h.sample_rate) header in
      ok (record {
        sample_rate = if live == 0 then configured else pos live;
        configured_sample_rate = configured;
      }))

abbrev pub has_updated : RateReply → Bool
has_updated (rate_updated n w) = true
has_updated _ = false

is_among-IsOneOf : (n : ℕ) (xs : List ℕ) → is_among n xs ≡ true → IsOneOf n xs
unfolding is_among
is_among-IsOneOf n [] h = absurd (cc)
is_among-IsOneOf n (x ∷ xs) h = elim (Bool-cases (n == x)) [
  | inl same ↦ inl (ground arith)
  | inr other ↦ let h' = rw other at h in inr (is_among-IsOneOf n xs h')
]

-- From one state to the next, the rate that a request asks for (10 kHz where the field is missing) has
-- been written.
pub record IsRateSaved {W : Type 0} ⦃fl : Float W⦄ (lib : Library W) (field : Option (Value W))
    (s : Server W) (r : RateReply) (t : Server W) : Type 0 where
  pub rate : ℕ
  pub old : Text
  pub new : Text
  pub asked : int_or lib (pos 10_000) field ≡ some (pos rate)
  pub allowed : IsOneOf rate (
      10 ∷ 20 ∷ 50 ∷ 100 ∷ 200 ∷ 500 ∷ 1000 ∷ 2000 ∷ 5000 ∷ 10_000 ∷ 20_000 ∷ 50_000 ∷ 100_000
      ∷ 150_000 ∷ 180_000 ∷ [])
  pub reply :
      ((rate < 120) × (r ≡ rate_updated rate true)) ⊎ ((120 ≤ rate) × (r ≡ rate_updated rate false))
  pub was : pika_yaml_path s.files ≡ some old
  pub written : persist_nominal_rate_hz old rate ≡ some new
  pub kept : layout new ≡ layout old
  pub now : pika_yaml_path t.files ≡ some new
  pub loaded : t.config ≡ load_config lib.safe_load t.files.pika_yaml
  pub restart : t.restarts ≡ suc s.restarts

module _ {W : Type 0} ⦃fl : Float W⦄ (lib : Library W) where
  -- Nothing has changed and the answer is no success.
  abbrev pub IsUnchanged : Server W → RateReply × Server W → Type 0
  IsUnchanged s (r, t) = (t ≡ s) × (has_updated r ≡ false)

  -- Either nothing has changed, or the rate has been saved.
  abbrev pub RateOutcome : Option (Option (Value W)) → Server W → RateReply × Server W → Type 0
  RateOutcome none s r = IsUnchanged s r
  RateOutcome (some field) s (r, t) = IsUnchanged s (r, t) ⊎ IsRateSaved lib field s r t

  warning_reply :
      (rate : ℕ)
      → ((rate < 120)
          × (rate_updated rate (ltb rate aliasing_warn_below_hz) ≡ rate_updated rate true))
        ⊎ ((120 ≤ rate)
            × (rate_updated rate (ltb rate aliasing_warn_below_hz) ≡ rate_updated rate false))
  warning_reply rate = elim (Bool-cases (ltb rate aliasing_warn_below_hz)) [
    | inl low ↦ inl (ground arith, ap (rate_updated rate) low)
    | inr high ↦ inr (ground arith, ap (rate_updated rate) high)
  ]

  module _ (field : Option (Value W)) (s : Server W) (rate : ℕ)
      (asked : int_or lib (pos 10_000) field ≡ some (pos rate))
      (among : is_among rate allowed_sample_rates_hz ≡ true) where
    save_rate-RateOutcome :
        (old : Text) (o : Option Text)
        → pika_yaml_path s.files ≡ some old
        → persist_nominal_rate_hz old rate ≡ o
        → RateOutcome (some field) s (save_rate lib s rate o)
    unfolding save_rate saved
    save_rate-RateOutcome old none e f = inl (refl, refl)
    save_rate-RateOutcome old (some new) e f = inr (record {
      rate = rate;
      old = old;
      new = new;
      asked = asked;
      allowed = is_among-IsOneOf rate allowed_sample_rates_hz among;
      reply = warning_reply rate;
      was = e;
      written = f;
      kept = persist_nominal_rate_hz-layout old new rate f;
      now = pika_yaml_path-write_text s.files old new e;
      loaded = refl;
      restart = refl;
    })

    write_rate-RateOutcome :
        (path : Option Text)
        → pika_yaml_path s.files ≡ path
        → RateOutcome (some field) s (write_rate lib s rate path)
    unfolding write_rate
    write_rate-RateOutcome none e = inl (refl, refl)
    write_rate-RateOutcome (some old) e = save_rate-RateOutcome old _ e refl

  request_rate-RateOutcome :
      (field : Option (Value W)) (s : Server W) (request : Option ℤ)
      → int_or lib (pos 10_000) field ≡ request
      → RateOutcome (some field) s (request_rate lib s request)
  unfolding request_rate is_allowed_rate
  request_rate-RateOutcome field s none asked = inl (refl, refl)
  request_rate-RateOutcome field s (some (negsuc n)) asked = inl (refl, refl)
  request_rate-RateOutcome field s (some (pos n)) asked =
      elim (Bool-cases (is_among n allowed_sample_rates_hz)) [
        | inr other ↦ rw (request_rate, other) (inl (refl, refl))
        | inl among ↦
            rw (request_rate, among)
              (write_rate-RateOutcome field s n asked among (pika_yaml_path s.files) refl)
      ]

  -- Whatever the request and the state, `update_sample_rate` either answers with no success and
  -- leaves the files, the configuration and the scheduled restarts as they are, or it answers with
  -- success, and then the rate is `int` of the field of the request (10,000 without the field) and one
  -- of the fifteen allowed ones, the file that `_pika_yaml_path` leads to is what
  -- `_persist_nominal_rate_hz` makes of the old one for this rate, the same up to the characters of
  -- numbers, the configuration is the one loaded from the new files, one more restart is scheduled,
  -- and the answer warns exactly below 120 Hz.
  pub update_sample_rate-RateOutcome :
      (body : Option (Option (Value W))) (s : Server W)
      → RateOutcome body s (update_sample_rate lib body s)
  unfolding update_sample_rate
  update_sample_rate-RateOutcome none s = (refl, refl)
  update_sample_rate-RateOutcome (some field) s =
      request_rate-RateOutcome field s (int_or lib (pos 10_000) field) refl
