-- ===== src/Settings/Config.antt =====
-- config_service.py: the configuration as YAML values, its defaults, and what each getter reads.
pub mod Defaults
pub mod Range
use pika_pika.Prelude.{
  ℕ, suc, zero, ◌+◌, ◌-◌, ◌*◌, ◌^◌, ◌==◌, Bool, true, false, not, Option, none, some, List, [], ◌∷◌,
  if◌then◌else◌, Result, ok, error, and_then,
}
use pika_pika.Prelude.Int.{ℤ, pos, negsuc, magnitude, leb_ℤ, ltb_ℤ}
use pika_pika.Float.{Float, of_nat}
use pika_pika.Text.{Text, codes, same}
use pika_pika.Observations.Stats.{is_zero}

-- A value that `yaml.safe_load` returns; a sequence is whether it has items, and a mapping is its
-- entries with a text for a key.
mutual
  pub data Node (W : Type 0) : Type 0 where
    null : Node W
    boolean : Bool → Node W
    int : ℤ → Node W
    real : W → Node W
    text : Text → Node W
    sequence : Bool → Node W
    mapping : Fields W → Node W

  pub data Fields (W : Type 0) : Type 0 where
    end : Fields W
    entry : Text → Node W → Fields W → Fields W

-- The exceptions that a getter raises.
pub data Raised : Type 0 where
  attribute_error type_error value_error overflow_error : Raised

-- `min` and `max` of two integers.
abbrev pub min_ℤ : ℤ → ℤ → ℤ
min_ℤ a b = if ltb_ℤ b a then b else a

abbrev pub max_ℤ : ℤ → ℤ → ℤ
max_ℤ a b = if ltb_ℤ a b then b else a

-- `max(low, min(high, value))`.
unfoldable pub clamp : ℤ → ℤ → ℤ → ℤ
clamp low high value = max_ℤ low (min_ℤ high value)

module _ {W : Type 0} where
  unfoldable pub lookup : Text → Fields W → Option (Node W)
  lookup key end = none
  lookup key (entry k v rest) = if same k key then some v else lookup key rest

  -- `node.get(key)`; only a mapping has the method.
  unfoldable pub get : Node W → Text → Result Raised (Option (Node W))
  get (mapping fs) key = ok (lookup key fs)
  get _ key = error attribute_error

  abbrev pub node_or : Node W → Option (Node W) → Node W
  node_or default none = default
  node_or default (some v) = v

  -- `node.get(key, default)`.
  unfoldable pub get_or : Node W → Text → Node W → Result Raised (Node W)
  get_or node key default = and_then (get node key) (λ v. ok (node_or default v))

  -- `config.get(name, {}).get(key, default)`.
  unfoldable pub setting : Node W → Text → Text → Node W → Result Raised (Node W)
  setting config name key default =
      and_then (get_or config name (mapping end)) (λ s. get_or s key default)

  -- The same of a section within a section.
  unfoldable pub nested_setting : Node W → Text → Text → Text → Node W → Result Raised (Node W)
  nested_setting config name inner key default =
      and_then (get_or config name (mapping end))
        (λ s. and_then (get_or s inner (mapping end)) (λ t. get_or t key default))

module _ {W : Type 0} ⦃fl : Float W⦄ where
  -- `int(node)`; `parse_int` is that of a text, `none` where it raises ValueError.
  unfoldable pub int_of : (Text → Option ℤ) → Node W → Result Raised ℤ
  int_of parse_int null = error type_error
  int_of parse_int (boolean b) = ok (if b then pos 1 else pos 0)
  int_of parse_int (int z) = ok z
  int_of parse_int (real x) =
      if fl.is_finite x
      then ok (fl.trunc x)
      else if fl.le x x
      then error overflow_error
      else error value_error
  int_of parse_int (text s) = elim (parse_int s) [ none ↦ error value_error | some z ↦ ok z ]
  int_of parse_int (sequence filled) = error type_error
  int_of parse_int (mapping fs) = error type_error

  -- `node or {}`.
  unfoldable pub or_empty : Node W → Node W
  or_empty null = mapping end
  or_empty (boolean b) = if b then boolean b else mapping end
  or_empty (int z) = if magnitude z == 0 then mapping end else int z
  or_empty (real x) = if is_zero x then mapping end else real x
  or_empty (text []) = mapping end
  or_empty (text (c ∷ s)) = text (c ∷ s)
  or_empty (sequence filled) = if filled then sequence filled else mapping end
  or_empty (mapping fs) = mapping fs

  -- An operand of `/` and `*` beside a float.
  unfoldable pub number_of_node : Node W → Result Raised W
  number_of_node (boolean b) = ok (if b then of_nat 1 else of_nat 0)
  number_of_node (int z) =
      if fl.is_finite (fl.of_int z) then ok (fl.of_int z) else error overflow_error
  number_of_node (real x) = ok x
  number_of_node _ = error type_error

  unfoldable pub get_adc_vref : Node W → Result Raised (Node W)
  get_adc_vref c = setting c (codes "sensor") (codes "adc_vref") (real (fl.decimal 495 2))

  unfoldable pub get_adc_bits : Node W → Result Raised (Node W)
  get_adc_bits c = setting c (codes "sensor") (codes "adc_bits") (int (pos 16))

  unfoldable pub get_transformer_ratio : Node W → Result Raised (Node W)
  get_transformer_ratio c =
      setting c (codes "sensor") (codes "transformer_ratio") (real (fl.decimal 1200 1))

  unfoldable pub get_target_mains_vrms : Node W → Result Raised (Node W)
  get_target_mains_vrms c =
      setting c (codes "sensor") (codes "target_mains_vrms") (real (fl.decimal 1200 1))

  unfoldable pub get_ac_freq_hz : Node W → Result Raised (Node W)
  get_ac_freq_hz c = setting c (codes "detection") (codes "ac_freq_hz") (int (pos 60))

  unfoldable pub get_log_level : Node W → Result Raised (Node W)
  get_log_level c = setting c (codes "logging") (codes "level") (text (codes "info"))

  unfoldable pub get_sag_threshold_pct : Node W → Result Raised (Node W)
  get_sag_threshold_pct c =
      nested_setting c (codes "anomalies") (codes "sag") (codes "threshold_pct") (int (negsuc 9))

  unfoldable pub get_swell_threshold_pct : Node W → Result Raised (Node W)
  get_swell_threshold_pct c =
      nested_setting c (codes "anomalies") (codes "swell") (codes "threshold_pct") (int (pos 10))

  -- The operand of `<<`.
  unfoldable pub shift_of : Node W → Result Raised ℤ
  shift_of (boolean b) = ok (if b then pos 0 else negsuc 0)
  shift_of (int (pos zero)) = ok (negsuc 0)
  shift_of (int (pos (suc n))) = ok (pos n)
  shift_of (int (negsuc n)) = ok (negsuc (suc n))
  shift_of _ = error type_error

  -- `float(1 << (adc_bits - 1))`.
  unfoldable pub full_scale_of : ℤ → Result Raised W
  full_scale_of (pos n) =
      if fl.is_finite (of_nat (2 ^ n)) then ok (of_nat (2 ^ n)) else error overflow_error
  full_scale_of (negsuc n) = error value_error

  unfoldable pub get_calibration_scale : Node W → Result Raised W
  get_calibration_scale c = and_then (get_adc_vref c) (λ vref. and_then (get_adc_bits c) (λ bits.
      and_then (get_transformer_ratio c) (λ ratio. and_then (shift_of bits) (λ shift.
        and_then (full_scale_of shift) (λ full_scale.
          and_then (number_of_node vref)
            (λ v. and_then (number_of_node ratio) (λ r. ok (fl.mul (fl.div v full_scale) r))))))))

module _ (W : Type 0) ⦃fl : Float W⦄ where
  -- `round(points / 5.0 / 60.0)`.
  unfoldable pub minutes_of_points : ℤ → Result Raised ℤ
  minutes_of_points points =
      if fl.is_finite (fl.of_int points)
      then ok (fl.nearest (fl.div (fl.div (fl.of_int points) (of_nat 5)) (of_nat 60)))
      else error overflow_error

module _ {W : Type 0} ⦃fl : Float W⦄ (parse_int : Text → Option ℤ) where
  unfoldable pub get_sag_min_duration_ms : Node W → Result Raised ℤ
  get_sag_min_duration_ms c =
      and_then
        (nested_setting c (codes "anomalies") (codes "sag") (codes "min_duration_ms") (int (pos 9)))
        (int_of parse_int)

  unfoldable pub get_swell_min_duration_ms : Node W → Result Raised ℤ
  get_swell_min_duration_ms c =
      and_then
        (nested_setting c (codes "anomalies") (codes "swell") (codes "min_duration_ms")
          (int (pos 9)))
        (int_of parse_int)

  unfoldable pub get_sag_cooldown_ms : Node W → Result Raised ℤ
  get_sag_cooldown_ms c =
      and_then (setting c (codes "debounce") (codes "sag_cooldown_ms") (int (pos 1000)))
        (int_of parse_int)

  unfoldable pub get_swell_cooldown_ms : Node W → Result Raised ℤ
  get_swell_cooldown_ms c =
      and_then (setting c (codes "debounce") (codes "swell_cooldown_ms") (int (pos 1000)))
        (int_of parse_int)

  unfoldable pub get_history_max_points : Node W → Result Raised ℤ
  get_history_max_points c =
      and_then (setting c (codes "webapp") (codes "history_max_points") (int (pos 20_000)))
        (int_of parse_int)

  -- The lookback from the key, or from the older cap where it is missing or null.
  unfoldable pub window_from : Node W → Option (Node W) → Result Raised ℤ
  window_from c none = and_then (get_history_max_points c) (minutes_of_points W)
  window_from c (some null) = and_then (get_history_max_points c) (minutes_of_points W)
  window_from c (some v) = int_of parse_int v

  unfoldable pub get_history_window_minutes : Node W → Result Raised ℤ
  get_history_window_minutes c = and_then (get_or c (codes "webapp") (mapping end)) (λ web.
      and_then (get (or_empty web) (codes "history_window_minutes"))
        (λ v. and_then (window_from c v) (λ minutes. ok (clamp (pos 1) (pos 720) minutes))))

  unfoldable pub get_history_display_points : Node W → Result Raised ℤ
  get_history_display_points c = and_then (get_or c (codes "webapp") (mapping end)) (λ web.
      and_then (get_or (or_empty web) (codes "history_display_points") (int (pos 800)))
        (λ v. and_then (int_of parse_int v) (λ points. ok (clamp (pos 100) (pos 2000) points))))

  unfoldable pub get_nominal_rate_hz : Node W → Result Raised ℤ
  get_nominal_rate_hz c =
      and_then (setting c (codes "sampling") (codes "nominal_rate_hz") (int (pos 10_000)))
        (int_of parse_int)
