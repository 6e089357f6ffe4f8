-- ===== src/Review.antt =====
-- pika/webapp/app/services/review_policy.py: which logged events a professional should review, and
-- the event types of event_service.py. A text of the verdict is the constructor that stands for it,
-- with the numbers that it prints.
pub mod Severity
mod Examples
use pika_pika.Prelude.{ℕ, Bool, true, false, Option, none, some, ◌&&◌, ◌||◌, if◌then◌else◌, ◌==◌}
use pika_pika.Float.{Float, of_nat}

pub data EventType : Type 0 where
  no_event sag swell spike dip unknown : EventType

-- `_type_name`, of an unsigned byte.
unfoldable pub type_name : ℕ → EventType
type_name etype =
    if etype == 0
    then no_event
    else if etype == 1
    then sag
    else if etype == 2
    then swell
    else if etype == 3
    then spike
    else if etype == 4
    then dip
    else unknown

abbrev pub is_sag : EventType → Bool
is_sag sag = true
is_sag _ = false

abbrev pub is_swell : EventType → Bool
is_swell swell = true
is_swell _ = false

pub record Policy (W : Type 0) : Type 0 where
  pub interruption_pct : W
  pub deep_sag_pct : W
  pub damaging_swell_pct : W
  pub sustained_duration_ms : W
  pub range_b_low_pct : W
  pub range_b_high_pct : W

-- The numbers of `config["review"]`: `none` is a key that is missing or null.
pub record Section (W : Type 0) : Type 0 where
  pub interruption_pct : Option W
  pub deep_sag_pct : Option W
  pub damaging_swell_pct : Option W
  pub sustained_duration_ms : Option W
  pub range_b_low_pct : Option W
  pub range_b_high_pct : Option W

abbrev pub value_or : {W : Type 0} → Option W → W → W
value_or none d = d
value_or (some x) d = x

-- The reason of a verdict, and with it the guidance: one for each `return`.
pub data Reason (W : Type 0) : Type 0 where
  interruption : (volts pct nominal : W) → Reason W
  deep_sag : (volts pct limit : W) → Reason W
  damaging_swell : (volts pct limit : W) → Reason W
  sustained : (volts seconds low high : W) → Reason W
  awareness_only : Reason W

pub record Verdict (W : Type 0) : Type 0 where
  pub needs_review : Bool
  pub reason : Reason W

module _ {W : Type 0} ⦃fl : Float W⦄ where
  unfoldable pub defaults : Policy W
  defaults = record {
    interruption_pct = fl.decimal 100 1;
    deep_sag_pct = fl.decimal 700 1;
    damaging_swell_pct = fl.decimal 1200 1;
    sustained_duration_ms = fl.decimal 600_000 1;
    range_b_low_pct = fl.sub (of_nat 0) (fl.decimal 133 1);
    range_b_high_pct = fl.decimal 58 1;
  }

  -- `none` is a configuration without a `review` section.
  unfoldable pub policy_from_config : Option (Section W) → Policy W
  unfolding defaults
  policy_from_config none = defaults
  policy_from_config (some c) = record {
    interruption_pct = value_or c.interruption_pct defaults.interruption_pct;
    deep_sag_pct = value_or c.deep_sag_pct defaults.deep_sag_pct;
    damaging_swell_pct = value_or c.damaging_swell_pct defaults.damaging_swell_pct;
    sustained_duration_ms = value_or c.sustained_duration_ms defaults.sustained_duration_ms;
    range_b_low_pct = value_or c.range_b_low_pct defaults.range_b_low_pct;
    range_b_high_pct = value_or c.range_b_high_pct defaults.range_b_high_pct;
  }

  -- A nominal voltage that is not positive is replaced.
  abbrev pub nominal_or_default : W → W
  nominal_or_default nominal = if fl.le nominal (of_nat 0) then fl.decimal 1200 1 else nominal

  unfoldable pub pct_of_nominal : W → W → W
  pct_of_nominal extreme_rms_v nominal =
      fl.mul (fl.div extreme_rms_v (nominal_or_default nominal)) (fl.decimal 1000 1)

  abbrev pub range_b_low : Policy W → W
  range_b_low p = fl.add (fl.decimal 1000 1) p.range_b_low_pct

  abbrev pub range_b_high : Policy W → W
  range_b_high p = fl.add (fl.decimal 1000 1) p.range_b_high_pct

  -- The tests in the order of the code, on the percentage.
  unfoldable pub review_of : Policy W → EventType → W → W → W → W → Verdict W
  review_of p event_type extreme_rms_v duration_ms nominal pct =
      if fl.le pct p.interruption_pct
      then record { needs_review = true; reason = interruption extreme_rms_v pct nominal }
      else if is_sag event_type && fl.le pct p.deep_sag_pct
      then record { needs_review = true; reason = deep_sag extreme_rms_v pct p.deep_sag_pct }
      else if is_swell event_type && fl.le p.damaging_swell_pct pct
      then record {
        needs_review = true;
        reason = damaging_swell extreme_rms_v pct p.damaging_swell_pct;
      }
      else if fl.le p.sustained_duration_ms duration_ms
          && (fl.le pct (range_b_low p) || fl.le (range_b_high p) pct)
      then record {
        needs_review = true;
        reason =
            sustained extreme_rms_v (fl.div duration_ms (fl.decimal 10_000 1)) (range_b_low p)
              (range_b_high p);
      }
      else record { needs_review = false; reason = awareness_only }

  unfoldable pub evaluate_event_review : Option (Section W) → EventType → W → W → W → Verdict W
  evaluate_event_review config event_type extreme_rms_v duration_ms nominal =
      review_of (policy_from_config config) event_type extreme_rms_v duration_ms
        (nominal_or_default nominal) (pct_of_nominal extreme_rms_v nominal)
