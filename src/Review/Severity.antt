-- ===== src/Review/Severity.antt =====
-- review_policy.py: comparing the verdicts of two events, and the tolerated range.
use pika_pika.Prelude.{◌≡◌, true, false, Option, arith}
use pika_pika.Float.{Float, IsOrdered}
use pika_pika.Review.{
  EventType, sag, swell, Policy, Section, policy_from_config, pct_of_nominal, range_b_low,
  range_b_high, review_of, awareness_only, evaluate_event_review,
}

-- The limits for single events lie outside of what range B tolerates.
pub record IsGraded {W : Type 0} ⦃fl : Float W⦄ (p : Policy W) : Type 0 where
  pub interruption_low : fl.le p.interruption_pct (range_b_low p) ≡ true
  pub deep_sag_low : fl.le p.deep_sag_pct (range_b_low p) ≡ true
  pub damaging_swell_high : fl.le (range_b_high p) p.damaging_swell_pct ≡ true

module _ {W : Type 0} ⦃fl : Float W⦄ (laws : IsOrdered W) where
  review_of-sag_worse :
      (p : Policy W) (v v' d d' n n' pct pct' : W)
      → fl.le pct' pct ≡ true
      → fl.le d d' ≡ true
      → fl.le (range_b_high p) pct ≡ false
      → (review_of p sag v d n pct).needs_review ≡ true
      → (review_of p sag v' d' n' pct').needs_review ≡ true
  unfolding review_of
  review_of-sag_worse p v v' d d' n n' pct pct' lower longer below flagged = ground (
    arith,
    laws.le-le pct' pct p.interruption_pct,
    laws.le-le pct' pct p.deep_sag_pct,
    laws.le-le pct' pct (range_b_low p),
    laws.le-le p.sustained_duration_ms d d',
  )

  review_of-swell_worse :
      (p : Policy W) (v v' d d' n n' pct pct' : W)
      → fl.le pct pct' ≡ true
      → fl.le d d' ≡ true
      → fl.le pct p.interruption_pct ≡ false
      → fl.le pct (range_b_low p) ≡ false
      → (review_of p swell v d n pct).needs_review ≡ true
      → (review_of p swell v' d' n' pct').needs_review ≡ true
  unfolding review_of
  review_of-swell_worse p v v' d d' n n' pct pct' higher longer above above' flagged = ground (
    arith,
    laws.le-le p.damaging_swell_pct pct pct',
    laws.le-le (range_b_high p) pct pct',
    laws.le-le p.sustained_duration_ms d d',
  )

  review_of-in_range_b :
      (p : Policy W) (t : EventType) (v d n pct : W)
      → IsGraded p
      → fl.le pct (range_b_low p) ≡ false
      → fl.le (range_b_high p) pct ≡ false
      → let r = review_of p t v d n pct in (r.needs_review ≡ false) × (r.reason ≡ awareness_only)
  unfolding review_of
  review_of-in_range_b p t v d n pct g above below = ground (
    arith,
    g.interruption_low,
    g.deep_sag_low,
    g.damaging_swell_high,
    laws.le-le pct p.interruption_pct (range_b_low p),
    laws.le-le pct p.deep_sag_pct (range_b_low p),
    laws.le-le (range_b_high p) p.damaging_swell_pct pct,
  )

  -- Take a sag that is flagged for review and whose percentage does not reach the upper end of range
  -- B. Another sag with no higher percentage of its nominal voltage, that lasts no shorter, is
  -- flagged under the same configuration.
  pub evaluate_event_review-sag_worse :
      (config : Option (Section W)) (v v' d d' n n' : W)
      → fl.le (pct_of_nominal v' n') (pct_of_nominal v n) ≡ true
      → fl.le d d' ≡ true
      → fl.le (range_b_high (policy_from_config config)) (pct_of_nominal v n) ≡ false
      → (evaluate_event_review config sag v d n).needs_review ≡ true
      → (evaluate_event_review config sag v' d' n').needs_review ≡ true
  unfolding evaluate_event_review
  evaluate_event_review-sag_worse config v v' d d' n n' =
      review_of-sag_worse (policy_from_config config) v v' d d' _ _ (pct_of_nominal v n)
        (pct_of_nominal v' n')

  -- Take a swell that is flagged for review and whose percentage is above the interruption limit and
  -- above the lower end of range B. Another swell with no lower percentage of its nominal voltage,
  -- that lasts no shorter, is flagged under the same configuration.
  pub evaluate_event_review-swell_worse :
      (config : Option (Section W)) (v v' d d' n n' : W)
      → fl.le (pct_of_nominal v n) (pct_of_nominal v' n') ≡ true
      → fl.le d d' ≡ true
      → fl.le (pct_of_nominal v n) (policy_from_config config).interruption_pct ≡ false
      → fl.le (pct_of_nominal v n) (range_b_low (policy_from_config config)) ≡ false
      → (evaluate_event_review config swell v d n).needs_review ≡ true
      → (evaluate_event_review config swell v' d' n').needs_review ≡ true
  unfolding evaluate_event_review
  evaluate_event_review-swell_worse config v v' d d' n n' =
      review_of-swell_worse (policy_from_config config) v v' d d' _ _ (pct_of_nominal v n)
        (pct_of_nominal v' n')

  -- If the configured limits for interruptions and deep sags lie no higher than range B begins, and
  -- the one for damaging swells no lower than it ends, then no event strictly inside range B is
  -- flagged, of whatever type and duration, and the verdict is for awareness only.
  pub evaluate_event_review-in_range_b :
      (config : Option (Section W)) (t : EventType) (v d n : W)
      → IsGraded (policy_from_config config)
      → fl.le (pct_of_nominal v n) (range_b_low (policy_from_config config)) ≡ false
      → fl.le (range_b_high (policy_from_config config)) (pct_of_nominal v n) ≡ false
      → let r = evaluate_event_review config t v d n in
        (r.needs_review ≡ false) × (r.reason ≡ awareness_only)
  unfolding evaluate_event_review
  evaluate_event_review-in_range_b config t v d n =
      review_of-in_range_b (policy_from_config config) t v d _ (pct_of_nominal v n)
