-- ===== src/Review/Examples.antt =====
-- Runs of the review policy, and applications of its theorems, with numbers in hundredths.
use pika_pika.Prelude.{◌≡◌, refl, true, false, none, some}
use pika_pika.Prelude.Int.{pos}
use pika_pika.Float.Fixed.{Fixed, fixed_float, Fixed-IsOrdered}
use pika_pika.Review.{
  sag, dip, defaults, policy_from_config, pct_of_nominal, review_of, awareness_only,
  evaluate_event_review,
}
use pika_pika.Review.Severity.{
  IsGraded, evaluate_event_review-sag_worse, evaluate_event_review-in_range_b,
}

-- 72 V and 60 V of 120 V, 140 V and 150 V, 118 V; 0.1 s and 0.2 s.
abbrev half_sag : Fixed
half_sag = some (pos 7200)

abbrev nominal : Fixed
nominal = some (pos 12_000)

deep_sag_flagged :
    (evaluate_event_review none sag half_sag (some (pos 10_000)) nominal).needs_review ≡ true
unfolding evaluate_event_review review_of policy_from_config defaults pct_of_nominal
deep_sag_flagged = refl

evaluate_event_review-sag_worse_example :
    (evaluate_event_review none sag (some (pos 6000)) (some (pos 20_000)) nominal).needs_review
    ≡ true
unfolding evaluate_event_review review_of policy_from_config defaults pct_of_nominal
evaluate_event_review-sag_worse_example =
    evaluate_event_review-sag_worse Fixed-IsOrdered none half_sag (some (pos 6000))
      (some (pos 10_000)) (some (pos 20_000)) nominal nominal refl refl refl refl

defaults-IsGraded : IsGraded (policy_from_config {W = Fixed} none)
unfolding policy_from_config defaults
defaults-IsGraded = record {
  interruption_low = refl;
  deep_sag_low = refl;
  damaging_swell_high = refl;
}

evaluate_event_review-in_range_b_example :
    let r = evaluate_event_review none dip (some (pos 11_800)) (some (pos 9_000_000)) nominal in
    (r.needs_review ≡ false) × (r.reason ≡ awareness_only)
unfolding policy_from_config defaults pct_of_nominal
evaluate_event_review-in_range_b_example =
    evaluate_event_review-in_range_b Fixed-IsOrdered none dip (some (pos 11_800))
      (some (pos 9_000_000)) nominal defaults-IsGraded refl refl
