-- ===== src/Observations/Examples.antt =====
-- Runs of the note service, and applications of its theorems: the trend of one small file, no events,
-- numbers in hundredths.
use pika_pika.Prelude.{
  ℕ, ◌+◌, ◌*◌, ◌≡◌, refl, inl, inr, max, true, false, none, some, List, [], ◌∷◌, arith, All,
  IsOneOf, done, Returns, ok, error,
}
use pika_pika.Prelude.Int.{◌-ℤ◌, pos, negsuc, sub_ℕ, ◌≤ℤ◌}
use pika_pika.Float.Fixed.{Fixed, fixed_float, Fixed-IsOrdered}
use pika_pika.Text.{Text, codes, strip, lstrip, is_space}
use pika_pika.History.Format.{Interval}
use pika_pika.History.Sample.{scale, file}
use pika_pika.Events.{Settings}
use pika_pika.Observations.Note.{tv, several, together, external, av_continue, Picture, Entry}
use pika_pika.Observations.Stats.{LowRun, Flagged, better, run_end, run_loop, longest_run}
use pika_pika.Observations.Stats.Run.{Stretch, longest_run-longest}
use pika_pika.Observations.Correlate.{Sources, AreInWindow, Correlation, measure_window, correlate}
use pika_pika.Observations.Correlate.Extremes.{measure_window-extremes}
use pika_pika.Observations.Correlate.Window.{IsWithin, correlate-IsWithin}
use pika_pika.Observations.Correlate.Services.{services, services-AreInWindow}
use pika_pika.Observations.Validate.{Body, Builtins, too_far_in_future, validate}
use pika_pika.Observations.Validate.Words.{KeepsSmall, body_of}
use pika_pika.Observations.Validate.Accepts.{validate-body_of}
use pika_pika.Observations.Validate.Untimely.{validate-untimely}
use pika_pika.Observations.Notes.{
  Note, stored, Journal, created, found, notes_of, read_all, append, public_note, list_notes,
  correlated, stored_note, get_note, create_note,
}
use pika_pika.Observations.Notes.Latest.{create_note-get_note}
use pika_pika.Observations.Notes.Reachable.{
  IsKept, request, Reachable, start, next, Reachable-IsKept,
}
use pika_pika.Observations.Export.{Clock}
use pika_pika.Observations.Export.Page.{safe_payload, replace, replace_loop, after_prefix}

-- Two runs, of two and of three items.
abbrev flagged : List Flagged
flagged = (10, true) ∷ (11, true) ∷ (12, false) ∷ (13, true) ∷ (14, true) ∷ (16, true) ∷ []

longest_of_two :
    longest_run flagged 1 ≡ some (record { start_ns = 13; end_ns = 16; duration_ns = pos 4 })
unfolding longest_run run_loop run_end better
longest_of_two = refl

longest_run-longest_example :
    (r : LowRun) × (longest_run flagged 1 ≡ some r)
    × Stretch (max (1 * 2) 1) flagged r.start_ns r.end_ns
    × (r.duration_ns ≡ sub_ℕ (r.end_ns + 1) r.start_ns)
    × (sub_ℕ (11 + 1) 10 ≤ℤ r.duration_ns)
longest_run-longest_example =
    longest_run-longest flagged 1 10 11
      (
        (omega arith, (omega arith, (omega arith, (omega arith, (omega arith, tt))))),
        (
          (omega arith, (omega arith, (omega arith, (omega arith, tt)))),
          (
            (omega arith, (omega arith, (omega arith, tt))),
            ((omega arith, (omega arith, tt)), ((omega arith, tt), (tt, tt))),
          ),
        ),
      )
      (inl (refl, refl, inr (refl, omega arith, inl refl)))

abbrev interval : ℕ → ℕ → Interval Fixed
interval t v = record { vrms = some (pos v); low = some (negsuc v); high = some (pos v); stamp = t }

abbrev intervals : List (Interval Fixed)
intervals = interval 10 12_000 ∷ interval 20 11_500 ∷ interval 30 12_200 ∷ []

measure_window-extremes_example :
    let rows = interval 10 12_000 ∷ interval 20 11_500 ∷ interval 30 12_200 ∷ [] in
    let m =
      measure_window
        (some (pos 12_000))
        (some (pos 12_000))
        (interval 10 12_000)
        (interval 20 11_500 ∷ interval 30 12_200 ∷ []) in
    (low : Interval Fixed) × (high : Interval Fixed) × IsOneOf low rows
    × IsOneOf high rows
    × (m.lowest_vrms_v ≡ low.vrms)
    × (m.lowest_vrms_ns ≡ low.stamp)
    × (m.highest_vrms_v ≡ high.vrms)
    × (m.highest_vrms_ns ≡ high.stamp)
    × All (λ i. fixed_float.le low.vrms i.vrms ≡ true) rows
    × All (λ i. fixed_float.le i.vrms high.vrms ≡ true) rows
measure_window-extremes_example =
    measure_window-extremes Fixed-IsOrdered (some (pos 12_000)) (some (pos 12_000))
      (interval 10 12_000) (interval 20 11_500 ∷ interval 30 12_200 ∷ []) (refl, (refl, (refl, tt)))

abbrev settings : Settings Fixed
settings = record {
  scale = some (pos 5);
  nominal_rate_hz = pos 8000;
  target_mains_vrms = some (pos 12_000);
  review = none;
}

abbrev sources : Sources Fixed
sources = services scale none (some file) settings none none (some (negsuc 999)) (some (pos 1000))

services-AreInWindow_example : AreInWindow sources
services-AreInWindow_example =
    services-AreInWindow scale none (some file) settings none none (some (negsuc 999))
      (some (pos 1000))

sources-AreInWindow : AreInWindow sources
sources-AreInWindow =
    services-AreInWindow scale none (some file) settings none none (some (negsuc 999))
      (some (pos 1000))

abbrev dark : Picture Fixed
dark = record {
  tv_count = several;
  same_moment = some together;
  tv_source = external;
  blank_s = some (pos 80);
  recovery = av_continue;
}

abbrev entry : Entry Fixed
entry = record {
  observed_at_ns = pos 2_000_000;
  kind = tv;
  pika_location = codes "shed";
  note = codes "both sets went dark";
  picture = some dark;
}

correlate-IsWithin_example : Returns (correlate sources entry true) (λ o.
    (k : Correlation Fixed) × (o ≡ some k)
    × IsWithin (pos 2_000_000 -ℤ pos 60_000_000_000) (pos 2_000_000) k.stats)
correlate-IsWithin_example = correlate-IsWithin sources sources-AreInWindow entry true

-- A stand-in for the functions of Python, on texts of small letters.
abbrev python : Builtins Fixed
python = record {
  str_int = λ z. codes "0";
  str_real = λ x. codes "0.0";
  lower = λ s. s;
  parse_int = λ s. none;
  parse_float = λ s. none;
}

python-KeepsSmall : KeepsSmall python
python-KeepsSmall s h = refl

abbrev request_body : Body Fixed
request_body = body_of (pos 2) tv (codes "shed") (codes "both sets went dark") (some dark)

validate-body_of_example : validate python (some request_body) 1_000_000 ≡ ok entry
unfolding strip lstrip is_space ◌-ℤ◌
validate-body_of_example =
    validate-body_of python python-KeepsSmall 1_000_000 (pos 2) tv (codes "shed")
      (codes "both sets went dark") (some dark) (omega arith, omega arith) refl (omega arith) refl
      (omega arith, omega arith) (tt, (refl, refl, refl))

request_accepted : validate python (some request_body) 1_000_000 ≡ ok entry
unfolding strip lstrip is_space ◌-ℤ◌
request_accepted =
    validate-body_of python python-KeepsSmall 1_000_000 (pos 2) tv (codes "shed")
      (codes "both sets went dark") (some dark) (omega arith, omega arith) refl (omega arith) refl
      (omega arith, omega arith) (tt, (refl, refl, refl))

abbrev note : Note Fixed
note = record { id = codes "a1"; created_at_ns = 1_000_001; entry = entry; digest = none }

create_note-get_note_example :
    (k : Correlation Fixed) × (create_note sources python
        (some request_body)
        none
        1_000_000
        (codes "a1")
        1_000_001
      ≡ ok (done (created (correlated note k) (append none (stored_note note k)))))
    × (get_note sources (append none (stored_note note k)) (codes "a1")
        ≡ done (found (correlated (stored_note note k) k)))
create_note-get_note_example =
    create_note-get_note sources sources-AreInWindow python (some request_body) none 1_000_000
      (codes "a1") 1_000_001 entry request_accepted

abbrev journal : Journal Fixed
journal = some (stored note ∷ [])

abbrev newer : Note Fixed
newer = record { id = codes "b2"; created_at_ns = 1_000_002; entry = entry; digest = none }

one_listed : list_notes journal 30 ≡ public_note note ∷ []
unfolding list_notes read_all notes_of
one_listed = refl

-- The file after the request.
abbrev after_request : (k : Correlation Fixed) → Journal Fixed
after_request k = append none (stored_note note k)

request-Reachable : (k : Correlation Fixed) × Reachable python (after_request k)
request-Reachable =
    let (k, e, shown) =
      create_note-get_note sources sources-AreInWindow python (some request_body) none 1_000_000
        (codes "a1") 1_000_001 entry request_accepted in
    (
      k,
      next none (after_request k) start (
          request sources (some request_body) none (after_request k) 1_000_000 (codes "a1")
            1_000_001 (correlated note k) e),
    )

Reachable-IsKept_example : All IsKept (read_all (after_request request-Reachable.0))
Reachable-IsKept_example =
    Reachable-IsKept python (after_request request-Reachable.0) request-Reachable.1

-- A clock that names no time.
abbrev clock : Clock
clock = λ ns. none

abbrev end_of_script : Text
end_of_script = codes "</script>"

escaped : safe_payload end_of_script ≡ codes "\\u003c/script>"
unfolding safe_payload replace replace_loop after_prefix
escaped = refl

validate-untimely_example :
    validate python
      (some (body_of (pos 300_002) tv (codes "") (codes "late") (some dark)))
      1_000_000
    ≡ error too_far_in_future
validate-untimely_example =
    validate-untimely python python-KeepsSmall 1_000_000 (pos 300_002) tv (codes "") (codes "late")
      (some dark) (inl (omega arith))
