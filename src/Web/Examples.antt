-- ===== src/Web/Examples.antt =====
-- Runs of the web application's own decisions, and applications of its theorems.
use pika_pika.Prelude.{ℕ, ◌≡◌, refl, true, false, none, some, List, [], ◌∷◌, IsOneOf}
use pika_pika.Prelude.Int.{pos}
use pika_pika.Float.Fixed.{Fixed, fixed_float}
use pika_pika.Text.{codes, same}
use pika_pika.Web.Storage.{
  Entry, last_dot, suffix, is_stored_data_file, get_storage_snapshot, cleared, clear_storage,
}
use pika_pika.Web.Storage.Clear.{clear_storage-cleared}
use pika_pika.Web.Health.{
  ScopeHeader, Progress, scope_liveness_timeout_s, after_call, after_calls, get_health_snapshot,
}
use pika_pika.Web.Health.Stalled.{get_health_snapshot-stalled}

abbrev trend_file : Entry
trend_file = record { name = codes "decimated.bin.old"; regular = true; size = 2048 }

abbrev notes_file : Entry
notes_file = record { name = codes "observations.jsonl"; regular = true; size = 100 }

abbrev directory : List Entry
directory = notes_file ∷ trend_file ∷ []

old_is_stored : is_stored_data_file (codes "decimated.bin.old") ≡ true
unfolding is_stored_data_file suffix last_dot same
old_is_stored = refl

clear_storage-cleared_example :
    let reply = clear_storage Fixed (λ dir. dir) true (some directory) none none in
    (kept : List Entry) × (cleared (some directory) ≡ some kept)
    × (reply.freed_bytes ≡ (get_storage_snapshot Fixed (some directory) none).bytes)
    × (reply.storage.bytes ≡ 0)
    × ((e : Entry) → e.name ≡ codes "observations.jsonl" → IsOneOf e directory → IsOneOf e kept)
clear_storage-cleared_example = clear_storage-cleared Fixed directory true none none

abbrev at_total : ℕ → ScopeHeader
at_total total = record {
  magic = 0x5c09_e000;
  sample_rate = 10_000;
  pru_clock_hz = 200_000_000;
  sample_period_cycles = 20_000;
  total_samples = total;
}

abbrev before : Progress Fixed
before = record { last_scope_total = some 128; last_scope_progress_at = some (pos 0) }

-- Twenty seconds after the last block the datalogger is reported as stopped.
get_health_snapshot-stalled_example :
    (get_health_snapshot
      (after_calls
        (after_call before (some (pos 100)) (some (at_total 256)))
        ((some (pos 500), some (at_total 256)) ∷ (some (pos 900), none) ∷ []))
      (some (pos 2100))
      none
      (some (at_total 256))
      (some (pos 12_000))
      (some (pos 12_000))).datalogger_running
    ≡ false
unfolding scope_liveness_timeout_s
get_health_snapshot-stalled_example =
    get_health_snapshot-stalled before (some (pos 100)) (some (pos 2100)) (at_total 256)
      (at_total 256) 256 ((some (pos 500), some (at_total 256)) ∷ (some (pos 900), none) ∷ []) none
      (some (pos 12_000)) (some (pos 12_000)) refl (refl, refl) (refl, (tt, tt)) (refl, refl)
