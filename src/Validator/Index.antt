-- ===== src/Validator/Index.antt =====
-- validate_data.py: `validate_event_index`.
pub mod Finds
mod Ends
use pika_pika.Prelude.{
  ℕ, zero, suc, ◌+◌, ◌*◌, ◌-◌, ◌/◌, ◌%◌, Bool, true, false, Option, none, some, List, [], ◌∷◌, ◌++◌,
  ltb, leb, ◌==◌, if◌then◌else◌, length, not, Run, done, out_of_fuel, ◌>>=◌,
}
use pika_pika.Prelude.Int.{ℤ, pos, negsuc, sub_ℕ, times, ◌+ℤ◌, ltb_ℤ}
use pika_pika.Float.{Float}
use pika_pika.Binary.{read}
use pika_pika.Events.{IndexFormat, v2, v3, record_size, IndexRecord, unpack_fields}
use pika_pika.Validator.{outside_epoch, when, is_nil}

-- The number of the record, counted from 0, comes with most messages.
pub data Problem : Type 0 where
  size_not_a_multiple : Problem
  truncated time_went_backwards offset_did_not_increase offset_past_end : ℕ → Problem
  outside_epoch_range waveform_after_event zero_period : ℕ → Problem
  starts_after_waveform ends_after_waveform : ℕ → Problem

unfoldable pub format_of_size : ℕ → IndexFormat
format_of_size size = if size % 51 == 0 then v3 else if size % 47 == 0 then v2 else v3

pub record Parsed (W : Type 0) : Type 0 where
  pub records : List (IndexRecord W)
  pub problems : List Problem

-- `//` by 2, which rounds down.
abbrev pub half : ℤ → ℤ
half (pos n) = pos (n / 2)
half (negsuc n) = negsuc (n / 2)

module _ {W : Type 0} where
  abbrev pub add_record : IndexRecord W → Parsed W → Parsed W
  add_record r p = record { records = r ∷ p.records; problems = p.problems }

  -- Each record against the one before it, at time `prev`; then the same of offsets.
  unfoldable pub time_problems : ℕ → ℕ → List (IndexRecord W) → List Problem
  time_problems i prev [] = []
  time_problems i prev (r ∷ rs) =
      when (ltb r.ts prev) (time_went_backwards i) ++ time_problems (suc i) r.ts rs

  unfoldable pub offset_problems : ℕ → ℕ → List (IndexRecord W) → List Problem
  offset_problems i prev [] = []
  offset_problems i prev (r ∷ rs) =
      when (leb r.file_off prev) (offset_did_not_increase i)
      ++ offset_problems (suc i) r.file_off rs

  unfoldable pub bound_problems : ℕ → List (IndexRecord W) → List Problem
  bound_problems events_size [] = []
  bound_problems events_size (r ∷ rs) =
      when (leb events_size r.file_off) (offset_past_end r.event_id)
      ++ bound_problems events_size rs

  -- The end of the waveform against the event's times, `stop` being the next offset or the file's end.
  unfoldable pub end_problems : ℕ → IndexRecord W → ℕ → List Problem
  end_problems i r stop =
      let event_end_ns = r.ts + r.dur * r.ns_per_sample in
      let wf_end_ns = pos r.wf_start +ℤ times r.ns_per_sample (half (sub_ℕ stop r.file_off)) in
      when (ltb_ℤ wf_end_ns (pos r.ts)) (starts_after_waveform i)
      ++ when (ltb_ℤ (wf_end_ns +ℤ pos (r.ns_per_sample * 2)) (pos event_end_ns))
          (ends_after_waveform i)

  abbrev pub stop_or : ℕ → List (IndexRecord W) → ℕ
  stop_or events_size [] = events_size
  stop_or events_size (r ∷ rs) = r.file_off

  abbrev pub period_problems : Option ℕ → ℕ → IndexRecord W → List (IndexRecord W) → List Problem
  period_problems none i r rs = []
  period_problems (some events_size) i r rs = end_problems i r (stop_or events_size rs)

  unfoldable pub align_problems : Option ℕ → ℕ → List (IndexRecord W) → List Problem
  align_problems events_size i [] = []
  align_problems events_size i (r ∷ rs) =
      let ends : List Problem =
        if r.ns_per_sample == 0
        then zero_period i ∷ []
        else if ltb 0 r.dur
        then period_problems events_size i r rs
        else [] in
      when (outside_epoch r.ts) (outside_epoch_range i)
      ++ (when (ltb r.ts r.wf_start) (waveform_after_event i)
          ++ (ends ++ align_problems events_size (suc i) rs))

  abbrev pub bounds_of : Option ℕ → List (IndexRecord W) → List Problem
  bounds_of none rs = []
  bounds_of (some events_size) rs = bound_problems events_size rs

  unfoldable pub record_problems : Option ℕ → IndexRecord W → List (IndexRecord W) → List Problem
  record_problems events_size r rs =
      time_problems 1 r.ts rs
      ++ (offset_problems 1 r.file_off rs
          ++ (bounds_of events_size (r ∷ rs) ++ align_problems events_size 0 (r ∷ rs)))

  -- No record is a failure by itself.
  unfoldable pub verdict : Bool → Option ℕ → Parsed W → Bool
  verdict whole events_size p = elim p.records [
    | [] ↦ false
    | r ∷ rs ↦
        is_nil
          (when (not whole) size_not_a_multiple ++ (p.problems ++ record_problems events_size r rs))
  ]

abbrev pub size_of : Option (List ℕ) → Option ℕ
size_of none = none
size_of (some f) = some (length f)

module _ {W : Type 0} ⦃fl : Float W⦄ where
  -- `while True`, from record `i` at an offset on.
  unfoldable pub records_loop : IndexFormat → List ℕ → ℕ → ℕ → ℕ → Run (Parsed W)
  records_loop fmt f zero i at = out_of_fuel
  records_loop fmt f (suc fuel) i at =
      let raw = read f at (record_size fmt) in
      let later = records_loop fmt f fuel (suc i) (at + record_size fmt) in
      if length raw == 0
      then done (record { records = []; problems = [] })
      else if ltb (length raw) (record_size fmt)
      then done (record { records = []; problems = truncated i ∷ [] })
      else (later >>= λ p. done (add_record (unpack_fields fmt raw) p))

module _ (W : Type 0) ⦃fl : Float W⦄ where
  -- The index and the events, `none` for a file that does not exist.
  unfoldable pub validate_event_index : Option (List ℕ) → Option (List ℕ) → Run Bool
  validate_event_index none events = done false
  validate_event_index (some f) events =
      let fmt = format_of_size (length f) in
      let whole = length f % record_size fmt == 0 in
      let checked = records_loop {W = W} fmt f (suc (length f)) 0 0 >>= λ p.
      done (verdict whole (size_of events) p) in
      if length f == 0 then done true else checked
