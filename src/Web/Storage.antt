-- ===== src/Web/Storage.antt =====
-- main.py: the files of the data directory, their sizes, and "clear stored data".
pub mod Clear
use pika_pika.Prelude.{
  ℕ, zero, suc, ◌+◌, ◌*◌, ◌-◌, Bool, true, false, not, ◌&&◌, ◌||◌, Option, none, some, List, [],
  ◌∷◌, map, ltb, ◌==◌, if◌then◌else◌, length, drop, keep, sort_by,
}
use pika_pika.Prelude.Int.{ℤ, pos, magnitude, pos_part, sub_ℕ}
use pika_pika.Float.{Float, of_nat}
use pika_pika.Text.{Text, codes, same}

-- An entry of the directory; `regular` is `path.is_file()`.
pub record Entry : Type 0 where
  pub name : Text
  pub regular : Bool
  pub size : ℕ

-- `name.rfind(".")`, from index `i` on.
unfoldable pub last_dot : ℕ → Text → Option ℕ
last_dot i [] = none
last_dot i (c ∷ s) = elim (last_dot (suc i) s) [
  | some k ↦ some k
  | none ↦ if c == 46 then some i else none
]

-- `path.suffix`.
unfoldable pub suffix : Text → Text
unfolding last_dot
suffix name = elim (last_dot 0 name) [
  | none ↦ []
  | some i ↦ if ltb 0 i && ltb i (length name - 1) then drop i name else []
]

unfoldable pub is_stored_data_file : Text → Bool
is_stored_data_file name =
    if same name (codes "observations.jsonl")
    then false
    else (same (suffix name) (codes ".bin")
        || (same (suffix name) (codes ".old") || same (suffix name) (codes ".jsonl")))
      || (same name (codes "write_probe.txt") || same name (codes "calibration_status.txt"))

unfoldable pub starts_with : Text → Text → Bool
starts_with [] s = true
starts_with (c ∷ p) [] = false
starts_with (c ∷ p) (d ∷ s) = (c == d) && starts_with p s

-- The order of texts, by their code points.
unfoldable pub text_lt : Text → Text → Bool
text_lt [] [] = false
text_lt [] (d ∷ t) = true
text_lt (c ∷ s) [] = false
text_lt (c ∷ s) (d ∷ t) = ltb c d || ((c == d) && text_lt s t)

abbrev pub is_counted : Entry → Bool
is_counted e = e.regular && is_stored_data_file e.name

unfoldable pub total_size : List Entry → ℕ
total_size [] = 0
total_size (e ∷ es) = e.size + total_size es

abbrev pub is_trend : Text → Bool
is_trend name = starts_with (codes "decimated") name || starts_with (codes "vrms_") name

abbrev pub is_events : Text → Bool
is_events name =
    not (is_trend name) && (starts_with (codes "events") name || starts_with (codes "index") name)

-- A size as it is printed: a number with so many digits behind the point.
pub data Human (W : Type 0) : Type 0 where
  in_bytes : ℕ → Human W
  in_kb in_mb in_gb : W → ℕ → Human W

-- `os.statvfs`: `f_frsize`, `f_blocks` and `f_bavail`.
pub record Disk : Type 0 where
  pub frsize : ℕ
  pub blocks : ℕ
  pub bavail : ℕ

pub record Snapshot (W : Type 0) : Type 0 where
  pub bytes : ℕ
  pub human : Human W
  pub trend_bytes : ℕ
  pub trend_human : Human W
  pub events_bytes : ℕ
  pub events_human : Human W
  pub files : List (Text × ℕ × Human W)
  pub disk_total_bytes : ℕ
  pub disk_free_bytes : ℕ
  pub disk_used_pct : ℤ
  pub disk_free_human : Human W

module _ {W : Type 0} ⦃fl : Float W⦄ where
  abbrev pub short_or_long : W → ℕ
  short_or_long val = if fl.lt val (of_nat 10) then 1 else 0

  unfoldable pub format_bytes : ℕ → Human W
  format_bytes n =
      let kb : W = fl.div (of_nat n) (of_nat 1024) in
      let mb : W = fl.div (of_nat n) (of_nat (1024 * 1024)) in
      if ltb n 1024
      then in_bytes n
      else if ltb n (1024 * 1024)
      then in_kb kb (short_or_long kb)
      else if ltb n (1024 * 1024 * 1024)
      then in_mb mb (short_or_long mb)
      else in_gb (fl.div (of_nat n) (of_nat (1024 * 1024 * 1024))) 2

  abbrev pub file_row : Entry → Text × ℕ × Human W
  file_row e = (e.name, e.size, format_bytes e.size)

abbrev pub all_bytes : Option Disk → ℕ
all_bytes none = 0
all_bytes (some d) = d.frsize * d.blocks

abbrev pub free_bytes : Option Disk → ℕ
free_bytes none = 0
free_bytes (some d) = d.frsize * d.bavail

-- `none` is no directory.
abbrev pub counted_of : Option (List Entry) → List Entry
counted_of none = []
counted_of (some es) = keep is_counted (sort_by (λ a b. text_lt a.name b.name) es)

module _ (W : Type 0) ⦃fl : Float W⦄ where
  -- The share of the disk that is used, in percent; `none` is an OSError.
  unfoldable pub used_pct : Option Disk → ℤ
  used_pct none = pos 0
  used_pct (some d) =
      let all = d.frsize * d.blocks in
      let used = sub_ℕ all (d.frsize * d.bavail) in
      if all == 0
      then pos 0
      else fl.nearest (fl.div (fl.mul (fl.of_int (pos 100)) (fl.of_int used)) (of_nat all))

  unfoldable pub get_storage_snapshot : Option (List Entry) → Option Disk → Snapshot W
  get_storage_snapshot dir disk =
      let counted = counted_of dir in
      let trend = total_size (keep (λ e. is_trend e.name) counted) in
      let events = total_size (keep (λ e. is_events e.name) counted) in
      record {
        bytes = total_size counted;
        human = format_bytes (total_size counted);
        trend_bytes = trend;
        trend_human = format_bytes trend;
        events_bytes = events;
        events_human = format_bytes events;
        files = map file_row counted;
        disk_total_bytes = all_bytes disk;
        disk_free_bytes = free_bytes disk;
        disk_used_pct = used_pct disk;
        disk_free_human = format_bytes (free_bytes disk);
      }

-- `path.unlink()` of the stored files, in the order of the directory.
abbrev pub cleared : Option (List Entry) → Option (List Entry)
cleared none = none
cleared (some es) = some (keep (λ e. not (is_counted e)) es)

abbrev pub deleted_of : Option (List Entry) → List Text
deleted_of none = []
deleted_of (some es) = map (λ (e : Entry). e.name) (keep is_counted es)

-- The reply of `clear_storage_api`, where no exception is raised.
pub record Cleared (W : Type 0) : Type 0 where
  pub deleted_files : List Text
  pub freed_bytes : ℕ
  pub freed_human : Human W
  pub datalogger_restarted : Bool
  pub storage : Snapshot W

module _ (W : Type 0) ⦃fl : Float W⦄ where
  -- `restart` is what the datalogger has written by the second look at the directory.
  unfoldable pub clear_storage :
      (Option (List Entry) → Option (List Entry))
      → Bool
      → Option (List Entry)
      → Option Disk
      → Option Disk
      → Cleared W
  clear_storage restart started dir disk disk' =
      let before = get_storage_snapshot W dir disk in
      let after = get_storage_snapshot W (restart (cleared dir)) disk' in
      let freed = before.bytes - after.bytes in
      record {
        deleted_files = deleted_of dir;
        freed_bytes = freed;
        freed_human = format_bytes freed;
        datalogger_restarted = started;
        storage = after;
      }
