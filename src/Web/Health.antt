-- ===== src/Web/Health.antt =====
-- main.py: `get_health_snapshot`, which remembers between two calls how far the scope buffer was and
-- when it last moved.
pub mod Stalled
use pika_pika.Prelude.{
  ℕ, ◌+◌, ◌*◌, Bool, true, false, ◌&&◌, ◌||◌, Option, none, some, List, [], ◌∷◌, ltb, ◌==◌,
  if◌then◌else◌,
}
use pika_pika.Prelude.Int.{ℤ}
use pika_pika.Float.{Float, of_nat}
use pika_pika.Text.{Text, codes, same, strip}
use pika_pika.Web.Storage.{starts_with}

-- The header of the scope's shared memory.
pub record ScopeHeader : Type 0 where
  pub magic : ℕ
  pub sample_rate : ℕ
  pub pru_clock_hz : ℕ
  pub sample_period_cycles : ℕ
  pub total_samples : ℕ

-- `_last_scope_total` and `_last_scope_progress_at`.
pub record Progress (W : Type 0) : Type 0 where
  pub last_scope_total : Option ℕ
  pub last_scope_progress_at : W

pub data PruState : Type 0 where
  running offline in_error : PruState

pub record Health (W : Type 0) : Type 0 where
  pub pru_state : PruState
  pub datalogger_running : Bool
  pub sample_rate : ℕ
  pub actual_sample_rate : W
  pub pru_clock_hz : ℕ
  pub sample_period_cycles : ℕ
  pub learned_voltage : W
  pub learned_adc_vrms : W
  pub learned_transformer_ratio : W

-- `pattern in text`.
unfoldable pub contains_text : Text → Text → Bool
contains_text p [] = starts_with p []
contains_text p (c ∷ s) = starts_with p (c ∷ s) || contains_text p s

abbrev pub state_of : Text → PruState
state_of s =
    if same s (codes "running")
    then running
    else if same s (codes "offline")
    then offline
    else in_error

-- The names and the states of the remote processors, `none` if they cannot be read.
unfoldable pub pru_state_of : Option (List (Text × Text)) → PruState
pru_state_of none = in_error
pru_state_of (some []) = in_error
pru_state_of (some ((name, state) ∷ rest)) =
    let later = pru_state_of (some rest) in
    if contains_text (codes "4a334000.pru") (strip name) then state_of (strip state) else later

-- `_last_scope_total is None or current_total != _last_scope_total`.
abbrev pub has_moved : Option ℕ → ℕ → Bool
has_moved none total = true
has_moved (some last) total = if last == total then false else true

-- A field of the header, or 0 without one.
abbrev pub field_or_zero : (ScopeHeader → ℕ) → Option ScopeHeader → ℕ
field_or_zero field none = 0
field_or_zero field (some h) = if h.magic == 0x5c09_e000 then field h else 0

module _ {W : Type 0} ⦃fl : Float W⦄ where
  unfoldable pub scope_liveness_timeout_s : ℕ → W
  scope_liveness_timeout_s sample_rate =
      let block_period_s : W = fl.div (of_nat 128) (of_nat sample_rate) in
      let timeout = fl.add (fl.mul block_period_s (fl.decimal 25 1)) (of_nat 5) in
      if sample_rate == 0
      then of_nat 30
      else if fl.lt (of_nat 15) timeout
      then timeout
      else of_nat 15

  unfoldable pub advance : Progress W → W → ℕ → Progress W
  advance p now total =
      if has_moved p.last_scope_total total
      then record { last_scope_total = some total; last_scope_progress_at = now }
      else p

  -- What one call remembers for the next.
  unfoldable pub after_call : Progress W → W → Option ScopeHeader → Progress W
  after_call p now none = p
  after_call p now (some h) = if h.magic == 0x5c09_e000 then advance p now h.total_samples else p

  unfoldable pub datalogger_running_of : Progress W → W → Option ScopeHeader → Bool
  datalogger_running_of p now none = false
  datalogger_running_of p now (some h) =
      if h.magic == 0x5c09_e000
      then ltb 0 h.total_samples
        && fl.lt (fl.sub now (after_call p now (some h)).last_scope_progress_at)
            (scope_liveness_timeout_s h.sample_rate)
      else false

  -- The state after the call is `after_call`; `voltage` and `ratio` are those of the calibration.
  unfoldable pub get_health_snapshot :
      Progress W → W → Option (List (Text × Text)) → Option ScopeHeader → W → W → Health W
  get_health_snapshot p now processors header voltage ratio =
      let clock = field_or_zero (λ h. h.pru_clock_hz) header in
      let cycles = field_or_zero (λ h. h.sample_period_cycles) header in
      record {
        pru_state = pru_state_of processors;
        datalogger_running = datalogger_running_of p now header;
        sample_rate = field_or_zero (λ h. h.sample_rate) header;
        actual_sample_rate =
            if ltb 0 clock && ltb 0 cycles then fl.div (of_nat clock) (of_nat cycles) else of_nat 0;
        pru_clock_hz = clock;
        sample_period_cycles = cycles;
        learned_voltage = voltage;
        learned_adc_vrms = if fl.lt (of_nat 0) ratio then fl.div voltage ratio else of_nat 0;
        learned_transformer_ratio = ratio;
      }

  -- Calls one after the other.
  unfoldable pub after_calls : Progress W → List (W × Option ScopeHeader) → Progress W
  after_calls p [] = p
  after_calls p ((now, header) ∷ calls) = after_calls (after_call p now header) calls
