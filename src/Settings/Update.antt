-- ===== src/Settings/Update.antt =====
-- main.py: the requests that change pika.yaml, `update_sample_rate`, `update_trend_config` and
-- `update_anomalies_config`, with what each leaves behind and what it answers.
pub mod Rate
pub mod Trend
pub mod Limits
mod Examples
use pika_pika.Prelude.{
  ℕ, suc, ◌≡◌, refl, inl, inr, Option-cases, Bool, true, false, ◌&&◌, Option, none, some, List, [],
  ◌∷◌, if◌then◌else◌,
}
use pika_pika.Prelude.Int.{ℤ, pos, leb_ℤ}
use pika_pika.Float.{Float, of_nat}
use pika_pika.Text.{Text}
use pika_pika.Observations.Validate.{Value, null, boolean, int, real, text, container, Builtins}
use pika_pika.Settings.Config.{Node}
use pika_pika.Settings.Config.Defaults.{load_config}

-- The two paths of `_pika_yaml_path`; the first is that of ConfigService.
pub record Files : Type 0 where
  pub pika_yaml : Option Text
  pub beside : Option Text

unfoldable pub pika_yaml_path : Files → Option Text
pika_yaml_path f = elim f.pika_yaml [ some t ↦ some t | none ↦ f.beside ]

-- `config_path.write_text(text)`.
unfoldable pub write_text : Files → Text → Files
write_text f new = elim f.pika_yaml [
  | some t ↦ record f { pika_yaml = some new }
  | none ↦ record f { beside = some new }
]

-- The configuration that is loaded, and how many restarts of the acquisition have been scheduled.
pub record Server (W : Type 0) : Type 0 where
  pub files : Files
  pub config : Node W
  pub restarts : ℕ

-- What the library functions are: those of Python on texts, the format `.1f`, and
-- `yaml.safe_load`, `none` where it raises.
pub record Library (W : Type 0) : Type 0 where
  pub builtins : Builtins W
  pub print_tenths : W → Text
  pub safe_load : Text → Option (Node W)

-- `low <= value <= high`.
abbrev pub is_between : ℤ → ℤ → ℤ → Bool
is_between low high z = leb_ℤ low z && leb_ℤ z high

-- A restart of the acquisition is scheduled.
abbrev pub restarted : {W : Type 0} → Server W → Server W
restarted s = record s { restarts = suc s.restarts }

module _ {W : Type 0} ⦃fl : Float W⦄ (lib : Library W) where
  -- `int(body.get(key, default))`, `none` where it raises.
  unfoldable pub int_or : ℤ → Option (Value W) → Option ℤ
  int_or default none = some default
  int_or default (some null) = none
  int_or default (some (boolean b)) = some (if b then pos 1 else pos 0)
  int_or default (some (int z)) = some z
  int_or default (some (real x)) = if fl.is_finite x then some (fl.trunc x) else none
  int_or default (some (text s)) = lib.builtins.parse_int s
  int_or default (some (container filled s)) = none

  -- `float(body.get(key, default))`.
  unfoldable pub float_or : W → Option (Value W) → Option W
  float_or default none = some default
  float_or default (some null) = none
  float_or default (some (boolean b)) = some (if b then of_nat 1 else of_nat 0)
  float_or default (some (int z)) = if fl.is_finite (fl.of_int z) then some (fl.of_int z) else none
  float_or default (some (real x)) = some x
  float_or default (some (text s)) = lib.builtins.parse_float s
  float_or default (some (container filled s)) = none

  -- The file is written and the configuration loaded again.
  unfoldable pub saved : Server W → Text → Server W
  unfolding write_text
  saved s new = record s {
    files = write_text s.files new;
    config = load_config lib.safe_load (write_text s.files new).pika_yaml;
  }

-- What is written is what the path leads to.
pub pika_yaml_path-write_text :
    (f : Files) (old new : Text)
    → pika_yaml_path f ≡ some old
    → pika_yaml_path (write_text f new) ≡ some new
unfolding pika_yaml_path write_text
pika_yaml_path-write_text f old new e = elim (Option-cases f.pika_yaml) [
  | inl n ↦ rw (write_text, n) (rw (pika_yaml_path, n) refl)
  | inr (t, n) ↦ rw (write_text, n) refl
]
