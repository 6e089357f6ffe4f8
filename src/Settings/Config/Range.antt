-- ===== src/Settings/Config/Range.antt =====
-- The two settings of the trend pane stay in their ranges.
use pika_pika.Prelude.{◌≡◌, refl, Option, some, Result, ok, and_then-eq-ok, subst, arith}
use pika_pika.Prelude.Int.{ℤ, pos, ◌≤ℤ◌}
use pika_pika.Float.{Float}
use pika_pika.Text.{Text, codes}
use pika_pika.Settings.Config.{
  Node, int, mapping, Fields, end, lookup, get, get_or, or_empty, int_of, window_from, clamp,
  Raised, get_history_window_minutes, get_history_display_points,
}

abbrev pub IsBetween : ℤ → ℤ → ℤ → Type 0
IsBetween low high z = (low ≤ℤ z) × (z ≤ℤ high)

clamp-IsBetween : (low high z : ℤ) → low ≤ℤ high → IsBetween low high (clamp low high z)
unfolding clamp
clamp-IsBetween low high z h = ground arith

pub clamp_id : (low high z : ℤ) → IsBetween low high z → clamp low high z ≡ z
unfolding clamp
clamp_id low high z h = ground arith

-- What a getter makes of a number in the file.
abbrev pub IsSetting : ℤ → ℤ → ℤ → Result Raised ℤ → Type 0
IsSetting low high z r =
    (v : ℤ) × (r ≡ ok v) × IsBetween low high v × (IsBetween low high z → v ≡ z)

module _ {W : Type 0} ⦃fl : Float W⦄ (parse_int : Text → Option ℤ) where
  window-IsBetween :
      (c : Node W) (v : ℤ)
      → get_history_window_minutes parse_int c ≡ ok v
      → IsBetween (pos 1) (pos 720) v
  unfolding get_history_window_minutes
  window-IsBetween c v e =
      let web = and_then-eq-ok (get_or c (codes "webapp") (mapping end)) _ e in
      let found = and_then-eq-ok (get (or_empty web.0) (codes "history_window_minutes")) _ web.2 in
      let minutes = and_then-eq-ok (window_from parse_int c found.0) _ found.2 in
      let same : clamp (pos 1) (pos 720) minutes.0 ≡ v = cc in
      subst (IsBetween (pos 1) (pos 720)) same
        (clamp-IsBetween (pos 1) (pos 720) minutes.0 (omega arith))

  display-IsBetween :
      (c : Node W) (v : ℤ)
      → get_history_display_points parse_int c ≡ ok v
      → IsBetween (pos 100) (pos 2000) v
  unfolding get_history_display_points
  display-IsBetween c v e =
      let web = and_then-eq-ok (get_or c (codes "webapp") (mapping end)) _ e in
      let found =
        and_then-eq-ok (get_or (or_empty web.0) (codes "history_display_points") (int (pos 800))) _
          web.2 in
      let points = and_then-eq-ok (int_of parse_int found.0) _ found.2 in
      let same : clamp (pos 100) (pos 2000) points.0 ≡ v = cc in
      subst (IsBetween (pos 100) (pos 2000)) same
        (clamp-IsBetween (pos 100) (pos 2000) points.0 (omega arith))

  -- Whatever YAML value the configuration is, `get_history_window_minutes` raises an exception or
  -- returns a number from 1 to 720, and `get_history_display_points` raises one or returns a number
  -- from 100 to 2000.
  pub get_history_window_minutes-IsBetween :
      (c : Node W) (v w : ℤ)
      → get_history_window_minutes parse_int c ≡ ok v
      → get_history_display_points parse_int c ≡ ok w
      → IsBetween (pos 1) (pos 720) v × IsBetween (pos 100) (pos 2000) w
  get_history_window_minutes-IsBetween c v w e f = (window-IsBetween c v e, display-IsBetween c w f)

  -- A configuration that is a mapping with a `webapp` mapping, in which the two settings are
  -- integers: each getter returns, a number in its range, and the one in the file if that is in range.
  pub get_history_settings-IsSetting :
      (fs ws : Fields W) (minutes points : ℤ)
      → lookup (codes "webapp") fs ≡ some (mapping ws)
      → lookup (codes "history_window_minutes") ws ≡ some (int minutes)
      → lookup (codes "history_display_points") ws ≡ some (int points)
      → IsSetting (pos 1) (pos 720) minutes (get_history_window_minutes parse_int (mapping fs))
        × IsSetting (pos 100) (pos 2000) points (get_history_display_points parse_int (mapping fs))
  unfolding get_history_window_minutes get_history_display_points get_or get or_empty window_from
      int_of
  get_history_settings-IsSetting fs ws minutes points e f g = (
    (
      clamp (pos 1) (pos 720) minutes,
      rw (e, f) refl,
      clamp-IsBetween (pos 1) (pos 720) minutes (omega arith),
      clamp_id (pos 1) (pos 720) minutes,
    ),
    (
      clamp (pos 100) (pos 2000) points,
      rw (e, g) refl,
      clamp-IsBetween (pos 100) (pos 2000) points (omega arith),
      clamp_id (pos 100) (pos 2000) points,
    ),
  )
