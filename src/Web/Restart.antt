-- ===== src/Web/Restart.antt =====
-- pika/webapp/app/main.py: `restart_system_component`, the commands that `_restart_system_component`
-- then runs, and `delete_events_api`.
use pika_pika.Prelude.{ℕ, ◌≡◌, refl, Bool, Option, none, some, List, [], ◌∷◌, if◌then◌else◌}
use pika_pika.Float.{Float}
use pika_pika.Text.{Text, codes, same, strip}
use pika_pika.Events.{Settings, get_recent_events, events_between}
use pika_pika.Observations.Validate.{Value, Builtins, str}
use pika_pika.Prelude.Int.{ℤ}

pub data Component : Type 0 where
  pru datalogger webserver all : Component

unfoldable pub component_of : Text → Option Component
component_of s =
    if same s (codes "pru")
    then some pru
    else if same s (codes "datalogger")
    then some datalogger
    else if same s (codes "webserver")
    then some webserver
    else if same s (codes "all")
    then some all
    else none

pub data Command : Type 0 where
  load_pru kill_datalogger start_datalogger restart_unit : Command

-- `has_binary` is whether the datalogger has been built.
unfoldable pub start_commands : Bool → List Command
start_commands has_binary = if has_binary then start_datalogger ∷ [] else []

unfoldable pub restart_commands : Bool → Component → List Command
restart_commands has_binary pru = load_pru ∷ []
restart_commands has_binary datalogger = kill_datalogger ∷ start_commands has_binary
restart_commands has_binary webserver = restart_unit ∷ []
restart_commands has_binary all = restart_unit ∷ []

pub data RestartReply : Type 0 where
  not_a_component restart_failed : RestartReply
  restarting : Component → RestartReply

abbrev pub scheduled : Option Component → RestartReply
scheduled none = not_a_component
scheduled (some c) = restarting c

-- `none` is a body that is no JSON object, and within it a key that is missing.
unfoldable pub restart_system_component :
    {W : Type 0} ⦃fl : Float W⦄ → Builtins W → Option (Option (Value W)) → RestartReply
restart_system_component py none = restart_failed
restart_system_component py (some none) = scheduled (component_of (py.lower (strip [])))
restart_system_component py (some (some v)) = scheduled (component_of (py.lower (strip (str py v))))

-- events.bin and index.bin in the directory of the event service.
pub record EventFiles : Type 0 where
  pub events : Option (List ℕ)
  pub index : Option (List ℕ)

pub data DeleteReply : Type 0 where
  no_event_data : DeleteReply
  deleted : List Text → DeleteReply

abbrev pub deleted_name : Option (List ℕ) → Text → List Text → List Text
deleted_name none name names = names
deleted_name (some f) name names = name ∷ names

unfoldable pub delete_events : EventFiles → DeleteReply × EventFiles
delete_events f =
    let names =
      deleted_name f.events (codes "events.bin") (deleted_name f.index (codes "index.bin") []) in
    elim names [
      | [] ↦ (no_event_data, f)
      | n ∷ ns ↦ (deleted (n ∷ ns), record { events = none; index = none })
    ]

-- However the answer is, the event service lists no event afterwards, and finds none in a window.
pub delete_events-get_recent_events :
    {W : Type 0} ⦃fl : Float W⦄ (s : Settings W) (events index : Option (List ℕ))
    (limit start_ns end_ns : ℤ)
    → let after = (delete_events (record { events = events; index = index })).1 in
      (get_recent_events s after.events after.index limit ≡ [])
      × (events_between s after.events after.index start_ns end_ns ≡ [])
unfolding delete_events get_recent_events events_between
delete_events-get_recent_events s none none limit start_ns end_ns = (refl, refl)
delete_events-get_recent_events s none (some g) limit start_ns end_ns = (refl, refl)
delete_events-get_recent_events s (some f) none limit start_ns end_ns = (refl, refl)
delete_events-get_recent_events s (some f) (some g) limit start_ns end_ns = (refl, refl)
