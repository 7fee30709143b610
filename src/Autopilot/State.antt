-- ===== src/Autopilot/State.antt =====
-- The state of the autopilot, and the table of its commands.
use drones.Common.{
  ℕ, zero, suc, String, Bool, true, false, Option, none, some, List, [], ◌∷◌, ◌==◌, if◌then◌else◌,
  to_upper, trim_space,
}
use drones.Message.{
  Fields, Value, Items, nil, cons, Maps, no_maps, cons_map, ℤ, pos, float64, int, int64, obj, arr,
  maps, get, get_string,
}
use drones.Bus.{M, gets, ◌>>=◌}
use drones.Floats.{Floats, lit}
use drones.Component.{ProxyClient, log_to_journal}

pub data State : Type 0 where
  idle mission_loaded pre_flight executing paused completed aborted emergency_stop : State

abbrev pub state_text : State → String
state_text idle = "IDLE"
state_text mission_loaded = "MISSION_LOADED"
state_text pre_flight = "PRE_FLIGHT"
state_text executing = "EXECUTING"
state_text paused = "PAUSED"
state_text completed = "COMPLETED"
state_text aborted = "ABORTED"
state_text emergency_stop = "EMERGENCY_STOP"

-- The number of a state, by which two are compared.
abbrev pub rank : State → ℕ
rank idle = 0
rank mission_loaded = 1
rank pre_flight = 2
rank executing = 3
rank paused = 4
rank completed = 5
rank aborted = 6
rank emergency_stop = 7

abbrev pub is_pre_flight : State → Bool
is_pre_flight pre_flight = true
is_pre_flight _ = false

abbrev pub is_executing : State → Bool
is_executing executing = true
is_executing _ = false

abbrev pub is_paused : State → Bool
is_paused paused = true
is_paused _ = false

-- the keys of commandTransitions
pub data Command : Type 0 where
  start pause resume abort reset stop kover : Command

abbrev pub command_text : Command → String
command_text start = "START"
command_text pause = "PAUSE"
command_text resume = "RESUME"
command_text abort = "ABORT"
command_text reset = "RESET"
command_text stop = "EMERGENCY_STOP"
command_text kover = "KOVER"

-- the command of a text: trimmed after it is put in upper case
unfoldable pub find_command : List Command → String → Option Command
find_command [] s = none
find_command (c ∷ cs) s = if command_text c == s then some c else find_command cs s

unfoldable pub parse_command : String → Option Command
unfolding find_command trim_space to_upper
parse_command cmd =
    find_command (start ∷ pause ∷ resume ∷ abort ∷ reset ∷ stop ∷ kover ∷ [])
      (trim_space (to_upper cmd))

-- commandTransition: a nil AllowedFrom and an empty NextState are `none`
pub record CommandTransition : Type 0 where
  pub require_mission : Bool
  pub allowed_from : Option (State → Bool)
  pub next_state : Option State
  pub clear_mission : Bool
  pub disable_kover : Bool
  pub activate_kover : Bool

abbrev from_ready : State → Bool
from_ready mission_loaded = true
from_ready idle = true
from_ready _ = false

abbrev plain : Option (State → Bool) → Option State → CommandTransition
plain from next = record {
  require_mission = false;
  allowed_from = from;
  next_state = next;
  clear_mission = false;
  disable_kover = false;
  activate_kover = false;
}

-- commandTransitions
abbrev pub command_transitions : Command → CommandTransition
command_transitions start = record (plain (some from_ready) (some pre_flight)) {
  require_mission = true;
}
command_transitions pause = plain (some is_executing) (some paused)
command_transitions resume = plain (some is_paused) (some executing)
command_transitions abort = record (plain none (some aborted)) { disable_kover = true }
command_transitions reset = record (plain none (some idle)) {
  clear_mission = true;
  disable_kover = true;
}
command_transitions stop = record (plain none (some emergency_stop)) { disable_kover = true }
command_transitions kover = record (plain none none) { activate_kover = true }

-- Autopilot, less the base component. A nil map and the zero time are `none`; times are nanoseconds.
pub record Autopilot (F : Type 0) : Type 0 where
  pub proxy : ProxyClient
  pub journal_topic : String
  pub navigation_topic : String
  pub motors_topic : String
  pub cargo_topic : String
  pub limiter_topic : String
  pub emergency_topic : String
  pub nav_poll_interval_sec : F
  pub preflight_timeout_sec : F
  pub pre_flight_started_at : Option ℕ
  pub mission : Option (Fields F)
  pub state : State
  pub current_step_index : ℤ
  pub last_nav_state : Option (Fields F)
  pub cargo_state : String
  pub kover_active : Bool
  pub last_nav_poll_ts : F
  pub last_error : String

module _ {F : Type 0} where
  -- the fields that New sets apart from the configuration
  unfoldable pub fresh : Floats F → Autopilot F → Autopilot F
  fresh fl a = record a {
    pre_flight_started_at = none;
    mission = none;
    state = idle;
    current_step_index = pos 0;
    last_nav_state = none;
    cargo_state = "CLOSED";
    kover_active = false;
    last_nav_poll_ts = lit fl 0;
    last_error = "";
  }

  -- m[k] of a map that may be nil
  abbrev pub get_in : Option (Fields F) → String → Option (Value F)
  get_in none k = none
  get_in (some m) k = get m k

  abbrev pub mission_id : Option (Fields F) → String
  mission_id none = ""
  mission_id (some m) = get_string m "mission_id"

  -- getFloat
  unfoldable pub get_float : Floats F → Fields F → String → F
  get_float fl m k = elim (get m k) [
    | some (float64 x) ↦ x
    | some (int n) ↦ fl.of_int n
    | some (int64 n) ↦ fl.of_int n
    | _ ↦ lit fl 0
  ]

  abbrev pub len : Items F → ℕ
  len nil = 0
  len (cons v vs) = suc (len vs)

  abbrev pub item : Items F → ℕ → Option (Value F)
  item nil i = none
  item (cons v vs) zero = some v
  item (cons v vs) (suc i) = item vs i

  unfoldable pub items_of_maps : Maps F → Items F
  items_of_maps no_maps = nil
  items_of_maps (cons_map m ms) = cons (obj m) (items_of_maps ms)

  -- normalizeSteps; the nil slice has no items
  unfoldable pub normalize_steps : Option (Value F) → Items F
  unfolding items_of_maps
  normalize_steps (some (arr xs)) = xs
  normalize_steps (some (maps ms)) = items_of_maps ms
  normalize_steps _ = nil

  abbrev pub journal : String → Fields F → M F (Autopilot F) (Unit {0})
  journal event details = do
    a ← gets (λ a. a)
    log_to_journal a.proxy a.journal_topic "autopilot" event details
