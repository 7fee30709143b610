-- ===== src/Limiter/State.antt =====
-- The state of the limiter (limiter.go, orvd.go).
use drones.Common.{ℕ, String, Bool, true, false, Option, none, some}
use drones.Message.{Fields, float64, int, int64, get}
use drones.Bus.{M, gets, ◌>>=◌}
use drones.Floats.{Floats, lit}
use drones.Component.{ProxyClient, log_to_journal}

pub data State : Type 0 where
  normal warning emergency : State

abbrev pub state_text : State → String
state_text normal = "NORMAL"
state_text warning = "WARNING"
state_text emergency = "EMERGENCY"

-- The number of a state, by which two are compared.
abbrev pub rank : State → ℕ
rank normal = 0
rank warning = 1
rank emergency = 2

-- the authorization status of ORVD
pub data Status : Type 0 where
  disabled pending authorized denied out_of_bounds : Status

abbrev pub status_text : Status → String
status_text disabled = "DISABLED"
status_text pending = "PENDING"
status_text authorized = "AUTHORIZED"
status_text denied = "DENIED"
status_text out_of_bounds = "OUT_OF_BOUNDS"

abbrev pub is_authorized : Status → Bool
is_authorized authorized = true
is_authorized _ = false

-- the phase of ORVD
pub data Phase : Type 0 where
  phase_disabled phase_pending drone_registered mission_registered : Phase
  phase_authorized takeoff_authorized phase_completed phase_denied : Phase

abbrev pub phase_text : Phase → String
phase_text phase_disabled = "DISABLED"
phase_text phase_pending = "PENDING"
phase_text drone_registered = "DRONE_REGISTERED"
phase_text mission_registered = "MISSION_REGISTERED"
phase_text phase_authorized = "AUTHORIZED"
phase_text takeoff_authorized = "TAKEOFF_AUTHORIZED"
phase_text phase_completed = "COMPLETED"
phase_text phase_denied = "DENIED"

-- orvdConfig, less the time-outs
pub record OrvdConfig (F : Type 0) : Type 0 where
  pub topic : String
  pub drone_id : String
  pub drone_model : String
  pub operator : String
  pub certificate_id : String
  pub mock_success : Bool
  pub telemetry_interval_sec : F
  pub max_mission_alt_m : F
  pub orvd_proxy : ProxyClient

-- Limiter, less the base component; a nil map is `none`
pub record Limiter (F : Type 0) : Type 0 where
  pub proxy : ProxyClient
  pub journal_topic : String
  pub navigation_topic : String
  pub telemetry_topic : String
  pub emergency_topic : String
  pub nav_poll_interval_sec : F
  pub telemetry_poll_interval_sec : F
  pub max_distance_from_path_m : F
  pub max_alt_deviation_m : F
  pub mission : Option (Fields F)
  pub last_nav : Option (Fields F)
  pub last_telemetry : Option (Fields F)
  pub state : State
  pub last_nav_poll_ts : F
  pub last_telemetry_poll_ts : F
  pub orvd : OrvdConfig F
  pub orvd_status : Status
  pub orvd_mission_id : String
  pub orvd_phase : Phase
  pub orvd_drone_registered : Bool
  pub orvd_takeoff_authorized : Bool
  pub last_orvd_telemetry_ts : F

module _ {F : Type 0} where
  -- the fields that New sets apart from the configuration
  unfoldable pub fresh : Floats F → Limiter F → Limiter F
  fresh fl l = record l {
    mission = none;
    last_nav = none;
    last_telemetry = none;
    state = normal;
    last_nav_poll_ts = lit fl 0;
    last_telemetry_poll_ts = lit fl 0;
    orvd_status = disabled;
    orvd_mission_id = "";
    orvd_phase = phase_disabled;
    orvd_drone_registered = false;
    orvd_takeoff_authorized = false;
    last_orvd_telemetry_ts = lit fl 0;
  }

  -- logToJournal
  abbrev pub journal : String → Fields F → M F (Limiter F) (Unit {0})
  journal event details = do
    l ← gets (λ l. l)
    log_to_journal l.proxy l.journal_topic "limiter" event details

  -- getFloat
  unfoldable pub get_float : Floats F → Fields F → String → F
  get_float fl m k = elim (get m k) [
    | some (float64 x) ↦ x
    | some (int n) ↦ fl.of_int n
    | some (int64 n) ↦ fl.of_int n
    | _ ↦ lit fl 0
  ]
