-- ===== src/Emergency/State.antt =====
-- The state of the emergency component (emergency.go, droneport.go).
use drones.Common.{ℕ, String, Bool, false, ◌&&◌, Option, none, is_empty, if◌then◌else◌}
use drones.Message.{Fields}
use drones.Bus.{M, gets, ◌>>=◌}
use drones.Component.{ProxyClient, log_to_journal}

-- the phase of the session with the drone port
pub data Phase : Type 0 where
  phase_disabled not_registered charging ready departed : Phase

abbrev pub phase_text : Phase → String
phase_text phase_disabled = "DISABLED"
phase_text not_registered = "NOT_REGISTERED"
phase_text charging = "CHARGING"
phase_text ready = "READY"
phase_text departed = "DEPARTED"

-- droneportConfig
pub record DroneportConfig (F : Type 0) : Type 0 where
  pub topic : String
  pub orchestrator_topic : String
  pub drone_id : String
  pub mock_success : Bool
  pub drone_model : String
  pub landing_battery : F
  pub min_battery_takeoff : F
  pub charge_timeout_sec : F
  pub droneport_proxy : ProxyClient

-- Emergency, less the base component but for its identifier; the zero time is `none`
pub record Emergency (F : Type 0) : Type 0 where
  pub component_id : String
  pub sec_monitor_topic : String
  pub journal_topic : String
  pub motors_topic : String
  pub cargo_topic : String
  pub proxy : ProxyClient
  pub droneport : DroneportConfig F
  pub droneport_phase : Phase
  pub droneport_port_id : String
  pub droneport_last_error : String
  pub droneport_last_mission_id : String
  pub droneport_charge_wait_at : Option ℕ
  pub active : Bool

module _ {F : Type 0} where
  -- whether the drone port is left out
  abbrev pub is_disabled : DroneportConfig F → Bool
  is_disabled c = is_empty c.topic && is_empty c.orchestrator_topic

  -- the fields that New sets apart from the configuration
  unfoldable pub fresh : Emergency F → Emergency F
  fresh e = record e {
    droneport_phase = if is_disabled e.droneport then phase_disabled else not_registered;
    droneport_port_id = "";
    droneport_last_error = "";
    droneport_last_mission_id = "";
    droneport_charge_wait_at = none;
    active = false;
  }

  -- logToJournal
  abbrev pub journal : String → Fields F → M F (Emergency F) (Unit {0})
  journal event details = do
    e ← gets (λ e. e)
    log_to_journal e.proxy e.journal_topic "emergency" event details

  -- setDroneportPhase
  abbrev pub set_droneport_phase : Phase → Emergency F → Emergency F
  set_droneport_phase phase e = record e { droneport_phase = phase }

  -- setDroneportError
  abbrev pub set_droneport_error : String → Emergency F → Emergency F
  set_droneport_error text e = record e { droneport_last_error = text }
