-- ===== src/Tests/Rescues.antt =====
-- The emergency component, and the security monitor and the cargo bay that serve it, on small inputs.
use drones.Common.{
  ℕ, String, Bool, true, false, ◌≡◌, ◌≢◌, refl, ◌⊎◌, inl, inr, ◌≤◌, Option, none, some, List, [],
  ◌∷◌, is_empty, arith,
}
use drones.Message.{pos, Fields, fields, only, str, bool, obj, float64, arr, nil, cons, get}
use drones.Bus.{ok, Env, Run, published}
use drones.Config.{Config, broker_topic_for}
use drones.Component.{ProxyClient}
use drones.SecurityMonitor.State.{Monitor, new_monitor}
use drones.SecurityMonitor.Isolation.{handle_isolation_start}
use drones.SecurityMonitor.Consistent.{new_monitor-IsConsistent}
use drones.SecurityMonitor.Proxy.{handle_proxy_publish}
use drones.SecurityMonitor.Gateway.{sent}
use drones.Motors.{Motors, new_motors}
use drones.Cargo.{Cargo, open_}
use drones.Emergency.State.{not_registered, departed, Emergency}
use drones.Emergency.Preflight.{run_preflight}
use drones.Emergency.Departure.{run_preflight-ok}
use drones.Emergency.Grant.{Allowed}
use drones.Emergency.Handlers.{refused, done, isolation_start}
use drones.Emergency.Protocol.{
  Fails, Ends, isolated, closed as closed_answer, isolating, closing, landing, logging, landed,
  logged, run_protocol-stages,
}
use drones.Emergency.Rescue.{land, order_message, Obeyed, rescue}
use drones.Tests.{numbers, silent_env}
use drones.Tests.Limits.{passed_on}

abbrev proxy : ProxyClient
proxy = record { sender_id = "emergency"; security_monitor_topic = "v1.drone.security_monitor" }

abbrev rescuer : Emergency ℕ
rescuer = record {
  component_id = "emergency";
  sec_monitor_topic = "v1.drone.security_monitor";
  journal_topic = "v1.drone.journal";
  motors_topic = "v1.drone.motors";
  cargo_topic = "v1.drone.cargo";
  proxy = proxy;
  droneport = record {
    topic = "v1.drone_port";
    orchestrator_topic = "v1.orchestrator";
    drone_id = "drone_001";
    mock_success = false;
    drone_model = "deliverydron";
    landing_battery = 95;
    min_battery_takeoff = 61;
    charge_timeout_sec = 120;
    droneport_proxy = proxy;
  };
  droneport_phase = not_registered;
  droneport_port_id = "";
  droneport_last_error = "";
  droneport_last_mission_id = "";
  droneport_charge_wait_at = none;
  active = false;
}

abbrev on_duty : Run ℕ (Emergency ℕ)
on_duty = record { state = rescuer; events = [] }

abbrev details : Option (Fields ℕ)
details = some (only "reason" (str "geofence"))

run_protocol-stages_example :
    (Fails (isolated "m-1" details silent_env on_duty)
      × Ends "m-1" details silent_env on_duty
          (refused "isolation_start_failed")
          false
          (isolating "m-1" details silent_env on_duty))
    ⊎ ((isolated "m-1" details silent_env on_duty ≡ none)
        × Fails (closed_answer "m-1" details silent_env on_duty)
        × Ends "m-1" details silent_env on_duty
            (refused "cargo_close_failed")
            false
            (closing "m-1" details silent_env on_duty))
    ⊎ ((isolated "m-1" details silent_env on_duty ≡ none)
        × (closed_answer "m-1" details silent_env on_duty ≡ none)
        × Fails (landed "m-1" details silent_env on_duty)
        × Ends "m-1" details silent_env on_duty
            (refused "motors_land_failed")
            false
            (landing "m-1" details silent_env on_duty))
    ⊎ ((isolated "m-1" details silent_env on_duty ≡ none)
        × (closed_answer "m-1" details silent_env on_duty ≡ none)
        × (landed "m-1" details silent_env on_duty ≡ none)
        × Fails (logged "m-1" details silent_env on_duty)
        × Ends "m-1" details silent_env on_duty
            (refused "journal_log_failed")
            false
            (logging "m-1" details silent_env on_duty))
    ⊎ ((isolated "m-1" details silent_env on_duty ≡ none)
        × (closed_answer "m-1" details silent_env on_duty ≡ none)
        × (landed "m-1" details silent_env on_duty ≡ none)
        × (logged "m-1" details silent_env on_duty ≡ none)
        × Ends "m-1" details silent_env on_duty done true
            (logging "m-1" details silent_env on_duty))
run_protocol-stages_example = run_protocol-stages "m-1" details silent_env on_duty

abbrev config : Config
config = record {
  component_id = "security_monitor";
  component_topic = "";
  system_name = "deliverydron";
  topic_scheme = "";
  topic_prefix_env = "v1.drone";
  broker_type = "mqtt";
  health_port = "8080";
  kafka_bootstrap = "";
  kafka_group_id = "";
  broker_user = "";
  broker_password = "";
  mqtt_broker = "localhost";
  mqtt_port = pos 1883;
  mqtt_qos = pos 1;
  topic_version = "v1";
  instance_id = "Delivery001";
}

abbrev monitor : Monitor
monitor = new_monitor config [] "admin" 500 "isolate" 10

abbrev watching : Run ℕ Monitor
watching = record { state = monitor; events = [] }

abbrev open_bay : Run ℕ (Cargo ℕ)
open_bay = record {
  state = record {
    proxy = record { sender_id = "cargo"; security_monitor_topic = "v1.drone.security_monitor" };
    journal_topic = "v1.drone.journal";
    state = open_;
    last_change_ts = 0;
  };
  events = [];
}

abbrev engines : Run ℕ (Motors ℕ)
engines = record { state = new_motors numbers "sitl.commands" "mock" "drone_001" 40; events = [] }

abbrev in_isolation : Run ℕ Monitor
in_isolation = (handle_isolation_start (isolation_start "emergency" "m-1") silent_env watching).1

rescue_example :
    (m : Fields ℕ) × (sent
        (handle_proxy_publish
          (order_message "v1.drone.security_monitor" (broker_topic_for config "motors") land)
          silent_env
          in_isolation).1.events
      ≡ published (broker_topic_for config "motors") m ∷ sent in_isolation.events)
    × Obeyed numbers land m silent_env open_bay silent_env engines
unfolding broker_topic_for drones.Common.trim_space new_monitor
rescue_example =
    rescue numbers "m-1" "v1.drone.security_monitor" silent_env watching land silent_env open_bay
      silent_env engines (new_monitor-IsConsistent config [] "admin" 500 "isolate" 10) refl refl

-- The drone is charged, and the port lets it take off.
abbrev port_answer : Fields ℕ
port_answer = fields (
    ("approved", bool true)
    ∷ ("battery", float64 90)
    ∷ (
      "drones",
      arr (cons (obj (fields (("drone_id", str "drone_001") ∷ ("battery", float64 90) ∷ []))) nil),
    )
    ∷ [])

abbrev obliging : Env ℕ (Emergency ℕ)
obliging = record silent_env { request = λ events topic m. ok (passed_on port_answer) }

abbrev scan : String → Option ℕ
scan s = none

abbrev departing : Run ℕ (Emergency ℕ)
departing = (run_preflight numbers scan "m-1" 90 obliging on_duty).1

run_preflight-ok_example :
    (rescuer.droneport.mock_success ≡ true)
    ⊎ ((rescuer.droneport_phase ≡ departed) × (rescuer.droneport_last_mission_id ≡ "m-1"))
    ⊎ Allowed obliging rescuer.droneport "m-1" departing
unfolding run_preflight drones.Emergency.Preflight.preflight_at_port
    drones.Emergency.Session.is_drone_ready drones.Emergency.Preflight.after_first_look
    drones.Emergency.Session.call_droneport drones.Component.proxy_request
    drones.Component.proxy_answer drones.Emergency.Port.any_charged
    drones.Emergency.Port.unwrap_droneport_body drones.Emergency.Port.unwrap
    drones.Emergency.Preflight.take_off drones.Emergency.Session.run_takeoff
    drones.Emergency.Session.after_takeoff drones.Emergency.Port.droneport_takeoff_ok
    drones.Emergency.Preflight.after_run_takeoff get
run_preflight-ok_example =
    run_preflight-ok obliging rescuer.droneport (λ events e h. h) refl numbers scan "m-1" 90 on_duty
      (some port_answer) refl refl
