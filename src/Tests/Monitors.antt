-- ===== src/Tests/Monitors.antt =====
-- The security monitor on small inputs.
use drones.Common.{eq_iff, arith, trim_space, ℕ, ◌||◌, ◌≡◌, ◌≢◌, refl, ◌⊎◌, ◌↔◌, List, [], ◌∷◌}
use drones.Message.{pos, Fields, str, obj, empty, fields, get}
use drones.Bus.{published, Run}
use drones.Config.{Config}
use drones.SecurityMonitor.Policy.{PolicyKey, same_key, contains}
use drones.SecurityMonitor.State.{normal, isolated, Monitor, new_monitor}
use drones.SecurityMonitor.Isolation.{
  isolate, next_version, handle_isolation_start, handle_isolation_end,
}
use drones.SecurityMonitor.PolicyStore.{key_of, handle_set_policy}
use drones.SecurityMonitor.Proxy.{handle_proxy_request, handle_proxy_publish, sender_of}
use drones.SecurityMonitor.Watchdog.{check_heartbeat_timeout}
use drones.SecurityMonitor.Consistent.{IsConsistent, isolate-IsConsistent, new_monitor-IsConsistent}
use drones.SecurityMonitor.Service.{Input, message, tick, serve}
use drones.SecurityMonitor.Service.Safe.{serve-IsConsistent}
use drones.SecurityMonitor.Authority.{Stores, outsiders_change_nothing}
use drones.SecurityMonitor.Gateway.{
  sent, Forwards, handle_proxy_publish-Forwards, isolation_silences,
}
use drones.SecurityMonitor.Switch.{isolation_round_trip}
use drones.SecurityMonitor.Updates.{Holds, handle_set_policy-Holds}
use drones.SecurityMonitor.Supervision.{IsLate, check_heartbeat_timeout-isolated_iff}
use drones.Tests.{silent_env, sent_by}

abbrev config : Config
config = record {
  component_id = "security_monitor";
  component_topic = "";
  system_name = "deliverydron";
  topic_scheme = "";
  topic_prefix_env = "v1.drone";
  broker_type = "mqtt";
  health_port = "8080";
  kafka_bootstrap = "";
  kafka_group_id = "";
  broker_user = "";
  broker_password = "";
  mqtt_broker = "localhost";
  mqtt_port = pos 1883;
  mqtt_qos = pos 1;
  topic_version = "v1";
  instance_id = "Delivery001";
}

abbrev motors_key : PolicyKey
motors_key = record { sender = "autopilot"; topic = "v1.drone.motors"; action = "SET_TARGET" }

abbrev monitor : Monitor
monitor = new_monitor config (motors_key ∷ []) "admin" 500 "isolate" 10

abbrev isolated_monitor : Monitor
isolated_monitor = isolate "test" "emergency" 20 monitor

abbrev at_start : Run ℕ Monitor
at_start = record { state = monitor; events = [] }

abbrev in_isolation : Run ℕ Monitor
in_isolation = record { state = isolated_monitor; events = [] }

abbrev target_payload : Fields ℕ
target_payload = fields (
    ("target", obj (fields (("topic", str "v1.drone.motors") ∷ ("action", str "SET_TARGET") ∷ [])))
    ∷ ("data", obj empty)
    ∷ [])

abbrev asked : Fields ℕ
asked = sent_by "autopilot" "proxy_publish" target_payload

abbrev isolation_start : Fields ℕ
isolation_start = sent_by "emergency" "ISOLATION_START" empty

abbrev isolation_end : Fields ℕ
isolation_end = sent_by "admin" "ISOLATION_END" empty

abbrev key_payload : Fields ℕ
key_payload =
    fields
      (("sender", str "autopilot") ∷ ("topic", str "v1.drone.cargo") ∷ ("action", str "OPEN") ∷ [])

abbrev cargo_key : PolicyKey
cargo_key = record { sender = "autopilot"; topic = "v1.drone.cargo"; action = "OPEN" }

abbrev update : Fields ℕ
update = sent_by "admin" "set_policy" key_payload

abbrev inputs : List (Input ℕ)
inputs = message isolation_start ∷ message update ∷ tick ∷ message isolation_end ∷ []

serve-IsConsistent_example :
    IsConsistent
      (serve "v1.drone.security_monitor" inputs silent_env (record {
        state = new_monitor config (motors_key ∷ []) "admin" 500 "isolate" 10;
        events = [];
      })).1.state
serve-IsConsistent_example =
    serve-IsConsistent "v1.drone.security_monitor" inputs silent_env config (motors_key ∷ [])
      "admin" 500 "isolate" 10 (λ events s h. h)

handle_proxy_publish-Forwards_example :
    Forwards published monitor asked [] (handle_proxy_publish asked silent_env at_start).1.events
handle_proxy_publish-Forwards_example = handle_proxy_publish-Forwards asked silent_env at_start

isolated-mode : isolated_monitor.safety_state.mode ≡ isolated
unfolding isolate
isolated-mode = refl

normal-mode : monitor.safety_state.mode ≡ normal
unfolding new_monitor
normal-mode = refl

asked-sender : sender_of asked ≢ "emergency"
unfolding get
asked-sender e = ground (arith, eq_iff "autopilot" "emergency")

isolation_silences_example :
    (sent (handle_proxy_publish asked silent_env in_isolation).1.events ≡ sent in_isolation.events)
    × (sent (handle_proxy_request asked silent_env in_isolation).1.events
        ≡ sent in_isolation.events)
isolation_silences_example =
    isolation_silences asked silent_env in_isolation
      (isolate-IsConsistent "test" "emergency" 20 monitor) isolated-mode asked-sender

isolation_round_trip_example :
    let after =
      (handle_isolation_end isolation_end silent_env
        (handle_isolation_start isolation_start silent_env at_start).1).1.state in
    (after.safety_state.mode ≡ normal)
    × ((k : PolicyKey) → contains after.policies k ≡ contains monitor.policies k)
    × (after.safety_state.version ≡ next_version (next_version monitor.safety_state.version))
unfolding new_monitor get
isolation_round_trip_example =
    isolation_round_trip isolation_start isolation_end silent_env at_start
      (new_monitor-IsConsistent config (motors_key ∷ []) "admin" 500 "isolate" 10) normal-mode refl
      refl

handle_set_policy-Holds_example :
    Holds
      (handle_set_policy update silent_env at_start).1.state
      monitor
      (λ j old. same_key cargo_key j || old)
unfolding new_monitor key_of get trim_space
handle_set_policy-Holds_example =
    handle_set_policy-Holds update silent_env at_start cargo_key refl refl

check_heartbeat_timeout-isolated_iff_example :
    ((check_heartbeat_timeout silent_env at_start).1.state.safety_state.mode ≡ isolated) ↔ (
      (monitor.heartbeat_timeout ≢ 0)
      × (monitor.failsafe_action ≡ "isolate")
      × (IsLate monitor 1000 "limiter" ⊎ IsLate monitor 1000 "emergency"))
check_heartbeat_timeout-isolated_iff_example =
    check_heartbeat_timeout-isolated_iff silent_env at_start normal-mode

abbrev outside_inputs : List (Input ℕ)
outside_inputs = message isolation_start ∷ tick ∷ message asked ∷ []

outsiders_change_nothing_example :
    Stores monitor.normal_policies monitor.policy_admin
      (serve "v1.drone.security_monitor" outside_inputs silent_env at_start).1.state
unfolding get new_monitor
outsiders_change_nothing_example =
    outsiders_change_nothing "v1.drone.security_monitor" outside_inputs silent_env at_start
      (refl, (refl, (refl, tt))) (λ events s h. h)
