-- ===== src/Tests/Limits.antt =====
-- The limiter and the mission handler on small inputs.
use drones.Common.{
  ℕ, List, String, true, false, ◌≡◌, ◌≢◌, refl, ◌⊎◌, ◌↔◌, ◌==◌, Option, none, some, [], ◌∷◌,
  is_empty, if◌then◌else◌, trim_space, to_lower,
}
use drones.Message.{
  pos, Fields, nil, cons, fields, only, str, obj, arr, float64, get, get_string, get_map, get_items,
  empty,
}
use drones.Bus.{ok, Env, Run}
use drones.Limiter.State.{
  normal, warning, emergency, disabled, authorized, Limiter, OrvdConfig, phase_disabled,
}
use drones.Limiter.Bounds.{validate_mission_bounds}
use drones.Limiter.Registration.{run_orvd_mission_load, register_payload}
use drones.Limiter.Takeoff.{run_orvd_request_takeoff}
use drones.Limiter.Fence.{deviation, recalculate}
use drones.Limiter.Handlers.{handle_mission_load, handle_revoke_takeoff, state_fields}
use drones.Limiter.Envelope.{AllSteps, validate_mission_bounds-none_iff}
use drones.Limiter.Authorization.{
  Replied, timed, sent_mission, withdrawn, after_drone, after_mission,
  run_orvd_mission_load-authorized,
}
use drones.Limiter.Loading.{Loaded, handle_mission_load-mission}
use drones.Limiter.Handover.{state_fields-cleared_iff}
use drones.Limiter.Breach.{Raised, recalculate-Raised}
use drones.Limiter.Permission.{Permits, revoke-then-takeoff}
use drones.Limiter.Limits.{Positive}
use drones.Config.{Config}
use drones.Limiter.Startup.{new_limiter, journey-new_limiter-Positive}
use drones.Limiter.Journey.{Input, mission_load, update_config, revoke_takeoff, round, journey}
use drones.Autopilot.Preflight.{limiter_clearance, cleared}
use drones.Tests.{numbers, silent_env, sent_by, from_monitor}

abbrev step : Fields ℕ
step = fields (("lat", float64 55) ∷ ("lon", float64 37) ∷ ("alt_m", float64 30) ∷ [])

abbrev pub mission : Fields ℕ
mission = fields (("mission_id", str "m-1") ∷ ("steps", arr (cons (obj step) nil)) ∷ [])

abbrev config : OrvdConfig ℕ
config = record {
  topic = "v1.orvd";
  drone_id = "drone_001";
  drone_model = "";
  operator = "";
  certificate_id = "";
  mock_success = false;
  telemetry_interval_sec = 5;
  max_mission_alt_m = 5000;
  orvd_proxy = record {
    sender_id = "limiter";
    security_monitor_topic = "v1.drone.security_monitor";
  };
}

abbrev limiter : Limiter ℕ
limiter = record {
  proxy = record { sender_id = "limiter"; security_monitor_topic = "v1.drone.security_monitor" };
  journal_topic = "v1.drone.journal";
  navigation_topic = "v1.drone.navigation";
  telemetry_topic = "v1.drone.telemetry";
  emergency_topic = "v1.drone.emergency";
  nav_poll_interval_sec = 1;
  telemetry_poll_interval_sec = 1;
  max_distance_from_path_m = 100;
  max_alt_deviation_m = 20;
  mission = none;
  last_nav = none;
  last_telemetry = none;
  state = normal;
  last_nav_poll_ts = 0;
  last_telemetry_poll_ts = 0;
  orvd = config;
  orvd_status = disabled;
  orvd_mission_id = "";
  orvd_phase = phase_disabled;
  orvd_drone_registered = false;
  orvd_takeoff_authorized = false;
  last_orvd_telemetry_ts = 0;
}

abbrev at_start : Run ℕ (Limiter ℕ)
at_start = record { state = limiter; events = [] }

-- The action of a request to the security monitor.
abbrev map_or_empty : Option (Fields ℕ) → Fields ℕ
map_or_empty none = empty
map_or_empty (some m) = m

abbrev target_action : Fields ℕ → String
target_action m =
    get_string (map_or_empty (get_map (map_or_empty (get_map m "payload")) "target")) "action"

abbrev status_for : String → String
status_for a =
    if a == "register_drone"
    then "registered"
    else if a == "register_mission"
    then "mission_registered"
    else if a == "authorize_mission"
    then "authorized"
    else "takeoff_authorized"

-- The answer of the security monitor that holds the answer of a component.
abbrev pub passed_on : Fields ℕ → Fields ℕ
passed_on answer = only "payload" (obj (only "target_response" (obj (only "payload" (obj answer)))))

-- An authority that grants everything.
abbrev granting : Env ℕ (Limiter ℕ)
granting = record silent_env {
  request = λ events topic m. ok (passed_on (only "status" (str (status_for (target_action m)))));
}

validate_mission_bounds-none_iff_example :
    (validate_mission_bounds numbers mission 5000 ≡ none)
    ↔ ((get_items mission "steps" ≢ nil) × AllSteps numbers 5000 (get_items mission "steps"))
validate_mission_bounds-none_iff_example = validate_mission_bounds-none_iff numbers 5000 mission

run_orvd_mission_load-authorized_example :
    ((limiter.orvd_drone_registered ≡ true)
      ⊎ Replied granting
          (withdrawn numbers granting mission at_start)
          "register_drone"
          (register_payload config)
          "registered")
    × Replied granting
        (timed numbers granting mission (after_drone numbers granting mission at_start))
        "register_mission"
        (sent_mission numbers granting mission (after_drone numbers granting mission at_start))
        "mission_registered"
    × Replied granting
        (after_mission numbers granting mission at_start)
        "authorize_mission"
        (only "mission_id" (str "m-1"))
        "authorized"
unfolding run_orvd_mission_load drones.Limiter.Registration.register_drone
    drones.Limiter.Registration.after_register_drone drones.Limiter.Orvd.call_orvd get trim_space
    to_lower drones.Limiter.Registration.register_mission
    drones.Limiter.Registration.after_register_mission drones.Limiter.Registration.authorize_mission
    drones.Limiter.Registration.after_authorize
run_orvd_mission_load-authorized_example =
    run_orvd_mission_load-authorized numbers granting mission at_start refl refl refl

abbrev pub load_message : Fields ℕ
load_message = from_monitor (only "mission" (obj mission))

handle_mission_load-mission_example :
    ((handle_mission_load numbers load_message granting at_start).1.state.mission ≡ none)
    ⊎ ((m : Fields ℕ) × Loaded numbers granting at_start load_message m
        × ((handle_mission_load numbers load_message granting at_start).1.state.mission ≡ some m))
handle_mission_load-mission_example =
    handle_mission_load-mission numbers granting at_start none (λ events s h. h) refl load_message

state_fields-cleared_iff_example :
    (limiter_clearance "m-1" (ok (some (state_fields limiter))) ≡ cleared) ↔ (
      (limiter.orvd_status ≡ authorized)
      × ((limiter.orvd_mission_id ≡ "m-1")
          ⊎ (is_empty limiter.orvd_mission_id ≡ true)
          ⊎ (is_empty "m-1" ≡ true)))
state_fields-cleared_iff_example = state_fields-cleared_iff limiter "m-1"

-- The drone is 40 m above the target of its mission, and 10 m.
abbrev far_off : Fields ℕ
far_off = fields (("lat", float64 55) ∷ ("lon", float64 37) ∷ ("alt_m", float64 70) ∷ [])

abbrev flying : Fields ℕ → Run ℕ (Limiter ℕ)
flying nav = record {
  state = record limiter { mission = some mission; last_nav = some nav };
  events = [];
}

not_emergency : normal ≢ emergency
not_emergency e = cc

recalculate-Raised_example :
    Raised numbers
      (flying far_off).state
      (deviation numbers far_off step)
      (recalculate numbers granting (flying far_off)).1
unfolding drones.Limiter.Fence.last_step get drones.Limiter.Fence.haversine_distance
    drones.Limiter.State.get_float
recalculate-Raised_example =
    recalculate-Raised numbers granting (flying far_off) far_off step refl refl (λ events s h. h)
      refl not_emergency

abbrev revocation : Fields ℕ
revocation = sent_by "orvd" "revoke_takeoff" (only "drone_id" (str "drone_001"))

abbrev permitted : Run ℕ (Limiter ℕ)
permitted = record {
  state = record limiter { orvd_takeoff_authorized = true; orvd_mission_id = "m-1" };
  events = [];
}

revoke-then-takeoff_example :
    Permits numbers granting "m-1" (handle_revoke_takeoff numbers revocation granting permitted).1
unfolding get run_orvd_request_takeoff handle_revoke_takeoff
    drones.Limiter.Orvd.publish_emergency_from_orvd drones.Limiter.Takeoff.after_request_takeoff
    drones.Limiter.Orvd.call_orvd trim_space to_lower drones.Limiter.Takeoff.takeoff_granted
revoke-then-takeoff_example =
    revoke-then-takeoff numbers granting permitted revocation "m-1" refl refl refl refl

abbrev deployed : Config
deployed = record {
  broker_type = "mqtt";
  component_id = "limiter";
  component_topic = "v1.drone.limiter";
  system_name = "drone";
  topic_scheme = "legacy";
  topic_prefix_env = "v1.drone";
  topic_version = "v1";
  instance_id = "Delivery001";
  health_port = "8080";
  kafka_bootstrap = "";
  kafka_group_id = "";
  broker_user = "";
  broker_password = "";
  mqtt_broker = "localhost";
  mqtt_port = pos 1883;
  mqtt_qos = pos 1;
}

-- A mission, an update that would set both limits to 0, a revocation and a round.
abbrev sequence : List (Input ℕ)
sequence =
    mission_load (from_monitor (only "mission" (obj mission)))
    ∷ update_config (
        from_monitor (
          fields
            (("max_distance_from_path_m", float64 0) ∷ ("max_alt_deviation_m", float64 0) ∷ [])))
    ∷ revoke_takeoff revocation
    ∷ round
    ∷ []

journey-new_limiter-Positive_example :
    Positive numbers
      (journey numbers sequence granting (record {
        state = new_limiter numbers (λ t. none) (λ name. "") deployed;
        events = [];
      })).1.state
journey-new_limiter-Positive_example =
    journey-new_limiter-Positive numbers (λ t. none) (λ name. "") deployed sequence granting refl
      refl (λ events s h. h)
