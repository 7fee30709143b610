-- ===== src/Tests/Flights.antt =====
-- The autopilot on small inputs.
use drones.Common.{List, ℕ, true, false, ◌≡◌, ◌≢◌, refl, none, some, [], ◌∷◌}
use drones.Message.{Fields, Value, get, nil, cons, pos, str, arr, obj, float64, fields, only}
use drones.Bus.{Env, Run, ok}
use drones.Component.{proxy_request}
use drones.Autopilot.State.{pre_flight, executing, kover, stop, Autopilot, fresh}
use drones.Autopilot.Preflight.{
  limiter_clearance, check_limiter_authorization, request_orvd_takeoff, request_droneport_takeoff,
  has_timed_out, pass, run_checks, step_pre_flight,
}
use drones.Autopilot.Commands.{run_command}
use drones.Autopilot.Answers.{LimiterClears, TakeoffClears, DroneportClears, Cleared}
use drones.Autopilot.Clearance.{limiter_run, takeoff_run, step_pre_flight-executing}
use drones.Autopilot.Halt.{After, halted, run_command-halts}
use drones.Autopilot.Range.{InRange}
use drones.Autopilot.Journey.{Input, mission_load, cmd, round, journey, journey-InRange}
use drones.Autopilot.Kover.{moved, run_command-moves}
use drones.Tests.{numbers, silent_env, from_monitor}

abbrev mission : Fields ℕ
mission =
    fields
      (("mission_id", str "m-1") ∷ ("steps", arr (cons (obj (only "alt_m" (float64 30))) nil)) ∷ [])

abbrev position : Fields ℕ
position = fields (("lat", float64 55) ∷ ("lon", float64 37) ∷ ("alt_m", float64 0) ∷ [])

abbrev waiting : Autopilot ℕ
waiting = record {
  proxy = record { sender_id = "autopilot"; security_monitor_topic = "v1.drone.security_monitor" };
  journal_topic = "v1.drone.journal";
  navigation_topic = "v1.drone.navigation";
  motors_topic = "v1.drone.motors";
  cargo_topic = "v1.drone.cargo";
  limiter_topic = "v1.drone.limiter";
  emergency_topic = "v1.drone.emergency";
  nav_poll_interval_sec = 1;
  preflight_timeout_sec = 60;
  pre_flight_started_at = some 990;
  mission = some mission;
  state = pre_flight;
  current_step_index = pos 0;
  last_nav_state = none;
  cargo_state = "CLOSED";
  kover_active = false;
  last_nav_poll_ts = 0;
  last_error = "";
}

abbrev at_gate : Run ℕ (Autopilot ℕ)
at_gate = record { state = waiting; events = [] }

-- The limiter has the mission authorized; it and the emergency component grant what they are asked.
abbrev clearing : Fields ℕ
clearing = only "payload" (
    obj (
      only "target_response" (
        obj (
          only "payload"
            (obj (fields (("orvd_status", str "AUTHORIZED") ∷ ("ok", Value.bool true) ∷ [])))))))

abbrev clearing_env : Env ℕ (Autopilot ℕ)
clearing_env = record silent_env { request = λ events topic m. ok clearing }

abbrev timed : Run ℕ (Autopilot ℕ)
timed = (has_timed_out numbers clearing_env at_gate).1

not_yet : pre_flight ≢ executing
not_yet e = cc

takes_off : (step_pre_flight numbers clearing_env at_gate).1.state.state ≡ executing
unfolding step_pre_flight has_timed_out run_checks check_limiter_authorization request_orvd_takeoff
    request_droneport_takeoff pass proxy_request limiter_clearance get
takes_off = refl

step_pre_flight-executing_example :
    (waiting.state ≡ pre_flight)
    × ((has_timed_out numbers clearing_env at_gate).0 ≡ false)
    × Cleared (LimiterClears clearing_env) timed
    × Cleared (TakeoffClears clearing_env) (limiter_run clearing_env timed).1
    × Cleared (DroneportClears clearing_env) (takeoff_run clearing_env timed).1
step_pre_flight-executing_example =
    step_pre_flight-executing numbers clearing_env at_gate (λ events a h. h) not_yet takes_off

-- A drone that was never started, and is told to land in place.
abbrev grounded : Run ℕ (Autopilot ℕ)
grounded = record { state = fresh numbers waiting; events = [] }

run_command-moves_example :
    (run_command numbers kover silent_env grounded).1.state.state ≡ moved kover grounded.state.state
run_command-moves_example = run_command-moves numbers silent_env kover grounded refl

abbrev landing : Run ℕ (Autopilot ℕ)
landing = record {
  state = record waiting { state = executing; kover_active = true; last_nav_state = some position };
  events = [];
}

run_command-halts_example :
    After
      (halted numbers landing.state (some position) [])
      (run_command numbers stop silent_env landing).1.events
run_command-halts_example = run_command-halts numbers silent_env stop landing refl

abbrev inputs : List (Input ℕ)
inputs =
    mission_load (from_monitor (only "mission" (obj mission)))
    ∷ cmd (from_monitor (only "command" (str "START")))
    ∷ round
    ∷ round
    ∷ []

journey-InRange_example :
    InRange
      (journey numbers inputs clearing_env
        (record { state = fresh numbers waiting; events = [] })).1.state
journey-InRange_example = journey-InRange numbers inputs clearing_env waiting (λ events s h. h)
