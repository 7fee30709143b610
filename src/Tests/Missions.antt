-- ===== src/Tests/Missions.antt =====
-- The mission handler on small inputs.
use drones.Common.{
  ℕ, String, Bool, true, false, ◌≡◌, ◌≢◌, refl, ◌⊎◌, inl, inr, ◌↔◌, ◌==◌, ◌≤◌, Option, none, some,
  List, [], ◌∷◌, is_empty, arith, if◌then◌else◌, itoa, trim_space, to_lower,
}
use drones.Message.{Fields, Value, nil, cons, fields, only, str, bool, obj, arr, float64, get}
use drones.Bus.{ok, Env, Run}
use drones.Component.{proxy_request}
use drones.MissionHandler.State.{MissionHandler, validate_mission}
use drones.MissionHandler.Wpl.{pad_to, pad3, parse_wpl}
use drones.MissionHandler.Handlers.{failed}
use drones.MissionHandler.Valid.{Padded, pad3-Padded, parse_wpl-valid}
use drones.MissionHandler.Chain.{
  Delivered, handle_load_mission-Delivered, handle_load_mission-error,
}
use drones.Tests.{numbers, silent_env}
use drones.Tests.Limits.{passed_on, load_message}

abbrev handler : MissionHandler ℕ
handler = record {
  proxy = record {
    sender_id = "mission_handler";
    security_monitor_topic = "v1.drone.security_monitor";
  };
  autopilot_topic = "v1.drone.autopilot";
  journal_topic = "v1.drone.journal";
  limiter_topic = "v1.drone.limiter";
  last_mission = none;
  last_error = "";
}

abbrev idle : Run ℕ (MissionHandler ℕ)
idle = record { state = handler; events = [] }

-- Components that accept every mission.
abbrev accepting : Env ℕ (MissionHandler ℕ)
accepting = record silent_env { request = λ events topic m. ok (passed_on (only "ok" (bool true))) }

abbrev no_number : String → Option ℕ
no_number s = none

abbrev one_number : String → Option ℕ
one_number s = some 55

handle_load_mission-Delivered_example : Delivered accepting numbers no_number load_message idle
unfolding drones.MissionHandler.Handlers.handle_load_mission get validate_mission proxy_request
handle_load_mission-Delivered_example =
    handle_load_mission-Delivered accepting numbers no_number load_message idle refl

handle_load_mission-error_example :
    (drones.MissionHandler.Handlers.handle_load_mission numbers no_number load_message silent_env
      idle).1.state.last_error
    ≡ "limiter_no_response"
unfolding drones.MissionHandler.Handlers.handle_load_mission get validate_mission proxy_request
handle_load_mission-error_example =
    handle_load_mission-error silent_env numbers no_number load_message idle "limiter_no_response"
      refl

abbrev flight_plan : String
flight_plan =
    "QGC WPL 110\n0\t1\t0\t16\t0\t0\t0\t0\t55\t37\t0\t1\n1\t0\t3\t16\t0\t0\t0\t0\t55\t37\t30\t1"

abbrev place : List (String × Value ℕ)
place = ("lat", float64 55) ∷ ("lon", float64 55) ∷ ("alt_m", float64 55) ∷ []

abbrev planned : Fields ℕ
planned = fields (
    ("mission_id", str "m-2")
    ∷ ("home", obj (fields place))
    ∷ (
      "steps",
      arr (
          cons
            (obj (
              fields (
                ("id", str "wp-000")
                ∷ ("lat", float64 55)
                ∷ ("lon", float64 55)
                ∷ ("alt_m", float64 55)
                ∷ ("speed_mps", float64 5)
                ∷ ("drop", bool false)
                ∷ [])))
            nil),
    )
    ∷ [])

parse_wpl-valid_example : validate_mission planned ≡ none
unfolding parse_wpl trim_space drones.MissionHandler.Wpl.non_empty drones.Common.split
    drones.Common.has_prefix drones.Common.to_upper drones.MissionHandler.Wpl.columns
    drones.MissionHandler.Wpl.atoi drones.Common.negative drones.MissionHandler.Wpl.column
    drones.Common.natural pad3 itoa
parse_wpl-valid_example =
    parse_wpl-valid numbers one_number accepting idle flight_plan "m-2" planned refl

pad3-Padded_example : Padded (itoa 7) (pad3 7)
pad3-Padded_example = pad3-Padded 7

pad3_7 : pad3 7 ≡ "007"
unfolding pad3 itoa
pad3_7 = refl
