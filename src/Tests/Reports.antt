-- ===== src/Tests/Reports.antt =====
-- The telemetry on small inputs.
use drones.Common.{ℕ, true, ◌≡◌, ◌⊎◌, none, some, [], ◌∷◌}
use drones.Message.{Fields, pos, fields, float64}
use drones.Bus.{Run}
use drones.Telemetry.{Telemetry, post_analytics_telemetry}
use drones.Telemetry.Post.{Posted, post_analytics_telemetry-Posted}
use drones.Tests.{numbers, silent_env}

abbrev telemetry : Telemetry ℕ
telemetry = record {
  proxy = record { sender_id = "telemetry"; security_monitor_topic = "v1.drone.security_monitor" };
  journal_topic = "v1.drone.journal";
  navigation_topic = "v1.drone.navigation";
  motors_topic = "v1.drone.motors";
  cargo_topic = "v1.drone.cargo";
  default_battery_pct = pos 100;
  analytics = record {
    enabled = true;
    api_version = "1.1.0";
    drone = "delivery";
    drone_id = pos 1;
  };
  last_motors = none;
  last_cargo = none;
  last_navigation = none;
  last_poll_ts = 0;
}

abbrev at_start : Run ℕ (Telemetry ℕ)
at_start = record { state = telemetry; events = [] }

-- A position, and a charge beyond the scale.
abbrev position : Fields ℕ
position = fields (("lat", float64 55) ∷ ("lon", float64 37) ∷ ("battery", float64 250) ∷ [])

post_analytics_telemetry-Posted_example :
    ((post_analytics_telemetry numbers 5 (some position) none none silent_env at_start).1.events
      ≡ [])
    ⊎ Posted numbers silent_env at_start
        (post_analytics_telemetry numbers 5 (some position) none none silent_env at_start).1.events
post_analytics_telemetry-Posted_example =
    post_analytics_telemetry-Posted numbers silent_env at_start 5 (some position) none none
