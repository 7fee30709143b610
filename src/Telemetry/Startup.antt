-- ===== src/Telemetry/Startup.antt =====
-- telemetry.go: New, with the environment variables that it reads.
use drones.Common.{String, Option, none, some, ltb, trim_space, is_empty, if◌then◌else◌}
use drones.Message.{ℤ, pos, negsuc}
use drones.Floats.{Floats, lit}
use drones.Config.{Config, broker_topic_for}
use drones.Config.Credentials.{or_default}
use drones.Config.Environment.{atoi}
use drones.Analytics.{client_from_env}
use drones.Telemetry.{Telemetry}

-- if v < 0 { v = 0 }; if v > 100 { v = 100 }
unfoldable pub percent : ℤ → ℤ
percent (pos n) = if ltb 100 n then pos 100 else pos n
percent (negsuc n) = pos 0

abbrev battery_or : Option ℤ → ℤ
battery_or none = pos 100
battery_or (some v) = percent v

module _ {F : Type 0} (fl : Floats F) (parse_float : String → Option F)
    (getenv : String → String) where
  -- New, less the base component
  unfoldable pub new_telemetry : Config → Telemetry F
  unfolding broker_topic_for atoi percent client_from_env trim_space
  new_telemetry cfg =
      let analytics = client_from_env fl parse_float getenv in
      record {
        proxy = record {
          sender_id = cfg.component_id;
          security_monitor_topic =
              or_default (getenv "SECURITY_MONITOR_TOPIC")
                (broker_topic_for cfg "security_monitor");
        };
        journal_topic = or_default (getenv "JOURNAL_TOPIC") (broker_topic_for cfg "journal");
        navigation_topic =
            or_default (getenv "NAVIGATION_TOPIC") (broker_topic_for cfg "navigation");
        motors_topic = or_default (getenv "MOTORS_TOPIC") (broker_topic_for cfg "motors");
        cargo_topic = or_default (getenv "CARGO_TOPIC") (broker_topic_for cfg "cargo");
        default_battery_pct =
            if is_empty (getenv "TELEMETRY_BATTERY_PCT_DEFAULT")
            then pos 100
            else battery_or (atoi (trim_space (getenv "TELEMETRY_BATTERY_PCT_DEFAULT")));
        analytics = record {
          enabled = analytics.enabled;
          api_version = analytics.api_version;
          drone = analytics.drone;
          drone_id = analytics.drone_id;
        };
        last_motors = none;
        last_cargo = none;
        last_navigation = none;
        last_poll_ts = lit fl 0;
      }
