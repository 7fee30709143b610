-- ===== src/Autopilot/Startup.antt =====
-- autopilot.go: New, with the environment variables that it reads.
use drones.Common.{String, false, Option, none, trim_space}
use drones.Message.{pos}
use drones.Floats.{Floats, lit}
use drones.Config.{Config, broker_topic_for}
use drones.Config.Credentials.{or_default}
use drones.Config.Environment.{positive_from_env}
use drones.Autopilot.State.{Autopilot, idle}

module _ {F : Type 0} (fl : Floats F) (parse_float : String → Option F)
    (getenv : String → String) where
  -- New, less the base component
  unfoldable pub new_autopilot : Config → Autopilot F
  unfolding broker_topic_for positive_from_env trim_space
  new_autopilot cfg = record {
    proxy = record {
      sender_id = cfg.component_id;
      security_monitor_topic =
          or_default (getenv "SECURITY_MONITOR_TOPIC") (broker_topic_for cfg "security_monitor");
    };
    journal_topic = broker_topic_for cfg "journal";
    navigation_topic = broker_topic_for cfg "navigation";
    motors_topic = broker_topic_for cfg "motors";
    cargo_topic = broker_topic_for cfg "cargo";
    limiter_topic =
        or_default (trim_space (getenv "LIMITER_TOPIC")) (broker_topic_for cfg "limiter");
    emergency_topic =
        or_default (trim_space (getenv "EMERGENCY_TOPIC")) (broker_topic_for cfg "emergency");
    nav_poll_interval_sec =
        positive_from_env fl parse_float getenv "AUTOPILOT_NAV_POLL_INTERVAL_S" (fl.dec 1 1);
    preflight_timeout_sec =
        positive_from_env fl parse_float getenv "AUTOPILOT_PREFLIGHT_TIMEOUT_S" (lit fl 60);
    pre_flight_started_at = none;
    mission = none;
    state = idle;
    current_step_index = pos 0;
    last_nav_state = none;
    cargo_state = "CLOSED";
    kover_active = false;
    last_nav_poll_ts = lit fl 0;
    last_error = "";
  }
