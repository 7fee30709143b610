-- ===== src/Limiter/Startup.antt =====
-- limiter.go and orvd.go: New, with the environment variables that it reads.
use Prim.Native.Char.{code}
use drones.Common.{
  ℕ, zero, suc, String, Bool, true, false, ◌&&◌, ◌||◌, Option, none, some, List, [], ◌≡◌,
  has_prefix, leb, eqb, trim_space, if◌then◌else◌,
}
use drones.Bus.{Env}
use drones.Bus.Keeps.{Rely}
use drones.Floats.{Floats, lit}
use drones.Component.{ProxyClient}
use drones.Config.{Config, broker_topic_for}
use drones.Config.Credentials.{or_default}
use drones.Config.Environment.{positive_from_env, positive_from_env_pos}
use drones.Analytics.{parse_bool}
use drones.Limiter.State.{Limiter, OrvdConfig, normal, disabled, phase_disabled}
use drones.Limiter.Limits.{Positive}
use drones.Limiter.Journey.{Input, journey, journey-Positive}

-- the number of digits of a text, or none if it has anything else
unfoldable pub count_digits : String → Option ℕ
count_digits String.[] = some 0
count_digits (String.◌∷◌ c s) =
    let rest = count_digits s in
    if leb b'0' (code c) && leb (code c) b'9'
    then elim rest [ none ↦ none | some n ↦ some (suc n) ]
    else none

abbrev three_or_four : Option ℕ → Bool
three_or_four none = false
three_or_four (some n) = eqb n 3 || eqb n 4

-- the text after its first n characters
unfoldable pub after_first : ℕ → String → String
after_first zero s = s
after_first (suc n) String.[] = ""
after_first (suc n) (String.◌∷◌ c s) = after_first n s

-- orvdDroneIDPattern.MatchString
unfoldable pub is_drone_id : String → Bool
unfolding has_prefix count_digits after_first
is_drone_id s = has_prefix s "drone_" && three_or_four (count_digits (after_first 6 s))

module _ {F : Type 0} (fl : Floats F) (parse_float : String → Option F)
    (getenv : String → String) where
  -- loadORVDConfig; the time-outs are the environment's answers
  unfoldable pub load_orvd_config : String → String → ProxyClient → OrvdConfig F
  unfolding is_drone_id positive_from_env parse_bool trim_space
  load_orvd_config component_id instance_id proxy =
      let named = or_default (trim_space (getenv "ORVD_DRONE_ID")) (trim_space instance_id) in
      record {
        topic =
            or_default (trim_space (getenv "ORVD_TOPIC"))
              (trim_space (getenv "ORVD_EXTERNAL_TOPIC"));
        drone_id = if is_drone_id named then named else "drone_001";
        drone_model = trim_space (getenv "ORVD_DRONE_MODEL");
        operator = trim_space (getenv "ORVD_OPERATOR");
        certificate_id = trim_space (getenv "ORVD_CERTIFICATE_ID");
        mock_success = parse_bool (getenv "LIMITER_ORVD_MOCK_SUCCESS");
        telemetry_interval_sec =
            positive_from_env fl parse_float getenv "LIMITER_ORVD_TELEMETRY_INTERVAL_S" (lit fl 1);
        max_mission_alt_m =
            positive_from_env fl parse_float getenv "LIMITER_MAX_MISSION_ALT_M" (lit fl 5000);
        orvd_proxy = record {
          sender_id = component_id;
          security_monitor_topic = proxy.security_monitor_topic;
        };
      }

  -- New, less the base component
  unfoldable pub new_limiter : Config → Limiter F
  unfolding load_orvd_config broker_topic_for positive_from_env
  new_limiter cfg =
      let proxy : ProxyClient = record {
        sender_id = cfg.component_id;
        security_monitor_topic =
            or_default (getenv "SECURITY_MONITOR_TOPIC") (broker_topic_for cfg "security_monitor");
      } in
      record {
        proxy = proxy;
        journal_topic = broker_topic_for cfg "journal";
        navigation_topic = broker_topic_for cfg "navigation";
        telemetry_topic = broker_topic_for cfg "telemetry";
        emergency_topic = broker_topic_for cfg "emergency";
        nav_poll_interval_sec =
            positive_from_env fl parse_float getenv "LIMITER_NAV_POLL_INTERVAL_S" (fl.dec 2 1);
        telemetry_poll_interval_sec =
            positive_from_env fl parse_float getenv "LIMITER_TELEMETRY_POLL_INTERVAL_S"
              (fl.dec 5 1);
        max_distance_from_path_m =
            positive_from_env fl parse_float getenv "LIMITER_MAX_DISTANCE_FROM_PATH_M" (lit fl 50);
        max_alt_deviation_m =
            positive_from_env fl parse_float getenv "LIMITER_MAX_ALT_DEVIATION_M" (lit fl 20);
        mission = none;
        last_nav = none;
        last_telemetry = none;
        state = normal;
        last_nav_poll_ts = lit fl 0;
        last_telemetry_poll_ts = lit fl 0;
        orvd = load_orvd_config cfg.component_id cfg.instance_id proxy;
        orvd_status = disabled;
        orvd_mission_id = "";
        orvd_phase = phase_disabled;
        orvd_drone_registered = false;
        orvd_takeoff_authorized = false;
        last_orvd_telemetry_ts = lit fl 0;
      }

  -- Whatever the environment variables and the configuration hold, and after any sequence of
  -- messages and rounds of the control loop from the start: both limits of the geofence are above
  -- zero, if the other goroutines keep them so, and if 50 and 20 are above 0 as float64.
  pub journey-new_limiter-Positive :
      (cfg : Config) (inputs : List (Input F)) (env : Env F (Limiter F))
      → fl.lt (lit fl 0) (lit fl 50) ≡ true
      → fl.lt (lit fl 0) (lit fl 20) ≡ true
      → Rely (Positive fl) env
      → Positive fl
          (journey fl inputs env (record { state = new_limiter cfg; events = [] })).1.state
  unfolding new_limiter
  journey-new_limiter-Positive cfg inputs env wide high g =
      journey-Positive fl inputs env (record { state = new_limiter cfg; events = [] }) g
        (
          positive_from_env_pos fl parse_float getenv "LIMITER_MAX_DISTANCE_FROM_PATH_M" (lit fl 50)
              wide,
          positive_from_env_pos fl parse_float getenv "LIMITER_MAX_ALT_DEVIATION_M" (lit fl 20)
              high,
        )
