-- ===== src/Config/Environment.antt =====
-- config.go: FromEnv.
use drones.Common.{
  ℕ, zero, suc, true, ◌≡◌, arith, String, append, Option, none, some, natural, negative, trim_space,
  is_empty, if◌then◌else◌,
}
use drones.Message.{ℤ, pos, negsuc}
use drones.Floats.{Floats, lit}
use drones.Config.{Config, broker_topic_for, trimmed_or}
use drones.Config.Credentials.{or_default, broker_credentials}

-- strconv.Atoi
abbrev below_zero : Option ℕ → Option ℤ
below_zero none = none
below_zero (some zero) = some (pos 0)
below_zero (some (suc n)) = some (negsuc n)

abbrev signed : Option ℕ → Option ℕ → Option ℤ
signed (some n) m = some (pos n)
signed none m = below_zero m

unfoldable pub atoi : String → Option ℤ
unfolding natural negative
atoi s = signed (natural s) (negative s)

abbrev or_number : Option ℤ → ℤ → ℤ
or_number none d = d
or_number (some v) d = v

-- if p := os.Getenv(name); p != "" { if v, err := strconv.Atoi(strings.TrimSpace(p)); err == nil { … = v } }
unfoldable pub number_from_env : (String → String) → String → ℤ → ℤ
unfolding atoi trim_space
number_from_env getenv name d =
    if is_empty (getenv name) then d else or_number (atoi (trim_space (getenv name))) d

-- the configuration before the component's topic, the addresses and the credentials are set
unfoldable pub named_from_env : (String → String) → Config
named_from_env getenv = record {
  broker_type = or_default (getenv "BROKER_TYPE") "kafka";
  component_id =
      or_default (or_default (getenv "COMPONENT_ID") (getenv "SYSTEM_ID")) "delivery_drone";
  component_topic = trim_space (getenv "COMPONENT_TOPIC");
  system_name = trimmed_or (getenv "SYSTEM_NAME") "deliverydron";
  topic_scheme = trimmed_or (getenv "TOPIC_SCHEME") "legacy";
  topic_prefix_env = trim_space (getenv "TOPIC_PREFIX");
  topic_version = trimmed_or (getenv "TOPIC_VERSION") "v1";
  instance_id = trimmed_or (getenv "INSTANCE_ID") "Delivery001";
  health_port = "";
  kafka_bootstrap = "";
  kafka_group_id = "";
  broker_user = "";
  broker_password = "";
  mqtt_broker = "";
  mqtt_port = pos 0;
  mqtt_qos = pos 0;
}

unfoldable pub from_env : (String → String) → Config
unfolding named_from_env broker_topic_for number_from_env broker_credentials
from_env getenv =
    let named = named_from_env getenv in
    let host = or_default (getenv "KAFKA_HOST") "localhost" in
    let port = or_default (getenv "KAFKA_PORT") "9092" in
    let cfg = record named {
      component_topic =
          or_default named.component_topic (broker_topic_for named named.component_id);
      health_port = or_default (getenv "HEALTH_PORT") "8080";
      kafka_bootstrap =
          or_default (getenv "KAFKA_BOOTSTRAP_SERVERS") (append host (append ":" port));
      kafka_group_id = or_default (getenv "KAFKA_GROUP_ID") (append named.component_id "_group");
      mqtt_broker = or_default (or_default (getenv "MQTT_BROKER") (getenv "MQTT_HOST")) "localhost";
      mqtt_port = number_from_env getenv "MQTT_PORT" (pos 1883);
      mqtt_qos = number_from_env getenv "MQTT_QOS" (pos 1);
    } in
    record cfg {
      broker_user = (broker_credentials getenv cfg).0;
      broker_password = (broker_credentials getenv cfg).1;
    }

-- if s := os.Getenv(name); s != "" { if v, err := strconv.ParseFloat(strings.TrimSpace(s), 64); err == nil && v > 0 { … = v } }
module _ {F : Type 0} (fl : Floats F) (parse_float : String → Option F) where
  abbrev above_zero : Option F → F → F
  above_zero none d = d
  above_zero (some v) d = if fl.lt (lit fl 0) v then v else d

  unfoldable pub positive_from_env : (String → String) → String → F → F
  unfolding trim_space
  positive_from_env getenv name d =
      if is_empty (getenv name) then d else above_zero (parse_float (trim_space (getenv name))) d

  -- A number that is read from the environment is above zero if its default is.
  pub positive_from_env_pos :
      (getenv : String → String) (name : String) (d : F)
      → fl.lt (lit fl 0) d ≡ true
      → fl.lt (lit fl 0) (positive_from_env getenv name d) ≡ true
  unfolding positive_from_env
  positive_from_env_pos getenv name d h = ground (arith, h)
