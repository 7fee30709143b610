-- ===== src/Config/Credentials.antt =====
-- config/src/broker_auth.go: the user, the password and the reply topic of a component. The
-- environment variables (os.Getenv) are a function, with "" for one that is not set.
use Prim.Native.Char.{code}
use drones.Common.{
  String, append, List, [], ◌∷◌, eqb, trim_space, to_upper, is_empty, if◌then◌else◌,
}
use drones.Access.{slug_runes}
use drones.Config.{Config, broker_topic_for}

abbrev pub internal_components : List String
internal_components =
    "security_monitor" ∷ "journal" ∷ "navigation" ∷ "mission_handler" ∷ "autopilot" ∷ "limiter"
    ∷ "emergency" ∷ "motors" ∷ "cargo" ∷ "telemetry" ∷ []

-- strings.ReplaceAll(s, "-", "_")
unfoldable pub underscored : String → String
underscored String.[] = ""
underscored (String.◌∷◌ c s) = String.◌∷◌ (if eqb (code c) b'-' then "_" else c) (underscored s)

unfoldable pub component_env_prefix : String → String
unfolding underscored trim_space to_upper
component_env_prefix component_id = to_upper (underscored (trim_space component_id))

-- slugBrokerID; its loop is that of slug
unfoldable pub slug_broker_id : String → String
unfolding slug_runes trim_space
slug_broker_id s = if is_empty (trim_space s) then "" else slug_runes (trim_space s)

-- if s == "" { s = d }
abbrev pub or_default : String → String → String
or_default s d = if is_empty s then d else s

unfoldable pub default_broker_username : String → String → String
unfolding slug_broker_id
default_broker_username instance_id component_id = append "dd_" (
    append (or_default (slug_broker_id instance_id) "default")
      (append "_" (or_default (slug_broker_id component_id) "component")))

-- the variables of the component itself
abbrev pub own_user : (String → String) → String → String
own_user getenv prefix =
    if is_empty prefix then "" else trim_space (getenv (append prefix "_BROKER_USER"))

abbrev pub own_password : (String → String) → String → String
own_password getenv prefix =
    if is_empty prefix then "" else getenv (append prefix "_BROKER_PASSWORD")

-- BrokerCredentials: the user and the password
unfoldable pub broker_credentials : (String → String) → Config → String × String
unfolding component_env_prefix default_broker_username
broker_credentials getenv c =
    let prefix = component_env_prefix c.component_id in
    (
      or_default (or_default (own_user getenv prefix) (trim_space (getenv "BROKER_USER")))
          (default_broker_username c.instance_id c.component_id),
      or_default (own_password getenv prefix) (getenv "BROKER_PASSWORD"),
    )

unfoldable pub reply_broker_topic : Config → String
unfolding broker_topic_for
reply_broker_topic c =
    broker_topic_for c (append "replies." (or_default (trim_space c.component_id) "component"))

unfoldable pub security_monitor_topic : Config → String
unfolding broker_topic_for
security_monitor_topic c = broker_topic_for c "security_monitor"
