-- ===== src/Config.antt =====
-- config/src: the topics of the components (config.go), the credentials of a component at the broker
-- (broker_auth.go), and the environment that a configuration is read from.
pub mod Credentials
pub mod Environment
pub mod Agreement
pub mod Deployment
use drones.Message.{ℤ}
use drones.Common.{String, append, trim_space, equal_fold, is_empty, if◌then◌else◌}

pub record Config : Type 0 where
  pub broker_type : String
  pub component_id : String
  pub component_topic : String
  pub system_name : String
  pub topic_scheme : String
  pub topic_prefix_env : String
  pub topic_version : String
  pub instance_id : String
  pub health_port : String
  pub kafka_bootstrap : String
  pub kafka_group_id : String
  pub broker_user : String
  pub broker_password : String
  pub mqtt_broker : String
  pub mqtt_port : ℤ
  pub mqtt_qos : ℤ

-- if s = strings.TrimSpace(s); s == "" { s = d }
abbrev pub trimmed_or : String → String → String
trimmed_or s d = if is_empty (trim_space s) then d else trim_space s

unfoldable pub topic_prefix : Config → String
topic_prefix c =
    if is_empty (trim_space c.topic_prefix_env)
    then (if equal_fold (trim_space c.topic_scheme) "components"
        then append "components." (trimmed_or c.system_name "deliverydron")
        else append (trimmed_or c.topic_version "v1") (
            append "." (
              append (trimmed_or c.system_name "deliverydron")
                (append "." (trimmed_or c.instance_id "Delivery001")))))
    else trim_space c.topic_prefix_env

unfoldable pub broker_topic_for : Config → String → String
unfolding topic_prefix
broker_topic_for c component = append (topic_prefix c) (append "." (trim_space component))
