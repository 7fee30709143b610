-- ===== src/Tests/Access.antt =====
-- The access control list of a small bus, and the configuration of one of its components.
use mathlib.Core.List.Memᴰ
use mathlib.Core.List.{Memᴰ}
use drones.Common.{String, none, [], ◌∷◌, ◌≡◌, ◌≢◌, ◌↔◌, refl, subst, inl, inr, trim_space}
use drones.Message.{pos}
use drones.Access.{
  MqttAclSpec, ExternalPublisher, username, default_username, generate_acl, broker_users,
}
use drones.Access.Reading.{may_write, Rule, read_acl, one_line}
use drones.Access.Lines.{Clean, OneLine}
use drones.Access.Granted.{Granted, generate_acl-grants_iff}
use drones.Access.Users.{IsAscending, UserOf, broker_users-set}
use drones.Config.{Config, topic_prefix}
use drones.Config.Credentials.{default_broker_username, slug_broker_id}
use drones.Config.Agreement.{default_username-agrees_iff}
use drones.Config.Deployment.{Unshared, Describes, needed, configured-Exact}

abbrev spec : MqttAclSpec
spec = record {
  topic_prefix = "v1.d.I";
  instance_id = "I";
  components = "security_monitor" ∷ "motors" ∷ "cargo" ∷ [];
  external = record { username = "gcs"; component = "cargo" } ∷ [];
  username_for_component = none;
}

spec-Clean : Clean spec
unfolding OneLine one_line default_username
spec-Clean = record {
  prefix = refl;
  instance_name = refl;
  monitor_user = refl;
  named = (refl, (refl, (refl, tt)));
  users = (refl, (refl, (refl, tt)));
  publishers = ((refl, refl), tt);
}

abbrev motors_write : Rule
motors_write = record {
  user = "dd_I_motors";
  access = may_write;
  topic = "v1.d.I.security_monitor";
}

generate_acl-grants_iff_example :
    Memᴰ motors_write (read_acl (generate_acl spec)) ↔ Granted spec motors_write
generate_acl-grants_iff_example = generate_acl-grants_iff spec spec-Clean motors_write

broker_users-set_example :
    IsAscending (broker_users spec)
    × ((u : String) → Memᴰ u (broker_users spec) ↔ UserOf spec u spec.components)
broker_users-set_example = broker_users-set spec

default_username-agrees_iff_example :
    (default_username "I" "motors" ≡ default_broker_username "I" "motors")
    ↔ (slug_broker_id "motors" ≢ "")
default_username-agrees_iff_example = default_username-agrees_iff "I" "motors"

abbrev config : Config
config = record {
  broker_type = "mqtt";
  component_id = "motors";
  component_topic = "v1.d.I.motors";
  system_name = "d";
  topic_scheme = "legacy";
  topic_prefix_env = "v1.d.I";
  topic_version = "v1";
  instance_id = "I";
  health_port = "8080";
  kafka_bootstrap = "";
  kafka_group_id = "";
  broker_user = "";
  broker_password = "";
  mqtt_broker = "localhost";
  mqtt_port = pos 1883;
  mqtt_qos = pos 1;
}

described : Describes spec config
unfolding topic_prefix trim_space slug_broker_id
described = record {
  prefix = refl;
  no_spaces = refl;
  instance_name = refl;
  no_names = refl;
  listed = Memᴰ.tail (Memᴰ.head refl);
  not_monitor = refl;
  named = λ e. cc;
  not_blank = refl;
}

motors-Unshared : Unshared spec "motors"
unfolding default_username trim_space
motors-Unshared = record {
  monitor = λ e. cc;
  others = λ d m e. elim (Memᴰ.cases_cons m) [
    | inl monitor ↦ absurd (
        let clash : username spec "security_monitor" ≡ username spec "motors" =
          subst (λ x. username spec x ≡ username spec "motors") monitor e in
        cc)
    | inr m1 ↦ elim (Memᴰ.cases_cons m1) [
      | inl same ↦ same
      | inr m2 ↦ absurd (
          let clash : username spec "cargo" ≡ username spec "motors" =
            subst (λ x. username spec x ≡ username spec "motors") (Memᴰ.eq_of_singleton m2) e in
          cc)
    ]
  ];
  outside = λ x m e. absurd (
      let clash : ◌≡◌ {A = String} (trim_space "gcs") (username spec "motors") =
        subst (λ (y : ExternalPublisher). trim_space y.username ≡ username spec "motors")
          (Memᴰ.eq_of_singleton m) e in
      cc);
}

configured-Exact_example :
    (Memᴰ motors_write (read_acl (generate_acl spec))
      × (motors_write.user ≡ default_broker_username "I" "motors"))
    ↔ Memᴰ motors_write (needed config (default_broker_username "I" "motors"))
configured-Exact_example =
    configured-Exact spec config described spec-Clean motors-Unshared motors_write
