-- ===== src/Config/Deployment.antt =====
-- The configuration of a component (broker_auth.go) against the access control list of the broker
-- (bus/auth/mqtt_acl.go).
use mathlib.Core.List.Memᴰ
use mathlib.Core.List.{Memᴰ}
use drones.Common.{
  All, String, false, ◌≡◌, ◌≢◌, ◌↔◌, inl, inr, refl, ap, sym, subst, ◌∙◌, none, List, [], ◌∷◌, ◌==◌,
  is_empty, trim_space,
}
use drones.Access.{MqttAclSpec, ExternalPublisher, username, generate_acl}
use drones.Access.Reading.{may_read, may_write, Rule, read_acl}
use drones.Access.Lines.{Clean}
use drones.Access.Sections.{rule}
use drones.Access.Rules.{monitor_own, monitor_over, component_rules, external_rules}
use drones.Access.Granted.{generate_acl-grants_iff}
use drones.Config.{Config, topic_prefix, broker_topic_for}
use drones.Config.Credentials.{
  default_broker_username, reply_broker_topic, security_monitor_topic, slug_broker_id,
}
use drones.Config.Agreement.{default_username-agrees_iff, reply_broker_topic-named}

-- No other component, nor an external publisher, has the username of c.
pub record Unshared (s : MqttAclSpec) (c : String) : Type 0 where
  pub monitor : username s "security_monitor" ≢ username s c
  pub others : (d : String) → Memᴰ d s.components → username s d ≡ username s c → d ≡ c
  pub outside : (e : ExternalPublisher) → Memᴰ e s.external → trim_space e.username ≢ username s c

user_of :
    (u : String) (rs : List Rule) (r : Rule) → All (λ x. x.user ≡ u) rs → Memᴰ r rs → r.user ≡ u
user_of u [] r h m = absurd (Memᴰ.not-nil m)
user_of u (x ∷ rs) r h m = elim (Memᴰ.cases_cons m) [
  | inl e ↦ ap (λ y. y.user) e ∙ h.0
  | inr k ↦ user_of u rs r h.1 k
]

module _ (s : MqttAclSpec) (clean : Clean s) (c : String) (alone : Unshared s c) where
  -- A component whose username no other has is granted its own rules and nothing else.
  pub granted-own :
      (r : Rule)
      → Memᴰ r (read_acl (generate_acl s))
      → r.user ≡ username s c
      → Memᴰ r (component_rules s c)
  granted-own r m mine =
      let monitor = username s "security_monitor" in
      elim ((generate_acl-grants_iff s clean r).0 m) [
        | inl o ↦
            absurd
              (alone.monitor (sym (user_of monitor (monitor_own s) r (refl, (refl, tt)) o) ∙ mine))
        | inr (inl (d, k, n, o)) ↦
            let same = user_of monitor (monitor_over s d) r (refl, (refl, (refl, (refl, tt)))) o in
            absurd (alone.monitor (sym same ∙ mine))
        | inr (inr (inl (d, k, n, o))) ↦
            let same =
              user_of (username s d) (component_rules s d) r (refl, (refl, (refl, tt))) o in
            subst (λ x. Memᴰ r (component_rules s x)) (alone.others d k (sym same ∙ mine)) o
        | inr (inr (inr (e, k, n, o))) ↦
            let same =
              user_of (trim_space e.username) (external_rules s e) r (refl, (refl, tt)) o in
            absurd (alone.outside e k (sym same ∙ mine))
      ]

-- What a configured component needs: to read its topic and its reply topic, and to write to the
-- security monitor.
abbrev pub needed : Config → String → List Rule
needed cfg user =
    rule user may_read (broker_topic_for cfg cfg.component_id)
    ∷ rule user may_read (reply_broker_topic cfg)
    ∷ rule user may_write (security_monitor_topic cfg)
    ∷ []

-- The description of the bus is that of the configuration's instance.
pub record Describes (s : MqttAclSpec) (cfg : Config) : Type 0 where
  pub prefix : s.topic_prefix ≡ topic_prefix cfg
  pub no_spaces : trim_space s.topic_prefix ≡ s.topic_prefix
  pub instance_name : s.instance_id ≡ cfg.instance_id
  pub no_names : s.username_for_component ≡ none
  pub listed : Memᴰ cfg.component_id s.components
  pub not_monitor : (cfg.component_id == "security_monitor") ≡ false
  pub named : slug_broker_id cfg.component_id ≢ ""
  pub not_blank : is_empty (trim_space cfg.component_id) ≡ false

module _ (s : MqttAclSpec) (cfg : Config) (d : Describes s cfg) where
  configured_user :
      username s cfg.component_id ≡ default_broker_username cfg.instance_id cfg.component_id
  configured_user =
      rw (d.no_names, d.instance_name)
        ((default_username-agrees_iff cfg.instance_id cfg.component_id).1 d.named)

  own-needed : component_rules s cfg.component_id ≡ needed cfg (username s cfg.component_id)
  unfolding broker_topic_for security_monitor_topic trim_space
  own-needed = rw (d.no_spaces, d.prefix, reply_broker_topic-named cfg d.not_blank) refl

  -- Take a component other than the security monitor, with an identifier of which the username keeps
  -- something, and a description of the bus that lists it, has the instance and the prefix of its
  -- configuration, with no spaces around that, makes up the usernames, has no name with a line end,
  -- and gives the component's username to no other. Then, under the username that the configuration
  -- makes up, the access control list lets the component read its topic and its reply topic and write
  -- to the security monitor, as it is configured to, and nothing else.
  pub configured-Exact :
      Clean s
      → Unshared s cfg.component_id
      → (r : Rule)
      → (Memᴰ r (read_acl (generate_acl s))
          × (r.user ≡ default_broker_username cfg.instance_id cfg.component_id))
        ↔ Memᴰ r (needed cfg (default_broker_username cfg.instance_id cfg.component_id))
  configured-Exact clean alone r =
      let u = default_broker_username cfg.instance_id cfg.component_id in
      let same : component_rules s cfg.component_id ≡ needed cfg u =
        own-needed ∙ ap (needed cfg) configured_user in
      (
        λ (m, mine).
            subst (Memᴰ r) same
              (granted-own s clean cfg.component_id alone r m (mine ∙ sym configured_user)),
        λ m.
            let own = subst (Memᴰ r) (sym same) m in
            (
              (generate_acl-grants_iff s clean r).1
                  (inr (inr (inl (cfg.component_id, d.listed, d.not_monitor, own)))),
              user_of u (needed cfg u) r (refl, (refl, (refl, tt))) m,
            ),
      )
