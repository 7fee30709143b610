-- ===== src/Access/Rules.antt =====
-- The rules that the access control list of an MQTT broker is made of, and that it is read as.
use mathlib.Core.List.{append_assoc}
use text.Mathlib.TextLemmas.{cons-append}
use drones.Common.{
  String, append, Bool, Option, none, some, List, [], ◌∷◌, ◌++◌, ◌≡◌, ◌==◌, refl, arith, Bool-cases,
  inl, inr, trim_space,
}
use drones.Access.{
  MqttAclSpec, ExternalPublisher, username, component_topic, reply_topic, monitor_topic, is_unnamed,
  sort_strings, monitor_lines, component_lines, external_lines, acl_lines,
}
use drones.Access.Reading.{may_read, may_write, Rule, cut_prefix, topic_rules, read_lines}
use drones.Access.Sections.{rule, read_user, read_read, read_write, gather}

module _ (s : MqttAclSpec) where
  -- the security monitor at its own topic
  abbrev pub monitor_own : List Rule
  monitor_own =
      rule (username s "security_monitor") may_read (monitor_topic s)
      ∷ rule (username s "security_monitor") may_write (monitor_topic s)
      ∷ []

  -- the security monitor at the topics of another component
  abbrev pub monitor_over : String → List Rule
  monitor_over c =
      let u = username s "security_monitor" in
      rule u may_read (component_topic s c)
      ∷ rule u may_write (component_topic s c)
      ∷ rule u may_read (reply_topic s c)
      ∷ rule u may_write (reply_topic s c)
      ∷ []

  -- another component
  abbrev pub component_rules : String → List Rule
  component_rules c =
      rule (username s c) may_read (component_topic s c)
      ∷ rule (username s c) may_read (reply_topic s c)
      ∷ rule (username s c) may_write (monitor_topic s)
      ∷ []

  -- an external publisher
  abbrev pub external_rules : ExternalPublisher → List Rule
  external_rules e =
      rule (trim_space e.username) may_write (component_topic s (trim_space e.component))
      ∷ rule (trim_space e.username) may_read (reply_topic s (trim_space e.component))
      ∷ []

  abbrev pub is_monitor : String → Bool
  is_monitor c = c == "security_monitor"

  -- lines of commentary, before the first section
  no_rules : (l : String) → topic_rules none l ≡ []
  unfolding topic_rules
  no_rules l = ground arith

  not_instance : (i : String) → cut_prefix (append "# Instance: " i) "user " ≡ none
  unfolding cut_prefix
  not_instance i = rw (cons-append "#" " Instance: " i) refl

  read_instance :
      (i : String) (ls : List String)
      → read_lines none (append "# Instance: " i ∷ ls) ≡ read_lines none ls
  unfolding read_lines
  read_instance i ls = ground (arith, not_instance i, no_rules (append "# Instance: " i))

  read_title :
      (ls : List String)
      → read_lines none ("# Auto-generated Mosquitto ACL for deliverydron" ∷ ls)
        ≡ read_lines none ls
  unfolding read_lines topic_rules cut_prefix
  read_title ls = refl

  read_monitor :
      (cs ls : List String)
      → let u = username s "security_monitor" in
        read_lines (some u) (monitor_lines s cs ++ ls)
        ≡ gather is_monitor monitor_over cs ++ read_lines (some u) ls
  unfolding monitor_lines gather
  read_monitor [] ls = refl
  read_monitor (c ∷ cs) ls = elim (Bool-cases (c == "security_monitor")) [
    | inl m ↦ rw m (read_monitor cs ls)
    | inr m ↦
        let u = username s "security_monitor" in
        rw
          (
            m,
            read_read u (component_topic s c),
            read_write u (component_topic s c),
            read_read u (reply_topic s c),
            read_write u (reply_topic s c),
            read_monitor cs ls,
          )
          refl
  ]

  read_blank : (u : Option String) (ls : List String) → read_lines u ("" ∷ ls) ≡ read_lines u ls
  unfolding read_lines topic_rules cut_prefix
  read_blank u ls = refl

  read_end : (u : Option String) → read_lines u ("" ∷ []) ≡ []
  unfolding read_lines topic_rules cut_prefix
  read_end u = refl

  read_external :
      (u : Option String) (es : List ExternalPublisher)
      → read_lines u (external_lines s es ++ ("" ∷ [])) ≡ gather is_unnamed external_rules es
  unfolding external_lines gather
  read_external u [] = read_end u
  read_external u (e ∷ es) = elim (Bool-cases (is_unnamed e)) [
    | inl m ↦ rw m (read_external u es)
    | inr m ↦
        let v = trim_space e.username in
        let c = trim_space e.component in
        rw
          (
            m,
            read_user u v,
            read_write v (component_topic s c),
            read_read v (reply_topic s c),
            read_blank (some v),
            read_external (some v) es,
          )
          refl
  ]

  read_components :
      (u : Option String) (cs : List String)
      → read_lines u ((component_lines s cs ++ external_lines s s.external) ++ ("" ∷ []))
        ≡ gather is_monitor component_rules cs ++ gather is_unnamed external_rules s.external
  unfolding component_lines gather
  read_components u [] = read_external u s.external
  read_components u (c ∷ cs) = elim (Bool-cases (c == "security_monitor")) [
    | inl m ↦ rw m (read_components u cs)
    | inr m ↦
        let v = username s c in
        rw
          (
            m,
            read_user u v,
            read_read v (component_topic s c),
            read_read v (reply_topic s c),
            read_write v (monitor_topic s),
            read_blank (some v),
            read_components (some v) cs,
          )
          refl
  ]

  pub read_lines_lem :
      let cs = sort_strings s.components in
      read_lines none (acl_lines s ++ ("" ∷ []))
      ≡ monitor_own
        ++ (gather is_monitor monitor_over cs
            ++ (gather is_monitor component_rules cs
                ++ gather is_unnamed external_rules s.external))
  unfolding acl_lines
  read_lines_lem =
      let cs = sort_strings s.components in
      let u = username s "security_monitor" in
      let below = component_lines s cs ++ external_lines s s.external in
      rw
        (
          append_assoc (monitor_lines s cs) ("" ∷ below) ("" ∷ []),
          read_title,
          read_instance s.instance_id,
          read_blank none,
          read_user none u,
          read_read u (monitor_topic s),
          read_write u (monitor_topic s),
          read_monitor cs ("" ∷ (below ++ ("" ∷ []))),
          read_blank (some u),
          read_components (some u) cs,
        )
        refl
