-- ===== src/Access/Granted.antt =====
-- What the access control list of an MQTT broker allows whom.
use mathlib.Core.List.Memᴰ
use mathlib.Core.List.{Memᴰ}
use drones.Common.{String, false, List, ◌≡◌, ◌⊎◌, ◌↔◌, sym, subst, ◌∙◌, inl, inr}
use drones.Access.{MqttAclSpec, ExternalPublisher, is_unnamed, sort_strings, generate_acl}
use drones.Access.Reading.{Rule, read_acl}
use drones.Access.Lines.{Clean, read-generate}
use drones.Access.Sections.{gather, Gathered, gather-mem, mem-gather, sort_strings-mem}
use drones.Access.Rules.{
  monitor_own, monitor_over, component_rules, external_rules, is_monitor, read_lines_lem,
}

module _ (s : MqttAclSpec) where
  -- What the description of the bus allows: the security monitor its own topic, and the topics and
  -- the reply topics of the other components; another component to read its topic and its reply
  -- topic, and to write to the security monitor; an external publisher that has a name and a
  -- component to write to that component, and to read its replies.
  abbrev pub Granted : Rule → Type 0
  Granted r =
      Memᴰ r (monitor_own s)
      ⊎ ((c : String) × Memᴰ c s.components
          × ((is_monitor s) c ≡ false)
          × Memᴰ r ((monitor_over s) c))
      ⊎ ((c : String) × Memᴰ c s.components
          × ((is_monitor s) c ≡ false)
          × Memᴰ r ((component_rules s) c))
      ⊎ ((e : ExternalPublisher) × Memᴰ e s.external
          × (is_unnamed e ≡ false)
          × Memᴰ r ((external_rules s) e))

  unsorted :
      (f : String → List Rule) (r : Rule)
      → Gathered (is_monitor s) f r (sort_strings s.components)
        ↔ Gathered (is_monitor s) f r s.components
  unsorted f r = (
    λ (c, m, k, d). (c, (sort_strings-mem c s.components).0 m, k, d),
    λ (c, m, k, d). (c, (sort_strings-mem c s.components).1 m, k, d),
  )

  -- When no name holds a line end, the file that is generated grants this and nothing else: to the
  -- security monitor, its own topic, and the topics and reply topics of the other components; to
  -- another component, to read its topic and its reply topic and to write to the security monitor;
  -- to an external publisher with a name and a component, to write to the topic of that component
  -- and to read its reply topic.
  pub generate_acl-grants_iff :
      Clean s → (r : Rule) → Memᴰ r (read_acl (generate_acl s)) ↔ Granted r
  generate_acl-grants_iff clean r =
      let cs = sort_strings s.components in
      let text = read-generate s clean ∙ read_lines_lem s in
      (
        λ m. elim (Memᴰ.append_cases (monitor_own s) (subst (Memᴰ r) text m)) [
          | inl own ↦ inl own
          | inr m1 ↦ elim (Memᴰ.append_cases (gather (is_monitor s) (monitor_over s) cs) m1) [
            | inl over ↦ inr (
                inl (
                  (unsorted (monitor_over s) r).0
                    (gather-mem (is_monitor s) (monitor_over s) r cs over)))
            | inr m2 ↦ elim (Memᴰ.append_cases (gather (is_monitor s) (component_rules s) cs) m2) [
              | inl c ↦ inr (
                  inr (
                    inl (
                      (unsorted (component_rules s) r).0
                        (gather-mem (is_monitor s) (component_rules s) r cs c))))
              | inr e ↦ inr (inr (inr (gather-mem is_unnamed (external_rules s) r s.external e)))
            ]
          ]
        ],
        λ g. subst (Memᴰ r) (sym text) (elim g [
          | inl own ↦ Memᴰ.append_left _ own
          | inr (inl over) ↦ Memᴰ.append_right (monitor_own s) (
              Memᴰ.append_left _ (
                mem-gather (is_monitor s) (monitor_over s) r cs
                  ((unsorted (monitor_over s) r).1 over)))
          | inr (inr (inl c)) ↦ Memᴰ.append_right (monitor_own s) (
              Memᴰ.append_right (gather (is_monitor s) (monitor_over s) cs) (
                Memᴰ.append_left _ (
                  mem-gather (is_monitor s) (component_rules s) r cs
                    ((unsorted (component_rules s) r).1 c))))
          | inr (inr (inr e)) ↦ Memᴰ.append_right (monitor_own s) (
              Memᴰ.append_right (gather (is_monitor s) (monitor_over s) cs) (
                Memᴰ.append_right (gather (is_monitor s) (component_rules s) cs)
                  (mem-gather is_unnamed (external_rules s) r s.external e)))
        ]),
      )
