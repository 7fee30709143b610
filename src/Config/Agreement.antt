-- ===== src/Config/Agreement.antt =====
-- broker_auth.go and bus/auth/mqtt_acl.go: the names that both make up for a component.
use text.Mathlib.TextLemmas.{append_cancel_left, append_assoc, cons-append}
use drones.Common.{
  String, append, false, ◌≡◌, ◌≢◌, ◌↔◌, refl, ap, sym, ◌∙◌, arith, is_empty, is_space, trim_space,
  trim_left, Solid, trim_space-append,
}
use drones.Access.{slug, default_username}
use drones.Config.{Config, broker_topic_for, topic_prefix}
use drones.Config.Credentials.{
  slug_broker_id, or_default, default_broker_username, reply_broker_topic,
}

slug-eq-or_default : (s : String) → slug s ≡ or_default (slug_broker_id s) "default"
unfolding slug slug_broker_id
slug-eq-or_default s = ground arith

not_empty : (s : String) → s ≢ "" → is_empty s ≡ false
not_empty String.[] n = absurd (n refl)
not_empty (String.◌∷◌ c s) n = refl

-- DefaultUsername of the access control list and DefaultBrokerUsername of the configuration agree
-- exactly on the components of whose identifier a letter, a digit or a separator is left.
pub default_username-agrees_iff :
    (instance_id component_id : String)
    → (default_username instance_id component_id ≡ default_broker_username instance_id component_id)
      ↔ (slug_broker_id component_id ≢ "")
unfolding default_username default_broker_username
default_username-agrees_iff i c = (
  λ e none_left.
      let inst : slug i ≡ or_default (slug_broker_id i) "default" = slug-eq-or_default i in
      let tails =
        append_cancel_left (slug i) _ _ (append_cancel_left "dd_" _ _ (rw (← inst) at e)) in
      let names : slug c ≡ or_default (slug_broker_id c) "component" =
        append_cancel_left "_" _ _ tails in
      let mine : slug c ≡ "default" = rw (slug-eq-or_default c, none_left) refl in
      let theirs : or_default (slug_broker_id c) "component" ≡ "component" = rw none_left refl in
      let clash : ◌≡◌ {A = String} "default" "component" = sym mine ∙ names ∙ theirs in cc,
  λ n. rw (slug-eq-or_default i, slug-eq-or_default c, not_empty (slug_broker_id c) n) refl,
)

replies-Solid : Solid "replies."
unfolding is_space
replies-Solid = (refl, (refl, (refl, (refl, (refl, (refl, (refl, (refl, tt))))))))

trim_left-replies : (y : String) → trim_left (append "replies." y) ≡ append "replies." y
unfolding trim_left is_space
trim_left-replies y = rw (cons-append "r" "eplies." y) refl

trim_space-replies :
    (id : String)
    → trim_space (append "replies." (trim_space id)) ≡ append "replies." (trim_space id)
trim_space-replies id =
    trim_space-append "replies." id (trim_left-replies (trim_space id)) replies-Solid

-- The reply topic that a component with an identifier is configured with.
pub reply_broker_topic-named :
    (c : Config)
    → is_empty (trim_space c.component_id) ≡ false
    → reply_broker_topic c
      ≡ append (topic_prefix c) (append ".replies." (trim_space c.component_id))
unfolding reply_broker_topic broker_topic_for
reply_broker_topic-named c named =
    let id = trim_space c.component_id in
    let p = topic_prefix c in
    let chosen : or_default id "component" ≡ id = rw named refl in
    let joined : append "." (append "replies." id) ≡ append ".replies." id =
      sym (append_assoc "." "replies." id) in
    ap (λ d. append p (append "." (trim_space (append "replies." d)))) chosen
    ∙ ap (λ t. append p (append "." t)) (trim_space-replies c.component_id)
    ∙ ap (append p) joined
