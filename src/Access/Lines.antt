-- ===== src/Access/Lines.antt =====
-- The access control list as a text: its lines are read back as they were written.

use drones.Common.{
  String, append, true, none, List, [], ◌∷◌, ◌++◌, ◌≡◌, ◌==◌, split, All, All-append, All-if, refl,
  arith, ap, trim_space, trim_left, trim_right,
}
use text.Mathlib.TextLemmas.{nil-append, cons-append}
use drones.Access.{
  MqttAclSpec, ExternalPublisher, username, component_topic, reply_topic, monitor_topic,
  monitor_section, component_section, external_section, is_unnamed, sort_strings, insert_text,
  monitor_lines, component_lines, external_lines, acl_lines, unlines, generate_acl,
}
use drones.Access.Reading.{one_line, read_lines, read_acl}

unfoldable pub OneLine : String → Type 0
OneLine s = one_line s ≡ true

pub OneLine-append : (s t : String) → OneLine s → OneLine t → OneLine (append s t)
unfolding OneLine one_line
OneLine-append String.[] t h k = rw (nil-append t) k
OneLine-append (String.◌∷◌ c s) t h k = rw (cons-append c s t) (ground (arith, OneLine-append s t))

split-line :
    (l rest : String) → OneLine l → split b'\n' (append l (append "\n" rest)) ≡ l ∷ split b'\n' rest
unfolding OneLine one_line split
split-line String.[] rest h =
    rw (nil-append (append "\n" rest), cons-append "\n" "" rest, nil-append rest) refl
split-line (String.◌∷◌ c s) rest h =
    rw (cons-append c s (append "\n" rest)) (ground (arith, split-line s rest))

split-unlines : (ls : List String) → All OneLine ls → split b'\n' (unlines ls) ≡ ls ++ ("" ∷ [])
unfolding unlines split
split-unlines [] h = refl
split-unlines (l ∷ ls) h = rw (split-line l (unlines ls) h.0, split-unlines ls h.1)

trim_left-OneLine : (s : String) → OneLine s → OneLine (trim_left s)
unfolding OneLine one_line trim_left
trim_left-OneLine String.[] h = h
trim_left-OneLine (String.◌∷◌ c s) h = ground (arith, trim_left-OneLine s)

trim_right-OneLine : (s : String) → OneLine s → OneLine (trim_right s)
unfolding OneLine one_line trim_right
trim_right-OneLine String.[] h = h
trim_right-OneLine (String.◌∷◌ c s) h = ground (arith, trim_right-OneLine s)

pub trim_space-OneLine : (s : String) → OneLine s → OneLine (trim_space s)
unfolding trim_space
trim_space-OneLine s h = trim_right-OneLine (trim_left s) (trim_left-OneLine s h)

insert_text-All :
    (P : String → Type 0) (x : String) (ys : List String)
    → P x
    → All P ys
    → All P (insert_text x ys)
unfolding insert_text
insert_text-All P x [] p h = (p, h)
insert_text-All P x (y ∷ ys) p h = ground (arith, p, h, insert_text-All P x ys p h.1)

sort_strings-All : (P : String → Type 0) (xs : List String) → All P xs → All P (sort_strings xs)
unfolding sort_strings
sort_strings-All P [] h = h
sort_strings-All P (x ∷ xs) h =
    insert_text-All P x (sort_strings xs) h.0 (sort_strings-All P xs h.1)

abbrev PublisherOneLine : ExternalPublisher → Type 0
PublisherOneLine e = OneLine e.username × OneLine e.component

-- No name in the description of the bus holds a line end.
pub record Clean (s : MqttAclSpec) : Type 0 where
  pub prefix : OneLine s.topic_prefix
  pub instance_name : OneLine s.instance_id
  pub monitor_user : OneLine (username s "security_monitor")
  pub named : All OneLine s.components
  pub users : All (λ c. OneLine (username s c)) s.components
  pub publishers : All PublisherOneLine s.external

dot-OneLine : OneLine "."
unfolding OneLine one_line
dot-OneLine = refl

replies-OneLine : OneLine ".replies."
unfolding OneLine one_line
replies-OneLine = refl

monitor_end-OneLine : OneLine ".security_monitor"
unfolding OneLine one_line
monitor_end-OneLine = refl

blank-OneLine : OneLine ""
unfolding OneLine one_line
blank-OneLine = refl

reading-OneLine : OneLine "topic read "
unfolding OneLine one_line
reading-OneLine = refl

writing-OneLine : OneLine "topic write "
unfolding OneLine one_line
writing-OneLine = refl

heading-OneLine : OneLine "user "
unfolding OneLine one_line
heading-OneLine = refl

about-OneLine : OneLine "# Instance: "
unfolding OneLine one_line
about-OneLine = refl

first-OneLine : OneLine "# Auto-generated Mosquitto ACL for deliverydron"
unfolding OneLine one_line
first-OneLine = refl

module _ (s : MqttAclSpec) (clean : Clean s) where
  topic-OneLine : (c : String) → OneLine c → OneLine (component_topic s c)
  topic-OneLine c h =
      OneLine-append _ _ clean.prefix (OneLine-append "." _ dot-OneLine (trim_space-OneLine c h))

  reply-OneLine : (c : String) → OneLine c → OneLine (reply_topic s c)
  reply-OneLine c h =
      OneLine-append _ _ clean.prefix
        (OneLine-append ".replies." _ replies-OneLine (trim_space-OneLine c h))

  monitor-OneLine : OneLine (monitor_topic s)
  monitor-OneLine = OneLine-append _ _ (trim_space-OneLine _ clean.prefix) monitor_end-OneLine

  reads-OneLine : (t : String) → OneLine t → OneLine (append "topic read " t)
  reads-OneLine t h = OneLine-append "topic read " t reading-OneLine h

  writes-OneLine : (t : String) → OneLine t → OneLine (append "topic write " t)
  writes-OneLine t h = OneLine-append "topic write " t writing-OneLine h

  user-OneLine : (t : String) → OneLine t → OneLine (append "user " t)
  user-OneLine t h = OneLine-append "user " t heading-OneLine h

  monitor_lines-OneLine : (cs : List String) → All OneLine cs → All OneLine (monitor_lines s cs)
  unfolding monitor_lines
  monitor_lines-OneLine [] h = tt
  monitor_lines-OneLine (c ∷ cs) h =
      let rest = monitor_lines-OneLine cs h.1 in
      let t = topic-OneLine c h.0 in
      let r = reply-OneLine c h.0 in
      let section : All OneLine (monitor_section s c) =
        (reads-OneLine _ t, (writes-OneLine _ t, (reads-OneLine _ r, (writes-OneLine _ r, tt)))) in
      All-if OneLine (c == "security_monitor") _ (monitor_section s c ++ monitor_lines s cs)
        (λ e. rest) (λ e. All-append OneLine (monitor_section s c) _ section rest)

  component_lines-OneLine :
      (cs : List String)
      → All OneLine cs
      → All (λ c. OneLine (username s c)) cs
      → All OneLine (component_lines s cs)
  unfolding component_lines
  component_lines-OneLine [] h k = tt
  component_lines-OneLine (c ∷ cs) h k =
      let rest = component_lines-OneLine cs h.1 k.1 in
      let section : All OneLine (component_section s c) = (
        user-OneLine _ k.0,
        (
          reads-OneLine _ (topic-OneLine c h.0),
          (
            reads-OneLine _ (reply-OneLine c h.0),
            (writes-OneLine _ monitor-OneLine, (blank-OneLine, tt)),
          ),
        ),
      ) in
      All-if OneLine (c == "security_monitor") _ (component_section s c ++ component_lines s cs)
        (λ e. rest) (λ e. All-append OneLine (component_section s c) _ section rest)

  external_lines-OneLine :
      (es : List ExternalPublisher) → All PublisherOneLine es → All OneLine (external_lines s es)
  unfolding external_lines
  external_lines-OneLine [] h = tt
  external_lines-OneLine (e ∷ es) h =
      let rest = external_lines-OneLine es h.1 in
      let u = trim_space e.username in
      let c = trim_space e.component in
      let k = trim_space-OneLine e.component h.0.1 in
      let section : All OneLine (external_section s u c) = (
        user-OneLine u (trim_space-OneLine e.username h.0.0),
        (
          writes-OneLine _ (topic-OneLine c k),
          (reads-OneLine _ (reply-OneLine c k), (blank-OneLine, tt)),
        ),
      ) in
      All-if OneLine (is_unnamed e) _ (external_section s u c ++ external_lines s es) (λ w. rest)
        (λ w. All-append OneLine (external_section s u c) _ section rest)

  acl_lines-OneLine : All OneLine (acl_lines s)
  unfolding acl_lines
  acl_lines-OneLine =
      let named = sort_strings-All OneLine s.components clean.named in
      let users = sort_strings-All (λ c. OneLine (username s c)) s.components clean.users in
      let comps = sort_strings s.components in
      let below : All OneLine ("" ∷ (component_lines s comps ++ external_lines s s.external)) = (
        blank-OneLine,
        All-append OneLine _ _ (component_lines-OneLine _ named users)
            (external_lines-OneLine _ clean.publishers),
      ) in
      (
        first-OneLine,
        (
          OneLine-append "# Instance: " _ about-OneLine clean.instance_name,
          (
            blank-OneLine,
            (
              user-OneLine _ clean.monitor_user,
              (
                reads-OneLine _ monitor-OneLine,
                (
                  writes-OneLine _ monitor-OneLine,
                  All-append OneLine _ _ (monitor_lines-OneLine _ named) below,
                ),
              ),
            ),
          ),
        ),
      )

  -- The text that is generated is read line by line as it was written.
  pub read-generate : read_acl (generate_acl s) ≡ read_lines none (acl_lines s ++ ("" ∷ []))
  unfolding read_acl generate_acl
  read-generate = ap (read_lines none) (split-unlines (acl_lines s) acl_lines-OneLine)
