-- ===== src/Access.antt =====
-- bus/auth/mqtt_acl.go: the access control list of an MQTT broker, and its users.
pub mod Reading
pub mod Lines
pub mod Sections
pub mod Rules
pub mod Granted
pub mod Users
use Prim.Native.Char.{Char, code}
use drones.Common.{
  ℕ, String, append, Bool, true, false, ◌&&◌, ◌||◌, not, Option, none, some, List, [], ◌∷◌, ◌++◌,
  ◌==◌, eqb, leb, ltb, trim_space, is_empty, if◌then◌else◌,
}

pub record ExternalPublisher : Type 0 where
  pub username : String
  pub component : String

pub record MqttAclSpec : Type 0 where
  pub topic_prefix : String
  pub instance_id : String
  pub components : List String
  pub external : List ExternalPublisher
  pub username_for_component : Option (String → String → String)

abbrev pub is_alphanumeric : ℕ → Bool
is_alphanumeric c =
    (leb b'a' c && leb c b'z') || (leb b'A' c && leb c b'Z') || (leb b'0' c && leb c b'9')

abbrev pub is_separator : ℕ → Bool
is_separator c = eqb c b'-' || eqb c b'_' || eqb c b'.'

-- the loop of slug
unfoldable pub slug_runes : String → String
slug_runes String.[] = ""
slug_runes (String.◌∷◌ c s) =
    let rest = slug_runes s in
    if is_alphanumeric (code c)
    then String.◌∷◌ c rest
    else if is_separator (code c)
    then String.◌∷◌ "_" rest
    else rest

unfoldable pub slug : String → String
unfolding slug_runes trim_space
slug s =
    if is_empty (trim_space s)
    then "default"
    else if is_empty (slug_runes (trim_space s))
    then "default"
    else slug_runes (trim_space s)

unfoldable pub default_username : String → String → String
unfolding slug
default_username instance_id component =
    append "dd_" (append (slug instance_id) (append "_" (slug component)))

-- the username of a component, given the field UsernameForComponent
abbrev username_by : Option (String → String → String) → String → String → String
username_by (some f) instance_id component = f instance_id component
username_by none instance_id component = default_username instance_id component

abbrev pub username : MqttAclSpec → String → String
username s component = username_by s.username_for_component s.instance_id component

abbrev pub component_topic : MqttAclSpec → String → String
component_topic s component = append s.topic_prefix (append "." (trim_space component))

abbrev pub reply_topic : MqttAclSpec → String → String
reply_topic s component = append s.topic_prefix (append ".replies." (trim_space component))

-- the order of texts, by their bytes, which is the order of their characters
unfoldable pub leb_text : String → String → Bool
leb_text String.[] t = true
leb_text (String.◌∷◌ c s) String.[] = false
leb_text (String.◌∷◌ c s) (String.◌∷◌ d t) =
    let rest = leb_text s t in if eqb (code c) (code d) then rest else ltb (code c) (code d)

unfoldable pub insert_text : String → List String → List String
insert_text x [] = x ∷ []
insert_text x (y ∷ ys) =
    let rest = insert_text x ys in if leb_text x y then x ∷ y ∷ ys else y ∷ rest

-- sort.Strings
unfoldable pub sort_strings : List String → List String
sort_strings [] = []
sort_strings (x ∷ xs) = insert_text x (sort_strings xs)

-- smTopic
abbrev pub monitor_topic : MqttAclSpec → String
monitor_topic s = append (trim_space s.topic_prefix) ".security_monitor"

-- Every WriteString ends a line; the lines, without their ends.
abbrev pub monitor_section : MqttAclSpec → String → List String
monitor_section s comp =
    append "topic read " (component_topic s comp)
    ∷ append "topic write " (component_topic s comp)
    ∷ append "topic read " (reply_topic s comp)
    ∷ append "topic write " (reply_topic s comp)
    ∷ []

-- the first loop, in the section of the security monitor
unfoldable pub monitor_lines : MqttAclSpec → List String → List String
monitor_lines s [] = []
monitor_lines s (comp ∷ comps) =
    let rest = monitor_lines s comps in
    if comp == "security_monitor" then rest else monitor_section s comp ++ rest

abbrev pub component_section : MqttAclSpec → String → List String
component_section s comp =
    append "user " (username s comp)
    ∷ append "topic read " (component_topic s comp)
    ∷ append "topic read " (reply_topic s comp)
    ∷ append "topic write " (monitor_topic s)
    ∷ ""
    ∷ []

-- the second loop, a section for each other component
unfoldable pub component_lines : MqttAclSpec → List String → List String
component_lines s [] = []
component_lines s (comp ∷ comps) =
    let rest = component_lines s comps in
    if comp == "security_monitor" then rest else component_section s comp ++ rest

-- the section of an external publisher, whose names are trimmed
abbrev pub external_section : MqttAclSpec → String → String → List String
external_section s u c =
    append "user " u
    ∷ append "topic write " (component_topic s c)
    ∷ append "topic read " (reply_topic s c)
    ∷ ""
    ∷ []

-- if u == "" || c == ""
abbrev pub is_unnamed : ExternalPublisher → Bool
is_unnamed ext = is_empty (trim_space ext.username) || is_empty (trim_space ext.component)

-- the third loop, a section for each external publisher
unfoldable pub external_lines : MqttAclSpec → List ExternalPublisher → List String
external_lines s [] = []
external_lines s (ext ∷ exts) =
    let rest = external_lines s exts in
    if is_unnamed ext
    then rest
    else external_section s (trim_space ext.username) (trim_space ext.component) ++ rest

unfoldable pub acl_lines : MqttAclSpec → List String
unfolding monitor_lines component_lines external_lines
acl_lines s =
    let comps = sort_strings s.components in
    "# Auto-generated Mosquitto ACL for deliverydron"
    ∷ append "# Instance: " s.instance_id
    ∷ ""
    ∷ append "user " (username s "security_monitor")
    ∷ append "topic read " (monitor_topic s)
    ∷ append "topic write " (monitor_topic s)
    ∷ (monitor_lines s comps ++ ("" ∷ (component_lines s comps ++ external_lines s s.external)))

unfoldable pub unlines : List String → String
unlines [] = ""
unlines (l ∷ ls) = append l (append "\n" (unlines ls))

unfoldable pub generate_acl : MqttAclSpec → String
unfolding unlines acl_lines
generate_acl s = unlines (acl_lines s)

unfoldable pub contains_text_item : List String → String → Bool
contains_text_item [] u = false
contains_text_item (v ∷ vs) u = v == u || contains_text_item vs u

-- the loop of BrokerUsers; the keys of seen are the items of out
unfoldable pub add_users : MqttAclSpec → List String → List String → List String
unfolding contains_text_item
add_users s [] out = out
add_users s (comp ∷ comps) out =
    add_users s comps
      (if contains_text_item out (username s comp) then out else out ++ (username s comp ∷ []))

unfoldable pub broker_users : MqttAclSpec → List String
unfolding add_users sort_strings
broker_users s = sort_strings (add_users s s.components [])
