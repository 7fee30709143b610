-- ===== src/Access/Reading.antt =====
-- How an access control list is read: a line `user u` opens the section of u, and the lines
-- `topic read t` and `topic write t` below it are rules for u.
use Prim.Native.Char.{code}
use drones.Common.{
  String, Bool, Option, none, some, List, [], ◌∷◌, ◌++◌, ◌&&◌, not, true, eqb, if◌then◌else◌, split,
}

pub data Access : Type 0 where
  may_read may_write : Access

pub record Rule : Type 0 where
  pub user : String
  pub access : Access
  pub topic : String

unfoldable pub cut_prefix : String → String → Option String
cut_prefix s String.[] = some s
cut_prefix String.[] (String.◌∷◌ d p) = none
cut_prefix (String.◌∷◌ c s) (String.◌∷◌ d p) =
    let rest = cut_prefix s p in if eqb (code c) (code d) then rest else none

abbrev rule_for : Option String → Access → String → List Rule
rule_for none a t = []
rule_for (some u) a t = record { user = u; access = a; topic = t } ∷ []

unfoldable pub topic_rules : Option String → String → List Rule
unfolding cut_prefix
topic_rules u line = elim (cut_prefix line "topic read ") [
  | some t ↦ rule_for u may_read t
  | none ↦ elim (cut_prefix line "topic write ") [ some t ↦ rule_for u may_write t | none ↦ [] ]
]

unfoldable pub read_lines : Option String → List String → List Rule
unfolding topic_rules
read_lines u [] = []
read_lines u (line ∷ lines) = elim (cut_prefix line "user ") [
  | some v ↦ read_lines (some v) lines
  | none ↦ topic_rules u line ++ read_lines u lines
]

unfoldable pub read_acl : String → List Rule
unfolding read_lines
read_acl text = read_lines none (split b'\n' text)

-- A text with no line end.
unfoldable pub one_line : String → Bool
one_line String.[] = true
one_line (String.◌∷◌ c s) = not (eqb (code c) b'\n') && one_line s
