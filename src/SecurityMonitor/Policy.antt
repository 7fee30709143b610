-- ===== src/SecurityMonitor/Policy.antt =====
-- Sets of policy keys (security_monitor.go, policy_store.go). The map[PolicyKey]struct{} is a list
-- without duplicates.
use drones.Common.{
  String, Bool, false, not, ◌&&◌, ◌||◌, Option, none, some, List, [], ◌∷◌, ◌==◌, is_empty,
  trim_space, split, if◌then◌else◌,
}
use drones.Message.{Fields, Value, arr, obj, Items, nil, cons, get, string_of}

pub record PolicyKey : Type 0 where
  pub sender : String
  pub topic : String
  pub action : String

abbrev pub same_key : PolicyKey → PolicyKey → Bool
same_key k j = k.sender == j.sender && k.topic == j.topic && k.action == j.action

-- _, ok := set[k]
unfoldable pub contains : List PolicyKey → PolicyKey → Bool
contains [] k = false
contains (j ∷ ks) k = same_key j k || contains ks k

-- set[k] = struct{}{}
unfoldable pub insert : List PolicyKey → PolicyKey → List PolicyKey
unfolding contains
insert ks k = if contains ks k then ks else k ∷ ks

-- delete(set, k)
unfoldable pub delete : List PolicyKey → PolicyKey → List PolicyKey
delete [] k = []
delete (j ∷ ks) k = let rest = delete ks k in if same_key j k then rest else j ∷ rest

-- clonePolicyMap
unfoldable pub clone_policy_map : List PolicyKey → List PolicyKey
unfolding insert
clone_policy_map [] = []
clone_policy_map (k ∷ ks) = insert (clone_policy_map ks) k

-- str and getStr
abbrev pub get_str : {F : Type 0} → Fields F → String → String
get_str m k = string_of (get m k)

-- out[PolicyKey{s, t, a}] = struct{}{}, if none of the trimmed texts is empty
unfoldable pub add_trimmed : List PolicyKey → String → String → String → List PolicyKey
unfolding insert
add_trimmed out s t a =
    if not (is_empty (trim_space s))
      && not (is_empty (trim_space t))
      && not (is_empty (trim_space a))
    then insert out (record { sender = trim_space s; topic = trim_space t; action = trim_space a })
    else out

module _ {F : Type 0} where
  -- one item of the JSON list: an object, or a list of at least three
  unfoldable pub add_item : List PolicyKey → Value F → List PolicyKey
  unfolding add_trimmed
  add_item out (obj m) =
      add_trimmed out (get_str m "sender") (get_str m "topic") (get_str m "action")
  add_item out (arr (cons x (cons y (cons z rest)))) =
      add_trimmed out (string_of (some x)) (string_of (some y)) (string_of (some z))
  add_item out _ = out

  unfoldable pub add_items : List PolicyKey → Items F → List PolicyKey
  unfolding add_item
  add_items out nil = out
  add_items out (cons v vs) = add_items (add_item out v) vs

unfoldable pub add_parts : List PolicyKey → List String → List PolicyKey
unfolding add_trimmed
add_parts out (s ∷ t ∷ a ∷ []) = add_trimmed out s t a
add_parts out _ = out

unfoldable pub add_chunks : List PolicyKey → List String → List PolicyKey
unfolding add_parts split
add_chunks out [] = out
add_chunks out (chunk ∷ chunks) = add_chunks (add_parts out (split b',' chunk)) chunks

-- parsePolicies; `unmarshal` is json.Unmarshal into a []interface{}, with `none` for an error
unfoldable pub parse_policies : {F : Type 0} → (String → Option (Items F)) → String → List PolicyKey
unfolding add_items add_chunks
parse_policies unmarshal raw =
    if is_empty (trim_space raw) then [] else elim (unmarshal (trim_space raw)) [
      | some list ↦ add_items [] list
      | none ↦ add_chunks [] (split b';' (trim_space raw))
    ]
