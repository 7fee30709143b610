-- ===== src/SecurityMonitor/Updates.antt =====
-- What the policy handlers change, on every branch.
use drones.Common.{
  String, Bool, true, false, not, ◌&&◌, ◌||◌, ◌≡◌, inl, inr, Option, some, List, [], ◌∷◌, arith,
  is_empty, trim_space, if◌then◌else◌, All, split, Bool-cases, Option-cases,
}
use drones.Message.{Fields, Value, Items, nil, cons, arr, obj, get_string, get_map}
use drones.Bus.{Env, Run}
use drones.SecurityMonitor.Policy.{
  PolicyKey, same_key, contains, add_trimmed, add_item, add_items, add_parts, add_chunks,
  parse_policies,
}
use drones.SecurityMonitor.State.{is_isolated, Monitor, can_manage_policies}
use drones.SecurityMonitor.PolicyStore.{
  set_policy, remove_policy, key_of, handle_set_policy, handle_remove_policy,
}
use drones.SecurityMonitor.Membership.{contains-insert, contains-delete}

-- A set of policies that is given by a test, in normal mode active as well as stored.
pub record Holds (sm : Monitor) (before : Monitor) (test : PolicyKey → Bool → Bool) : Type 0 where
  pub stored :
      (j : PolicyKey) → contains sm.normal_policies j ≡ test j (contains before.normal_policies j)
  pub active :
      (j : PolicyKey)
      → contains sm.policies j ≡ (
          if is_isolated before.safety_state.mode
          then contains before.policies j
          else test j (contains before.policies j))
  pub kept : sm.safety_state ≡ before.safety_state

module _ {F : Type 0} (message : Fields F) (env : Env F Monitor) (r : Run F Monitor) (k : PolicyKey)
    (admin : can_manage_policies r.state (get_string message "sender") ≡ true) where
  -- The administrator's set_policy of a complete key adds that key to the stored policies and, in
  -- normal mode alone, to the active ones; every other key and the mode stay as they were.
  pub handle_set_policy-Holds :
      key_of (get_map message "payload") ≡ some k
      → Holds (handle_set_policy message env r).1.state r.state (λ j old. same_key k j || old)
  unfolding handle_set_policy set_policy
  handle_set_policy-Holds e = record {
    stored = λ j. ground (arith, contains-insert r.state.normal_policies k j);
    active = λ j. ground (arith, contains-insert r.state.policies k j);
    kept = ground arith;
  }

  -- The administrator's remove_policy of a complete key takes that key from the stored policies and,
  -- in normal mode alone, from the active ones; every other key and the mode stay as they were.
  pub handle_remove_policy-Holds :
      key_of (get_map message "payload") ≡ some k
      → Holds
          (handle_remove_policy message env r).1.state
          r.state
          (λ j old. not (same_key k j) && old)
  unfolding handle_remove_policy remove_policy
  handle_remove_policy-Holds e = record {
    stored = λ j. ground (arith, contains-delete r.state.normal_policies k j);
    active = λ j. ground (arith, contains-delete r.state.policies k j);
    kept = ground arith;
  }

abbrev pub IsComplete : PolicyKey → Type 0
IsComplete k =
    (is_empty k.sender ≡ false) × (is_empty k.topic ≡ false) × (is_empty k.action ≡ false)

add_trimmed-IsComplete :
    (out : List PolicyKey) (s t a : String)
    → All IsComplete out
    → All IsComplete (add_trimmed out s t a)
unfolding add_trimmed
add_trimmed-IsComplete out s t a h = ground arith

module _ {F : Type 0} where
  add_item-IsComplete :
      (out : List PolicyKey) (v : Value F) → All IsComplete out → All IsComplete (add_item out v)
  unfolding add_item
  add_item-IsComplete out (obj m) h = add_trimmed-IsComplete out _ _ _ h
  add_item-IsComplete out (arr (cons x (cons y (cons z rest)))) h =
      add_trimmed-IsComplete out _ _ _ h
  add_item-IsComplete out _ h = h

  add_items-IsComplete :
      (out : List PolicyKey) (vs : Items F) → All IsComplete out → All IsComplete (add_items out vs)
  unfolding add_items
  add_items-IsComplete out nil h = h
  add_items-IsComplete out (cons v vs) h =
      add_items-IsComplete (add_item out v) vs (add_item-IsComplete out v h)

add_parts-IsComplete :
    (out : List PolicyKey) (parts : List String)
    → All IsComplete out
    → All IsComplete (add_parts out parts)
unfolding add_parts
add_parts-IsComplete out (s ∷ t ∷ a ∷ []) h = add_trimmed-IsComplete out s t a h
add_parts-IsComplete out _ h = h

add_chunks-IsComplete :
    (out : List PolicyKey) (chunks : List String)
    → All IsComplete out
    → All IsComplete (add_chunks out chunks)
unfolding add_chunks
add_chunks-IsComplete out [] h = h
add_chunks-IsComplete out (c ∷ cs) h =
    add_chunks-IsComplete (add_parts out (split b',' c)) cs
      (add_parts-IsComplete out (split b',' c) h)

-- Every policy read from the configuration, as JSON or as semicolon-separated triples, has a
-- sender, a topic and an action that are not empty.
pub parse_policies-IsComplete :
    {F : Type 0} (unmarshal : String → Option (Items F)) (raw : String)
    → All IsComplete (parse_policies unmarshal raw)
unfolding parse_policies
parse_policies-IsComplete unmarshal raw = elim (Bool-cases (is_empty (trim_space raw))) [
  | inl e ↦ rw e tt
  | inr e ↦ elim (Option-cases (unmarshal (trim_space raw))) [
    | inl u ↦ rw (e, u) (add_chunks-IsComplete [] (split b';' (trim_space raw)) tt)
    | inr (list, u) ↦ rw (e, u) (add_items-IsComplete [] list tt)
  ]
]
