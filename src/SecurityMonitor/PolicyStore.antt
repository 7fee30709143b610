-- ===== src/SecurityMonitor/PolicyStore.antt =====
-- policy_store.go: the test of a policy, and the handlers that change the policies.
use drones.Common.{
  String, Bool, true, false, not, ◌||◌, Option, none, some, List, [], ◌∷◌, is_empty, trim_space,
  if◌then◌else◌, length,
}
use drones.Message.{
  Fields, Value, Items, nil, cons, pos, fields, str, bool, int, arr, obj, get_string, get_map,
}
use drones.Bus.{M, pure, gets, modify, ◌>>=◌, ◌>>◌}
use drones.SecurityMonitor.Policy.{PolicyKey, contains, insert, delete, get_str}
use drones.SecurityMonitor.State.{mode_text, is_isolated, Monitor, can_manage_policies}

-- allowed
unfoldable pub allowed : Monitor → String → String → String → Bool
unfolding contains
allowed sm sender target_topic target_action =
    contains sm.policies (record { sender = sender; topic = target_topic; action = target_action })

-- the writes of handleSetPolicy
unfoldable pub set_policy : PolicyKey → Monitor → Monitor
unfolding insert
set_policy k sm = record sm {
  normal_policies = insert sm.normal_policies k;
  policies = if is_isolated sm.safety_state.mode then sm.policies else insert sm.policies k;
}

-- the writes of handleRemovePolicy
unfoldable pub remove_policy : PolicyKey → Monitor → Monitor
unfolding delete
remove_policy k sm = record sm {
  normal_policies = delete sm.normal_policies k;
  policies = if is_isolated sm.safety_state.mode then sm.policies else delete sm.policies k;
}

-- the writes of handleClearPolicies
unfoldable pub clear_policies : Monitor → Monitor
clear_policies sm = record sm {
  normal_policies = [];
  policies = if is_isolated sm.safety_state.mode then sm.policies else [];
}

module _ {F : Type 0} where
  abbrev pub policy_error : String → String → Fields F
  policy_error key message = fields ((key, bool false) ∷ ("error", str message) ∷ [])

  abbrev pub policy_fields : PolicyKey → Value F
  policy_fields k =
      obj
        (fields (("sender", str k.sender) ∷ ("topic", str k.topic) ∷ ("action", str k.action) ∷ []))

  -- the key of a payload, if none of its trimmed texts is empty
  unfoldable pub key_of : Option (Fields F) → Option PolicyKey
  key_of none = none
  key_of (some payload) =
      let s = trim_space (get_str payload "sender") in
      let t = trim_space (get_str payload "topic") in
      let a = trim_space (get_str payload "action") in
      if is_empty s || is_empty t || is_empty a
      then none
      else some (record { sender = s; topic = t; action = a })

  unfoldable pub handle_set_policy : Fields F → M F Monitor (Option (Fields F))
  handle_set_policy message = do
    sm ← gets (λ sm. sm)
    if not (can_manage_policies sm (get_string message "sender"))
        then pure (some (policy_error "updated" "forbidden"))
        else elim (key_of (get_map message "payload")) [
          | none ↦ pure (some (policy_error "updated" "invalid_policy"))
          | some k ↦ do
            modify (set_policy k)
            pure (some (fields (("updated", bool true) ∷ ("policy", policy_fields k) ∷ [])))
        ]

  unfoldable pub handle_remove_policy : Fields F → M F Monitor (Option (Fields F))
  handle_remove_policy message = do
    sm ← gets (λ sm. sm)
    if not (can_manage_policies sm (get_string message "sender"))
        then pure (some (policy_error "removed" "forbidden"))
        else elim (key_of (get_map message "payload")) [
          | none ↦ pure (some (policy_error "removed" "invalid_policy"))
          | some k ↦ do
            existed ← gets (λ sm. contains sm.normal_policies k)
            modify (remove_policy k)
            pure (some (fields (("removed", bool existed) ∷ ("policy", policy_fields k) ∷ [])))
        ]

  unfoldable pub handle_clear_policies : Fields F → M F Monitor (Option (Fields F))
  handle_clear_policies message = do
    sm ← gets (λ sm. sm)
    if not (can_manage_policies sm (get_string message "sender"))
        then pure (some (policy_error "cleared" "forbidden"))
        else do
          n ← gets (λ sm. length sm.normal_policies)
          modify clear_policies
          pure (some (fields (("cleared", bool true) ∷ ("removed_count", int (pos n)) ∷ [])))

  unfoldable pub policy_items : List PolicyKey → Items F
  policy_items [] = nil
  policy_items (k ∷ ks) = cons (policy_fields k) (policy_items ks)

  unfoldable pub handle_list_policies : Fields F → M F Monitor (Option (Fields F))
  handle_list_policies message = do
    sm ← gets (λ sm. sm)
    let source = if is_isolated sm.safety_state.mode then sm.policies else sm.normal_policies
    pure (
        some (
          fields (
            ("policy_admin_sender", str sm.policy_admin)
            ∷ ("mode", str (mode_text sm.safety_state.mode))
            ∷ ("count", int (pos (length source)))
            ∷ ("policies", arr (policy_items source))
            ∷ [])))
