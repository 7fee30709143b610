-- ===== src/SecurityMonitor/Isolation.antt =====
-- isolation.go: the two modes, and the handlers that switch between them.
use drones.Common.{
  ℕ, ltb, ◌+◌, ◌-◌, ◌%◌, ◌^◌, String, Bool, true, false, not, ◌&&◌, ◌||◌, Option, none, some, List,
  [], ◌∷◌, ◌==◌, is_empty, if◌then◌else◌, length,
}
use drones.Message.{
  Fields, ℤ, pos, negsuc, fields, str, bool, int, int64, obj, entry, only, get_string, get_map,
}
use drones.Bus.{M, pure, gets, modify, now, publish, ◌>>=◌, ◌>>◌}
use drones.Config.{broker_topic_for}
use drones.SecurityMonitor.Policy.{PolicyKey, clone_policy_map}
use drones.SecurityMonitor.State.{
  normal, isolated, mode_text, is_isolated, SafetyState, Monitor, component_id, transition_id_at,
  can_manage_policies, record_sender_seen,
}

abbrev emergency_key : Monitor → String → String → PolicyKey
emergency_key sm component action = record {
  sender = "emergency";
  topic = broker_topic_for sm.cfg component;
  action = action;
}

-- emergencyPolicies
abbrev pub emergency_policies : Monitor → List PolicyKey
emergency_policies sm =
    emergency_key sm "navigation" "get_state"
    ∷ emergency_key sm "motors" "LAND"
    ∷ emergency_key sm "cargo" "CLOSE"
    ∷ emergency_key sm "journal" "LOG_EVENT"
    ∷ emergency_key sm "security_monitor" "isolation_status"
    ∷ emergency_key sm "security_monitor" "ISOLATION_END"
    ∷ []

-- the int64 counter of the transitions
abbrev pub next_version : ℕ → ℕ
next_version v = (v + 1) % 2 ^ 64

-- the number that the bit pattern stands for
abbrev pub signed : ℕ → ℤ
signed v = if ltb v (2 ^ 63) then pos v else negsuc (2 ^ 64 - 1 - v)

unfoldable pub isolate : String → String → ℕ → Monitor → Monitor
isolate reason source t sm = record sm {
  policies = emergency_policies sm;
  safety_state = record {
    mode = isolated;
    reason = reason;
    source = source;
    transition_id = transition_id_at t;
    version = next_version sm.safety_state.version;
    activated_at = t;
    last_transition_at = t;
  };
}

unfoldable pub restore : String → String → ℕ → Monitor → Monitor
unfolding clone_policy_map
restore reason source t sm = record sm {
  policies = clone_policy_map sm.normal_policies;
  safety_state = record {
    mode = normal;
    reason = reason;
    source = source;
    transition_id = transition_id_at t;
    version = next_version sm.safety_state.version;
    activated_at = sm.safety_state.activated_at;
    last_transition_at = t;
  };
}

-- who may switch the mode
abbrev pub may_switch : Monitor → String → Bool
may_switch sm sender =
    not (is_empty sender) && (sender == "emergency" || can_manage_policies sm sender)

module _ {F : Type 0} where
  -- enterIsolatedLocked
  unfoldable pub enter_isolated_locked : String → String → M F Monitor Bool
  enter_isolated_locked reason source = do
    mode ← gets (λ sm. sm.safety_state.mode)
    if is_isolated mode then pure false else do t ← now; modify (isolate reason source t); pure true

  -- enterNormalLocked
  unfoldable pub enter_normal_locked : String → String → M F Monitor Bool
  enter_normal_locked reason source = do
    mode ← gets (λ sm. sm.safety_state.mode)
    if not (is_isolated mode)
        then pure false
        else do t ← now; modify (restore reason source t); pure true

  -- the message of logModeTransitionLocked
  abbrev pub transition_message : Monitor → String → Fields F
  transition_message sm transition_at =
      let state = sm.safety_state in
      fields (
        ("action", str "LOG_EVENT")
        ∷ ("sender", str component_id)
        ∷ (
          "payload",
          obj (
              fields (
                ("event", str "SECURITY_MONITOR_MODE_TRANSITION")
                ∷ ("source", str "security_monitor")
                ∷ (
                  "details",
                  obj (
                      fields (
                        ("mode", str (mode_text state.mode))
                        ∷ ("reason", str state.reason)
                        ∷ ("transition_id", str state.transition_id)
                        ∷ ("transition_at", str transition_at)
                        ∷ ("state_version", int64 (signed state.version))
                        ∷ ("trigger_source", str state.source)
                        ∷ [])),
                )
                ∷ [])),
        )
        ∷ [])

  -- logModeTransitionLocked; an error of the broker is only printed
  unfoldable pub log_mode_transition_locked : M F Monitor (Unit {0})
  log_mode_transition_locked env r = (
    tt,
    (publish r.state.journal_topic
        (transition_message r.state (env.timestamp r.state.safety_state.last_transition_at)) env
        r).1,
  )

  -- the reason of the payload, or the default
  abbrev pub reason_or : Fields F → String → String
  reason_or message default = elim (get_map message "payload") [
    | none ↦ default
    | some payload ↦
        if is_empty (get_string payload "reason") then default else get_string payload "reason"
  ]

  abbrev pub forbidden : String → Fields F
  forbidden key = entry key (bool false) (only "error" (str "forbidden"))

  abbrev log_if : Bool → M F Monitor (Unit {0})
  log_if changed = if changed then log_mode_transition_locked else pure tt

  abbrev pub switch_reply : String → String → Bool → SafetyState → Fields F → Fields F
  switch_reply key already changed state rest = entry key (bool true) (
      entry already (bool (not changed)) (
        entry "mode" (str (mode_text state.mode)) (
          entry "reason" (str state.reason) (
            entry "transition_id" (str state.transition_id)
              (entry "state_version" (int64 (signed state.version)) rest)))))

  unfoldable pub handle_isolation_start : Fields F → M F Monitor (Option (Fields F))
  unfolding enter_isolated_locked log_mode_transition_locked
  handle_isolation_start message = do
    sm ← gets (λ sm. sm)
    if not (may_switch sm (get_string message "sender"))
        then pure (some (forbidden "activated"))
        else do
          changed ←
              enter_isolated_locked (reason_or message "manual_isolation")
                (get_string message "sender")
          state ← gets (λ sm. sm.safety_state)
          log_if changed
          pure (some (switch_reply "activated" "already_active" changed state Fields.empty))

  unfoldable pub handle_isolation_end : Fields F → M F Monitor (Option (Fields F))
  unfolding enter_normal_locked log_mode_transition_locked
  handle_isolation_end message = do
    sm ← gets (λ sm. sm)
    if not (may_switch sm (get_string message "sender"))
        then pure (some (forbidden "deactivated"))
        else do
          changed ←
              enter_normal_locked (reason_or message "manual_recovery")
                (get_string message "sender")
          state ← gets (λ sm. sm.safety_state)
          restored ← gets (λ sm. length sm.normal_policies)
          log_if changed
          pure (
              some (
                switch_reply "deactivated" "already_normal" changed state
                  (only "restored_policies" (int (pos restored)))))

  unfoldable pub handle_safety_heartbeat : Fields F → M F Monitor (Option (Fields F))
  unfolding record_sender_seen
  handle_safety_heartbeat message =
      if get_string message "sender" == "limiter" || get_string message "sender" == "emergency"
      then (do
        record_sender_seen (get_string message "sender")
        pure (some (entry "ok" (bool true) (only "sender" (str (get_string message "sender"))))))
      else pure (some (forbidden "ok"))

  unfoldable pub handle_isolation_status : Fields F → M F Monitor (Option (Fields F))
  handle_isolation_status message env r =
      let state = r.state.safety_state in
      (
        some (
            fields (
              ("mode", str (mode_text state.mode))
              ∷ ("reason", str state.reason)
              ∷ ("source", str state.source)
              ∷ ("transition_id", str state.transition_id)
              ∷ ("state_version", int64 (signed state.version))
              ∷ ("activated_at", str (env.timestamp state.activated_at))
              ∷ ("last_transition_at", str (env.timestamp state.last_transition_at))
              ∷ [])),
        r,
      )
