-- ===== src/SecurityMonitor/Watchdog.antt =====
-- security_monitor.go: the watchdog over the senders' heartbeats.
use drones.Common.{
  ℕ, ◌-◌, String, append, Bool, true, not, ◌||◌, Option, none, some, List, [], ◌∷◌, ◌==◌, eqb, ltb,
  if◌then◌else◌,
}
use drones.Bus.{M, pure, gets, now, ◌>>=◌}
use drones.SecurityMonitor.State.{Monitor, is_isolated, component_id, last_seen}
use drones.SecurityMonitor.Isolation.{enter_isolated_locked, log_mode_transition_locked}

-- !ok || now.Sub(last) > timeout; the difference of times is not negative for a time in the past,
-- and one in the future is never too old
unfoldable pub is_late : Option ℕ → ℕ → ℕ → Bool
is_late none t timeout = true
is_late (some last) t timeout = ltb timeout (t - last)

-- the first sender of the list that is late
unfoldable pub first_late : Monitor → ℕ → List String → Option String
first_late sm t [] = none
first_late sm t (s ∷ ss) =
    let rest = first_late sm t ss in
    if is_late (last_seen sm.last_seen_by_sender s) t sm.heartbeat_timeout then some s else rest

module _ {F : Type 0} where
  unfoldable pub expire : Option String → M F Monitor (Unit {0})
  unfolding enter_isolated_locked log_mode_transition_locked
  expire none = pure tt
  expire (some sender) = do
    changed ← enter_isolated_locked (append "heartbeat_timeout:" sender) component_id
    if changed then log_mode_transition_locked else pure tt

  -- checkHeartbeatTimeout
  unfoldable pub check_heartbeat_timeout : M F Monitor (Unit {0})
  check_heartbeat_timeout = do
    sm ← gets (λ sm. sm)
    if eqb sm.heartbeat_timeout 0
        then pure tt
        else (if is_isolated sm.safety_state.mode || not (sm.failsafe_action == "isolate")
            then pure tt
            else do t ← now; expire (first_late sm t ("limiter" ∷ "emergency" ∷ [])))
