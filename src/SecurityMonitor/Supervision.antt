-- ===== src/SecurityMonitor/Supervision.antt =====
-- When the watchdog isolates the drone.
use drones.Common.{
  ℕ, ◌-◌, ◌<◌, String, true, ◌≡◌, ◌≢◌, refl, ◌⊎◌, inl, inr, Bool-cases, ◌↔◌, Option, none, some, [],
  ◌∷◌, arith, eq_iff,
}
use drones.Bus.{Env, Run, clock_read}
use drones.SecurityMonitor.State.{normal, isolated, Monitor, last_seen}
use drones.SecurityMonitor.Isolation.{isolate}
use drones.SecurityMonitor.Watchdog.{is_late, first_late, expire, check_heartbeat_timeout}

-- A sender that was never seen, or was seen longer ago than the timeout.
abbrev pub IsLate : Monitor → ℕ → String → Type 0
IsLate sm t sender =
    (last_seen sm.last_seen_by_sender sender ≡ none)
    ⊎ ((last : ℕ) × (last_seen sm.last_seen_by_sender sender ≡ some last)
        × (sm.heartbeat_timeout < t - last))

is_late_iff :
    (o : Option ℕ) (t timeout : ℕ)
    → (is_late o t timeout ≡ true)
      ↔ ((o ≡ none) ⊎ ((last : ℕ) × (o ≡ some last) × (timeout < t - last)))
unfolding is_late
is_late_iff none t timeout = ((λ e. inl refl), λ e. refl)
is_late_iff (some last) t timeout = ((λ e. inr (last, refl, ground arith)), λ e. ground arith)

first_late_iff :
    (sm : Monitor) (t : ℕ)
    → ((s : String) × (first_late sm t ("limiter" ∷ "emergency" ∷ []) ≡ some s))
      ↔ (IsLate sm t "limiter" ⊎ IsLate sm t "emergency")
unfolding first_late
first_late_iff sm t =
    let a = is_late_iff (last_seen sm.last_seen_by_sender "limiter") t sm.heartbeat_timeout in
    let b = is_late_iff (last_seen sm.last_seen_by_sender "emergency") t sm.heartbeat_timeout in
    (
      (λ e.
          elim (Bool-cases
            (is_late (last_seen sm.last_seen_by_sender "limiter") t sm.heartbeat_timeout)) [
              | inl l ↦ inl (a.0 l)
              | inr l ↦ inr (b.0 (ground arith))
            ]),
      elim [
        | inl l ↦ ("limiter", rw (a.1 l))
        | inr l ↦
            elim (Bool-cases
              (is_late (last_seen sm.last_seen_by_sender "limiter") t sm.heartbeat_timeout)) [
                | inl k ↦ ("limiter", rw k)
                | inr k ↦ ("emergency", rw (k, b.1 l))
              ]
      ],
    )

expire-isolated_iff :
    {F : Type 0} (env : Env F Monitor) (r : Run F Monitor) (late : Option String)
    → r.state.safety_state.mode ≡ normal
    → ((expire late env r).1.state.safety_state.mode ≡ isolated) ↔ ((s : String) × (late ≡ some s))
unfolding expire isolate
expire-isolated_iff env r none n = ((λ e. ground arith), λ e. ground arith)
expire-isolated_iff env r (some s) n = ((λ e. (s, refl)), λ e. ground arith)

-- A tick in normal mode isolates the drone exactly when the watchdog is on, its action is
-- "isolate", and the limiter or the emergency component is late at the time of the tick.
pub check_heartbeat_timeout-isolated_iff :
    {F : Type 0} (env : Env F Monitor) (r : Run F Monitor)
    → r.state.safety_state.mode ≡ normal
    → ((check_heartbeat_timeout env r).1.state.safety_state.mode ≡ isolated) ↔ (
        (r.state.heartbeat_timeout ≢ 0)
        × (r.state.failsafe_action ≡ "isolate")
        × (IsLate r.state (env.now r.events) "limiter"
            ⊎ IsLate r.state (env.now r.events) "emergency"))
unfolding check_heartbeat_timeout
check_heartbeat_timeout-isolated_iff env r n =
    let late = first_late r.state (env.now r.events) ("limiter" ∷ "emergency" ∷ []) in
    let a = first_late_iff r.state (env.now r.events) in
    let b = expire-isolated_iff env (record r { events = clock_read ∷ r.events }) late n in
    let f = eq_iff r.state.failsafe_action "isolate" in
    (
      (λ e. (ground arith, ground (arith, f), a.0 (b.0 (ground (arith, f))))),
      λ (on, action, l). let w = b.1 (a.1 l) in ground (arith, f, on, action, w),
    )
