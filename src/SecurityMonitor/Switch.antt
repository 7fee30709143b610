-- ===== src/SecurityMonitor/Switch.antt =====
-- The two modes: who switches, what a switch changes, and that leaving isolation undoes it.
use drones.Common.{Bool-cases, true, false, ◌≡◌, refl, ◌⊎◌, inl, inr, some, List, ◌∷◌, arith}
use drones.Message.{Fields, get_string}
use drones.Bus.{published, clock_read, Env, Run}
use drones.SecurityMonitor.Policy.{PolicyKey, contains, clone_policy_map}
use drones.SecurityMonitor.State.{Mode, normal, isolated, Monitor}
use drones.SecurityMonitor.Isolation.{
  emergency_policies, isolate, restore, may_switch, next_version, forbidden, transition_message,
  handle_isolation_start, handle_isolation_end,
}
use drones.SecurityMonitor.Membership.{contains-clone}
use drones.SecurityMonitor.Consistent.{IsConsistent}

Mode-cases : (m : Mode) → (m ≡ isolated) ⊎ (m ≡ normal)
Mode-cases isolated = inl refl
Mode-cases normal = inr refl

-- One switch of the mode, from the run before to the run after.
pub record Switched {F : Type 0} (message : Fields F) (before after : Run F Monitor)
    (env : Env F Monitor) (target : Mode) (policies : List PolicyKey) : Type 0 where
  pub mode : after.state.safety_state.mode ≡ target
  pub active : after.state.policies ≡ policies
  pub stored : after.state.normal_policies ≡ before.state.normal_policies
  pub counted : after.state.safety_state.version ≡ next_version before.state.safety_state.version
  pub source : after.state.safety_state.source ≡ get_string message "sender"
  pub told :
      after.events
      ≡ published before.state.journal_topic (
          transition_message after.state
            (env.timestamp after.state.safety_state.last_transition_at))
        ∷ clock_read
        ∷ before.events

module _ {F : Type 0} (message : Fields F) (env : Env F Monitor) (r : Run F Monitor) where
  -- A start from a sender that may not switch is answered as forbidden and changes nothing. From
  -- one that may, a start in isolation changes and sends nothing, and a start in normal mode leads to
  -- isolation, with the emergency policies active: it keeps the stored policies, counts the
  -- transition, names the sender as its source and publishes one message, to the journal.
  pub handle_isolation_start_cases :
      let allowed = may_switch r.state (get_string message "sender") in
      ((allowed ≡ false)
        × (handle_isolation_start message env r ≡ (some (forbidden "activated"), r)))
      ⊎ ((allowed ≡ true)
          × (r.state.safety_state.mode ≡ isolated)
          × ((handle_isolation_start message env r).1 ≡ r))
      ⊎ ((allowed ≡ true)
          × (r.state.safety_state.mode ≡ normal)
          × Switched message r
              (handle_isolation_start message env r).1
              env
              isolated
              (emergency_policies r.state))
  unfolding handle_isolation_start isolate
  handle_isolation_start_cases =
      elim (Bool-cases (may_switch r.state (get_string message "sender"))) [
        | inr not_may ↦ inl (not_may, ground arith)
        | inl may ↦ elim (Mode-cases r.state.safety_state.mode) [
          | inl old ↦ inr (inl (may, old, ground arith))
          | inr old ↦ inr (
              inr (
                may,
                old,
                record {
                  mode = ground arith;
                  active = ground arith;
                  stored = ground arith;
                  counted = ground arith;
                  source = ground arith;
                  told = ground arith;
                },
              ))
        ]
      ]

  -- An end from a sender that may not switch is answered as forbidden and changes nothing. From one
  -- that may, an end in normal mode changes and sends nothing, and an end in isolation leads to normal
  -- mode, with a copy of the stored policies active: it keeps the stored policies, counts the
  -- transition, names the sender as its source and publishes one message, to the journal.
  pub handle_isolation_end_cases :
      let allowed = may_switch r.state (get_string message "sender") in
      ((allowed ≡ false)
        × (handle_isolation_end message env r ≡ (some (forbidden "deactivated"), r)))
      ⊎ ((allowed ≡ true)
          × (r.state.safety_state.mode ≡ normal)
          × ((handle_isolation_end message env r).1 ≡ r))
      ⊎ ((allowed ≡ true)
          × (r.state.safety_state.mode ≡ isolated)
          × Switched message r
              (handle_isolation_end message env r).1
              env
              normal
              (clone_policy_map r.state.normal_policies))
  unfolding handle_isolation_end restore
  handle_isolation_end_cases =
      elim (Bool-cases (may_switch r.state (get_string message "sender"))) [
        | inr not_may ↦ inl (not_may, ground arith)
        | inl may ↦ elim (Mode-cases r.state.safety_state.mode) [
          | inr old ↦ inr (inl (may, old, ground arith))
          | inl old ↦ inr (
              inr (
                may,
                old,
                record {
                  mode = ground arith;
                  active = ground arith;
                  stored = ground arith;
                  counted = ground arith;
                  source = ground arith;
                  told = ground arith;
                },
              ))
        ]
      ]

-- From normal mode, an accepted start and then an accepted end lead back to normal mode, with the
-- policies that were active before, two transitions later.
pub isolation_round_trip :
    {F : Type 0} (start end : Fields F) (env : Env F Monitor) (r : Run F Monitor)
    → IsConsistent r.state
    → r.state.safety_state.mode ≡ normal
    → may_switch r.state (get_string start "sender") ≡ true
    → may_switch r.state (get_string end "sender") ≡ true
    → let after = (handle_isolation_end end env (handle_isolation_start start env r).1).1.state in
      (after.safety_state.mode ≡ normal)
      × ((k : PolicyKey) → contains after.policies k ≡ contains r.state.policies k)
      × (after.safety_state.version ≡ next_version (next_version r.state.safety_state.version))
unfolding handle_isolation_start handle_isolation_end isolate restore
isolation_round_trip start end env r c n a b = (
  ground arith,
  (λ k. ground (arith, c.active k, contains-clone r.state.normal_policies k)),
  ground arith,
)
