-- ===== src/SecurityMonitor/Consistent.antt =====
-- The invariant of the monitor's policies, kept by every handler and by the watchdog.
use drones.Common.{ℕ, ◌≡◌, refl, List, [], ◌∷◌, arith, String, Option, none, some}
use drones.Message.{Fields, get_map}
use drones.Bus.{Result, ok, err, clock_read}
use drones.Bus.Keeps.{Keeps, Keeps-then, Keeps-bind, Keeps-gets}
use drones.Config.{Config}
use drones.SecurityMonitor.Policy.{PolicyKey, contains}
use drones.SecurityMonitor.State.{Mode, normal, isolated, Monitor, new_monitor, record_sender_seen}
use drones.SecurityMonitor.Isolation.{
  emergency_policies, isolate, restore, handle_isolation_start, handle_isolation_end,
  handle_safety_heartbeat,
}
use drones.SecurityMonitor.PolicyStore.{
  set_policy, remove_policy, clear_policies, handle_set_policy, handle_remove_policy,
  handle_clear_policies,
}
use drones.SecurityMonitor.Proxy.{
  handle_proxy_request, handle_proxy_publish, Target, forward_request, forward_publish, sender_of,
  check_target,
}
use drones.SecurityMonitor.Watchdog.{check_heartbeat_timeout, expire, first_late}
use drones.SecurityMonitor.Membership.{contains-insert, contains-delete, contains-clone}

-- The policies that a mode makes active.
abbrev pub policies_of : Monitor → Mode → List PolicyKey
policies_of sm normal = sm.normal_policies
policies_of sm isolated = emergency_policies sm

-- The active policies are the stored ones in normal mode, and the emergency ones in isolation.
pub record IsConsistent (sm : Monitor) : Type 0 where
  pub active :
      (k : PolicyKey) → contains sm.policies k ≡ contains (policies_of sm sm.safety_state.mode) k

set_policy-IsConsistent :
    (k : PolicyKey) (sm : Monitor) → IsConsistent sm → IsConsistent (set_policy k sm)
unfolding set_policy
set_policy-IsConsistent k sm h = record {
  active = λ j.
      ground (
        arith,
        h.active j,
        contains-insert sm.policies k j,
        contains-insert sm.normal_policies k j,
      );
}

remove_policy-IsConsistent :
    (k : PolicyKey) (sm : Monitor) → IsConsistent sm → IsConsistent (remove_policy k sm)
unfolding remove_policy
remove_policy-IsConsistent k sm h = record {
  active = λ j.
      ground (
        arith,
        h.active j,
        contains-delete sm.policies k j,
        contains-delete sm.normal_policies k j,
      );
}

clear_policies-IsConsistent : (sm : Monitor) → IsConsistent sm → IsConsistent (clear_policies sm)
unfolding clear_policies
clear_policies-IsConsistent sm h = record { active = λ j. ground (arith, h.active j) }

pub isolate-IsConsistent :
    (reason source : String) (t : ℕ) (sm : Monitor) → IsConsistent (isolate reason source t sm)
unfolding isolate
isolate-IsConsistent reason source t sm = record { active = λ k. refl }

restore-IsConsistent :
    (reason source : String) (t : ℕ) (sm : Monitor) → IsConsistent (restore reason source t sm)
unfolding restore
restore-IsConsistent reason source t sm = record { active = contains-clone sm.normal_policies }

pub new_monitor-IsConsistent :
    (cfg : Config) (policies : List PolicyKey) (admin : String) (timeout : ℕ) (failsafe : String)
    (t : ℕ)
    → IsConsistent (new_monitor cfg policies admin timeout failsafe t)
unfolding new_monitor
new_monitor-IsConsistent cfg policies admin timeout failsafe t = record { active = λ k. refl }

module _ {F : Type 0} where
  record_sender_seen-IsConsistent :
      (sender : String) → Keeps {F = F} IsConsistent (record_sender_seen sender)
  unfolding record_sender_seen
  record_sender_seen-IsConsistent sender = record { kept = λ env r g h. ground arith }

  forward_request-IsConsistent : (t : Result (Target F)) → Keeps IsConsistent (forward_request t)
  unfolding forward_request
  forward_request-IsConsistent (err e) = record { kept = λ env r g h. h }
  forward_request-IsConsistent (ok t) = record { kept = λ env r g h. g r.events r.state h }

  forward_publish-IsConsistent : (t : Result (Target F)) → Keeps IsConsistent (forward_publish t)
  unfolding forward_publish
  forward_publish-IsConsistent (err e) = record { kept = λ env r g h. h }
  forward_publish-IsConsistent (ok t) = record { kept = λ env r g h. h }

  expire-IsConsistent : (sender : Option String) → Keeps {F = F} IsConsistent (expire sender)
  unfolding expire
  expire-IsConsistent none = record { kept = λ env r g h. h }
  expire-IsConsistent (some sender) = record {
    kept = λ env r g h. grind (arith, isolate-IsConsistent);
  }

  pub check_heartbeat_timeout-IsConsistent : Keeps {F = F} IsConsistent check_heartbeat_timeout
  unfolding check_heartbeat_timeout
  check_heartbeat_timeout-IsConsistent = record {
    kept = λ env r g h.
        let late = first_late r.state (env.now r.events) ("limiter" ∷ "emergency" ∷ []) in
        ground (
          arith,
          (expire-IsConsistent late).kept env (record r { events = clock_read ∷ r.events }) g h,
        );
  }

module _ {F : Type 0} (message : Fields F) where
  pub handle_set_policy-IsConsistent : Keeps IsConsistent (handle_set_policy message)
  unfolding handle_set_policy
  handle_set_policy-IsConsistent = record {
    kept = λ env r g h. grind (arith, set_policy-IsConsistent);
  }

  pub handle_remove_policy-IsConsistent : Keeps IsConsistent (handle_remove_policy message)
  unfolding handle_remove_policy
  handle_remove_policy-IsConsistent = record {
    kept = λ env r g h. grind (arith, remove_policy-IsConsistent);
  }

  pub handle_clear_policies-IsConsistent : Keeps IsConsistent (handle_clear_policies message)
  unfolding handle_clear_policies
  handle_clear_policies-IsConsistent = record {
    kept = λ env r g h. grind (arith, clear_policies-IsConsistent);
  }

  pub handle_isolation_start-IsConsistent : Keeps IsConsistent (handle_isolation_start message)
  unfolding handle_isolation_start
  handle_isolation_start-IsConsistent = record {
    kept = λ env r g h. grind (arith, isolate-IsConsistent);
  }

  pub handle_isolation_end-IsConsistent : Keeps IsConsistent (handle_isolation_end message)
  unfolding handle_isolation_end
  handle_isolation_end-IsConsistent = record {
    kept = λ env r g h. grind (arith, restore-IsConsistent);
  }

  pub handle_safety_heartbeat-IsConsistent : Keeps IsConsistent (handle_safety_heartbeat message)
  unfolding handle_safety_heartbeat
  handle_safety_heartbeat-IsConsistent = record { kept = λ env r g h. ground arith }

  pub handle_proxy_request-IsConsistent : Keeps IsConsistent (handle_proxy_request message)
  unfolding handle_proxy_request
  handle_proxy_request-IsConsistent =
      Keeps-then _ _ (record_sender_seen-IsConsistent (sender_of message)) (
        Keeps-bind _ _ (Keeps-gets (λ sm. sm)) λ sm.
          forward_request-IsConsistent
            (check_target sm (sender_of message) (get_map message "payload")))

  pub handle_proxy_publish-IsConsistent : Keeps IsConsistent (handle_proxy_publish message)
  unfolding handle_proxy_publish
  handle_proxy_publish-IsConsistent =
      Keeps-then _ _ (record_sender_seen-IsConsistent (sender_of message)) (
        Keeps-bind _ _ (Keeps-gets (λ sm. sm)) λ sm.
          forward_publish-IsConsistent
            (check_target sm (sender_of message) (get_map message "payload")))
