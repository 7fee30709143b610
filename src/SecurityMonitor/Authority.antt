-- ===== src/SecurityMonitor/Authority.antt =====
-- Who changes the stored policies: the administrator alone.
use drones.Common.{
  String, Bool, true, not, ◌||◌, ◌≡◌, refl, Option, none, some, List, [], ◌∷◌, arith, ◌==◌,
  is_empty, All,
}
use drones.Message.{Fields, get_string, get_map}
use drones.Bus.{Env, Run, Result, ok, err, clock_read}
use drones.Bus.Keeps.{Rely, Keeps, Keeps-then, Keeps-bind, Keeps-gets}
use drones.Component.Invariant.{handle_message-Keeps}
use drones.SecurityMonitor.Policy.{PolicyKey}
use drones.SecurityMonitor.State.{Monitor, record_sender_seen}
use drones.SecurityMonitor.Isolation.{
  isolate, restore, handle_isolation_start, handle_isolation_end, handle_safety_heartbeat,
  handle_isolation_status,
}
use drones.SecurityMonitor.PolicyStore.{
  handle_set_policy, handle_remove_policy, handle_clear_policies, handle_list_policies,
}
use drones.SecurityMonitor.Proxy.{
  Target, forward_request, forward_publish, handle_proxy_request, handle_proxy_publish, sender_of,
  check_target,
}
use drones.SecurityMonitor.Watchdog.{check_heartbeat_timeout, expire, first_late}
use drones.SecurityMonitor.Service.{Input, message, tick, monitor_base, react, serve}

-- The stored policies and the administrator of a monitor.
pub record Stores (stored : List PolicyKey) (admin : String) (sm : Monitor) : Type 0 where
  pub policies : sm.normal_policies ≡ stored
  pub admin_of : sm.policy_admin ≡ admin

-- A tick, or a message from a sender that is not the administrator; with no administrator, any.
abbrev pub is_outsider : {F : Type 0} → String → Input F → Bool
is_outsider admin tick = true
is_outsider admin (message m) = is_empty admin || not (get_string m "sender" == admin)

module _ {F : Type 0} {stored : List PolicyKey} {admin : String} where
  expire-Stores : (sender : Option String) → Keeps {F = F} (Stores stored admin) (expire sender)
  unfolding expire isolate
  expire-Stores none = record { kept = λ env r g h. h }
  expire-Stores (some sender) = record {
    kept = λ env r g h. ground (arith, h.policies, h.admin_of);
  }

  check_heartbeat_timeout-Stores : Keeps {F = F} (Stores stored admin) check_heartbeat_timeout
  unfolding check_heartbeat_timeout
  check_heartbeat_timeout-Stores = record {
    kept = λ env r g h.
        let late = first_late r.state (env.now r.events) ("limiter" ∷ "emergency" ∷ []) in
        ground
          (arith, (expire-Stores late).kept env (record r { events = clock_read ∷ r.events }) g h);
  }

  seen-Stores : (sender : String) → Keeps {F = F} (Stores stored admin) (record_sender_seen sender)
  unfolding record_sender_seen
  seen-Stores sender = record { kept = λ env r g h. ground (arith, h.policies, h.admin_of) }

  forward_request-Stores : (t : Result (Target F)) → Keeps (Stores stored admin) (forward_request t)
  unfolding forward_request
  forward_request-Stores (err e) = record { kept = λ env r g h. h }
  forward_request-Stores (ok t) = record { kept = λ env r g h. g r.events r.state h }

  forward_publish-Stores : (t : Result (Target F)) → Keeps (Stores stored admin) (forward_publish t)
  unfolding forward_publish
  forward_publish-Stores (err e) = record { kept = λ env r g h. h }
  forward_publish-Stores (ok t) = record { kept = λ env r g h. h }

module _ {F : Type 0} {stored : List PolicyKey} {admin : String} (m : Fields F) where
  proxy_request-Stores : Keeps (Stores stored admin) (handle_proxy_request m)
  unfolding handle_proxy_request
  proxy_request-Stores = Keeps-then _ _ (seen-Stores (sender_of m)) (
      Keeps-bind _ _ (Keeps-gets (λ sm. sm))
        λ sm. forward_request-Stores (check_target sm (sender_of m) (get_map m "payload")))

  proxy_publish-Stores : Keeps (Stores stored admin) (handle_proxy_publish m)
  unfolding handle_proxy_publish
  proxy_publish-Stores = Keeps-then _ _ (seen-Stores (sender_of m)) (
      Keeps-bind _ _ (Keeps-gets (λ sm. sm))
        λ sm. forward_publish-Stores (check_target sm (sender_of m) (get_map m "payload")))

  start-Stores : Keeps (Stores stored admin) (handle_isolation_start m)
  unfolding handle_isolation_start isolate
  start-Stores = record { kept = λ env r g h. ground (arith, h.policies, h.admin_of) }

  end-Stores : Keeps (Stores stored admin) (handle_isolation_end m)
  unfolding handle_isolation_end restore
  end-Stores = record { kept = λ env r g h. ground (arith, h.policies, h.admin_of) }

  heartbeat-Stores : Keeps (Stores stored admin) (handle_safety_heartbeat m)
  unfolding handle_safety_heartbeat
  heartbeat-Stores = record { kept = λ env r g h. ground (arith, h.policies, h.admin_of) }

module _ {F : Type 0} {stored : List PolicyKey} {admin : String} (m : Fields F)
    (outside : is_outsider admin (message m) ≡ true) where
  set_policy-Stores : Keeps (Stores stored admin) (handle_set_policy m)
  unfolding handle_set_policy
  set_policy-Stores = record { kept = λ env r g h. ground (arith, h.policies, h.admin_of) }

  remove_policy-Stores : Keeps (Stores stored admin) (handle_remove_policy m)
  unfolding handle_remove_policy
  remove_policy-Stores = record { kept = λ env r g h. ground (arith, h.policies, h.admin_of) }

  clear_policies-Stores : Keeps (Stores stored admin) (handle_clear_policies m)
  unfolding handle_clear_policies
  clear_policies-Stores = record { kept = λ env r g h. ground (arith, h.policies, h.admin_of) }

module _ {F : Type 0} {stored : List PolicyKey} {admin : String} (topic : String) where
  react-Stores :
      (i : Input F) → is_outsider admin i ≡ true → Keeps (Stores stored admin) (react topic i)
  unfolding react monitor_base handle_isolation_status handle_list_policies
  react-Stores tick o = check_heartbeat_timeout-Stores
  react-Stores (message m) o = handle_message-Keeps (Stores stored admin) m (monitor_base topic) (
    record { kept = (heartbeat-Stores m).kept },
    (
      record { kept = λ env r g h. h },
      (
        record { kept = (end-Stores m).kept },
        (
          record { kept = (start-Stores m).kept },
          (
            record { kept = λ env r g h. h },
            (
              record { kept = (clear_policies-Stores m o).kept },
              (
                record { kept = (remove_policy-Stores m o).kept },
                (
                  record { kept = (set_policy-Stores m o).kept },
                  (
                    record { kept = (proxy_publish-Stores m).kept },
                    (record { kept = (proxy_request-Stores m).kept }, (tt, (tt, tt))),
                  ),
                ),
              ),
            ),
          ),
        ),
      ),
    ),
  )

  serve_keeps :
      (inputs : List (Input F)) (env : Env F Monitor) (r : Run F Monitor)
      → All (λ i. is_outsider admin i ≡ true) inputs
      → Rely (Stores stored admin) env
      → Stores stored admin r.state
      → Stores stored admin (serve topic inputs env r).1.state
  unfolding serve
  serve_keeps [] env r o g h = h
  serve_keeps (i ∷ is) env r (o, os) g h =
      serve_keeps is env (react topic i env r).1 os g ((react-Stores i o).kept env r g h)

-- After any ticks and any messages of senders that are not the administrator, whatever they ask for and
-- whatever the broker and the clock answer, the stored policies and the administrator are what
-- they were, if the other goroutines keep them too.
pub outsiders_change_nothing :
    {F : Type 0} (topic : String) (inputs : List (Input F)) (env : Env F Monitor)
    (r : Run F Monitor)
    → All (λ i. is_outsider r.state.policy_admin i ≡ true) inputs
    → Rely (Stores r.state.normal_policies r.state.policy_admin) env
    → Stores r.state.normal_policies r.state.policy_admin (serve topic inputs env r).1.state
outsiders_change_nothing topic inputs env r o g =
    serve_keeps topic inputs env r o g (record { policies = refl; admin_of = refl })
