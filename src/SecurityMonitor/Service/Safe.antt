-- ===== src/SecurityMonitor/Service/Safe.antt =====
-- What holds of the monitor after any inputs.
use drones.Common.{ℕ, String, List, [], ◌∷◌}
use drones.Bus.{Env, Run}
use drones.Bus.Keeps.{Rely, Keeps}
use drones.Config.{Config}
use drones.Component.Invariant.{handle_message-Keeps}
use drones.SecurityMonitor.Policy.{PolicyKey}
use drones.SecurityMonitor.State.{Monitor, new_monitor}
use drones.SecurityMonitor.Isolation.{handle_isolation_status}
use drones.SecurityMonitor.PolicyStore.{handle_list_policies}
use drones.SecurityMonitor.Consistent.{
  IsConsistent, new_monitor-IsConsistent, check_heartbeat_timeout-IsConsistent,
  handle_set_policy-IsConsistent, handle_remove_policy-IsConsistent,
  handle_clear_policies-IsConsistent, handle_isolation_start-IsConsistent,
  handle_isolation_end-IsConsistent, handle_safety_heartbeat-IsConsistent,
  handle_proxy_request-IsConsistent, handle_proxy_publish-IsConsistent,
}
use drones.SecurityMonitor.Service.{monitor_base, react, serve, Input, message, tick}

module _ {F : Type 0} (topic : String) where
  react-IsConsistent : (i : Input F) → Keeps IsConsistent (react topic i)
  unfolding react monitor_base handle_isolation_status handle_list_policies
  react-IsConsistent tick = check_heartbeat_timeout-IsConsistent
  react-IsConsistent (message m) = handle_message-Keeps IsConsistent m (monitor_base topic) (
    record { kept = (handle_safety_heartbeat-IsConsistent m).kept },
    (
      record { kept = λ env r g h. h },
      (
        record { kept = (handle_isolation_end-IsConsistent m).kept },
        (
          record { kept = (handle_isolation_start-IsConsistent m).kept },
          (
            record { kept = λ env r g h. h },
            (
              record { kept = (handle_clear_policies-IsConsistent m).kept },
              (
                record { kept = (handle_remove_policy-IsConsistent m).kept },
                (
                  record { kept = (handle_set_policy-IsConsistent m).kept },
                  (
                    record { kept = (handle_proxy_publish-IsConsistent m).kept },
                    (record { kept = (handle_proxy_request-IsConsistent m).kept }, (tt, (tt, tt))),
                  ),
                ),
              ),
            ),
          ),
        ),
      ),
    ),
  )

  serve_keeps :
      (inputs : List (Input F)) (env : Env F Monitor) (r : Run F Monitor)
      → Rely IsConsistent env
      → IsConsistent r.state
      → IsConsistent (serve topic inputs env r).1.state
  unfolding serve
  serve_keeps [] env r g h = h
  serve_keeps (i ∷ is) env r g h =
      serve_keeps is env (react topic i env r).1 g ((react-IsConsistent i).kept env r g h)

-- After any messages and ticks of the watchdog, from any start and whatever the broker and the
-- clock answer, if what the other goroutines do keeps the invariant too: in normal mode exactly the
-- stored policies are active, and in isolation the active policies are the emergency ones.
pub serve-IsConsistent :
    {F : Type 0} (topic : String) (inputs : List (Input F)) (env : Env F Monitor) (cfg : Config)
    (policies : List PolicyKey) (admin : String) (timeout : ℕ) (failsafe : String) (t : ℕ)
    → Rely IsConsistent env
    → IsConsistent
        (serve topic inputs env (record {
          state = new_monitor cfg policies admin timeout failsafe t;
          events = [];
        })).1.state
serve-IsConsistent topic inputs env cfg policies admin timeout failsafe t g =
    serve_keeps topic inputs env _ g
      (new_monitor-IsConsistent cfg policies admin timeout failsafe t)
