-- ===== src/SecurityMonitor/Service.antt =====
-- security_monitor.go: the component that answers messages, and its run over inputs.
pub mod Safe
use drones.Common.{ℕ, String, List, [], ◌∷◌}
use drones.Message.{Fields}
use drones.Bus.{M, pure, ◌>>=◌, ◌>>◌}
use drones.Config.{Config, broker_topic_for}
use drones.Component.{
  Base, Handler, custom, infallible, new_base_component, register_handler, handle_message,
}
use drones.SecurityMonitor.State.{Monitor, component_id}
use drones.SecurityMonitor.Isolation.{
  handle_isolation_start, handle_isolation_end, handle_safety_heartbeat, handle_isolation_status,
}
use drones.SecurityMonitor.PolicyStore.{
  handle_set_policy, handle_remove_policy, handle_clear_policies, handle_list_policies,
}
use drones.SecurityMonitor.Proxy.{handle_proxy_request, handle_proxy_publish}
use drones.SecurityMonitor.Watchdog.{check_heartbeat_timeout}

-- registerHandlers
unfoldable pub register_handlers : {F : Type 0} → Base F Monitor → Base F Monitor
unfolding register_handler
register_handlers c =
    register_handler "safety_heartbeat" (custom (infallible handle_safety_heartbeat)) (
      register_handler "isolation_status" (custom (infallible handle_isolation_status)) (
        register_handler "ISOLATION_END" (custom (infallible handle_isolation_end)) (
          register_handler "ISOLATION_START" (custom (infallible handle_isolation_start)) (
            register_handler "list_policies" (custom (infallible handle_list_policies)) (
              register_handler "clear_policies" (custom (infallible handle_clear_policies)) (
                register_handler "remove_policy" (custom (infallible handle_remove_policy)) (
                  register_handler "set_policy" (custom (infallible handle_set_policy)) (
                    register_handler "proxy_publish" (custom (infallible handle_proxy_publish)) (
                      register_handler "proxy_request" (custom (infallible handle_proxy_request))
                        c)))))))))

-- the base component of New
unfoldable pub monitor_base : {F : Type 0} → String → Base F Monitor
unfolding register_handlers new_base_component
monitor_base topic = register_handlers (new_base_component component_id "security_monitor" topic)

-- What wakes the component: a message on its topic, or a tick of watchdogLoop.
pub data Input (F : Type 0) : Type 0 where
  message : Fields F → Input F
  tick : Input F

module _ {F : Type 0} (topic : String) where
  unfoldable pub react : Input F → M F Monitor (Unit {0})
  react (message m) = handle_message (monitor_base topic) m
  react tick = check_heartbeat_timeout

  unfoldable pub serve : List (Input F) → M F Monitor (Unit {0})
  serve [] = pure tt
  serve (i ∷ is) = react i >> serve is
