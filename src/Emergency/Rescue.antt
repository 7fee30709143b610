-- ===== src/Emergency/Rescue.antt =====
-- emergency.go with security_monitor/src, cargo/src and motors/src: what becomes of the emergency's orders.
use drones.Common.{
  String, true, false, ◌≡◌, refl, ap, inl, inr, ◌∷◌, arith, is_empty, trim_space, eq_iff,
  Bool-cases,
}
use drones.Message.{Fields, get, get_map}
use drones.Bus.{ok, Env, Run, published, clock_read}
use drones.Floats.{Floats}
use drones.Config.{broker_topic_for}
use drones.Component.{ProxyClient, proxy_message}
use drones.SecurityMonitor.Policy.{PolicyKey, contains}
use drones.SecurityMonitor.State.{Monitor, is_isolated, record_sender_seen}
use drones.SecurityMonitor.PolicyStore.{allowed}
use drones.SecurityMonitor.Isolation.{
  emergency_policies, isolate, enter_isolated_locked, log_mode_transition_locked,
  handle_isolation_start,
}
use drones.SecurityMonitor.Proxy.{
  Target, extract_target, check_target, forwarded, sender_of, forward_publish, handle_proxy_publish,
}
use drones.SecurityMonitor.Gateway.{sent, seen-policies}
use drones.Motors.{landing, Motors, land_sitl_command, handle_land}
use drones.Motors.Commands.{handle_land_lem}
use drones.SecurityMonitor.Consistent.{IsConsistent}
use drones.Cargo.{Cargo, closed, set_state, handle_close}
use drones.Emergency.Handlers.{isolation_start, close_order, land_order}

-- The orders that the emergency component sends through the security monitor in an emergency.
pub data Order : Type 0 where
  close land : Order

abbrev pub receiver : Order → String
receiver close = "cargo"
receiver land = "motors"

abbrev pub action_of : Order → String
action_of close = "CLOSE"
action_of land = "LAND"

abbrev pub emergency_proxy : String → ProxyClient
emergency_proxy monitor_topic = record {
  sender_id = "emergency";
  security_monitor_topic = monitor_topic;
}

trimmed_action : (o : Order) → trim_space (action_of o) ≡ action_of o
unfolding trim_space
trimmed_action close = refl
trimmed_action land = refl

allows :
    (sm : Monitor) (o : Order)
    → contains (emergency_policies sm) (record {
      sender = "emergency";
      topic = broker_topic_for sm.cfg (receiver o);
      action = action_of o;
    })
      ≡ true
unfolding contains
allows sm close =
    ground (arith, eq_iff (broker_topic_for sm.cfg "cargo") (broker_topic_for sm.cfg "cargo"))
allows sm land =
    ground (arith, eq_iff (broker_topic_for sm.cfg "motors") (broker_topic_for sm.cfg "motors"))

module _ {F : Type 0} where
  abbrev pub orders : Order → Fields F
  orders close = close_order
  orders land = land_order

  -- The order as the emergency component sends it to the security monitor on that topic.
  abbrev pub order_message : String → String → Order → Fields F
  order_message monitor_topic topic close =
      proxy_message "proxy_publish" (emergency_proxy monitor_topic) topic "CLOSE" close_order
  order_message monitor_topic topic land =
      proxy_message "proxy_publish" (emergency_proxy monitor_topic) topic "LAND" land_order

  -- The isolation that the emergency component starts leaves the policies of isolation in force.
  isolation-policies :
      (mid : String) (env : Env F Monitor) (r : Run F Monitor) (o : Order)
      → IsConsistent r.state
      → allowed
          (handle_isolation_start (isolation_start "emergency" mid) env r).1.state
          "emergency"
          (broker_topic_for r.state.cfg (receiver o))
          (action_of o)
        ≡ true
  unfolding handle_isolation_start enter_isolated_locked log_mode_transition_locked isolate allowed
      get
  isolation-policies mid env r o h =
      let k : PolicyKey = record {
        sender = "emergency";
        topic = broker_topic_for r.state.cfg (receiver o);
        action = action_of o;
      } in
      elim (Bool-cases (is_isolated r.state.safety_state.mode)) [
        | inl already ↦ ground (arith, already, h.active k, allows r.state o)
        | inr before ↦ ground (arith, before, allows r.state o)
      ]

  check_target-passes :
      (sm : Monitor) (monitor_topic topic : String) (o : Order)
      → trim_space topic ≡ topic
      → is_empty topic ≡ false
      → allowed sm "emergency" topic (action_of o) ≡ true
      → check_target sm
          (sender_of (order_message monitor_topic topic o))
          (get_map (order_message monitor_topic topic o) "payload")
        ≡ ok (record { topic = topic; action = action_of o; payload = orders o })
  unfolding check_target extract_target get
  check_target-passes sm monitor_topic topic close trimmed named h =
      let t : trim_space "CLOSE" ≡ "CLOSE" = trimmed_action close in
      rw (trimmed, t, named) (ground (arith, h))
  check_target-passes sm monitor_topic topic land trimmed named h =
      let t : trim_space "LAND" ≡ "LAND" = trimmed_action land in
      rw (trimmed, t, named) (ground (arith, h))

  -- what the security monitor forwards for an order
  abbrev pub target_of : Monitor → Order → Target F
  target_of sm o = record {
    topic = broker_topic_for sm.cfg (receiver o);
    action = action_of o;
    payload = orders o;
  }

  -- What an order is to bring about at its receiver.
  abbrev pub Obeyed :
      Floats F
      → Order
      → Fields F
      → Env F (Cargo F)
      → Run F (Cargo F)
      → Env F (Motors F)
      → Run F (Motors F)
      → Type 0
  Obeyed fl close m cargo_env c motors_env t =
      (handle_close fl m cargo_env c).1.state.state ≡ closed
  Obeyed fl land m cargo_env c motors_env t =
      ((handle_land fl m motors_env t).1.state.mode ≡ landing)
      × ((handle_land fl m motors_env t).1.events
          ≡ published t.state.sitl_topic (land_sitl_command fl t.state.drone_id)
            ∷ clock_read
            ∷ t.events)

  forwarded-Obeyed :
      (fl : Floats F) (sm : Monitor) (o : Order) (cargo_env : Env F (Cargo F)) (c : Run F (Cargo F))
      (motors_env : Env F (Motors F)) (t : Run F (Motors F))
      → Obeyed fl o (forwarded (target_of sm o)) cargo_env c motors_env t
  unfolding handle_close set_state get
  forwarded-Obeyed fl sm close cargo_env c motors_env t = ground arith
  forwarded-Obeyed fl sm land cargo_env c motors_env t =
      let done = handle_land_lem fl (forwarded (target_of sm land)) motors_env t refl in
      (done.0, done.2)

  handle_proxy_publish-order :
      (env : Env F Monitor) (r : Run F Monitor) (monitor_topic topic : String) (o : Order)
      → trim_space topic ≡ topic
      → is_empty topic ≡ false
      → allowed r.state "emergency" topic (action_of o) ≡ true
      → sent (handle_proxy_publish (order_message monitor_topic topic o) env r).1.events
        ≡ published topic
            (forwarded (record { topic = topic; action = action_of o; payload = orders o }))
          ∷ sent r.events
  unfolding handle_proxy_publish forward_publish sent allowed
  handle_proxy_publish-order env r monitor_topic topic o trimmed named h =
      let m = order_message monitor_topic topic o in
      let (same, quiet) = seen-policies (sender_of m) env r in
      let s = (record_sender_seen (sender_of m) env r).1 in
      rw (check_target-passes s.state monitor_topic topic o trimmed named (rw same h)) (
        ap
          (λ es.
            published topic
              (forwarded (record { topic = topic; action = action_of o; payload = orders o }))
            ∷ es)
          quiet)

  -- After the security monitor, with consistent policies, has handled the isolation that the emergency
  -- component starts, it answers the component's order to close the cargo bay, or to land, by sending
  -- exactly one message to the topic of the cargo bay or of the motors, if that topic, of its own
  -- configuration, is not empty and has no spaces around it. Given that message, the cargo bay ends
  -- closed, or the motors end in LANDING and send the landing command to the simulator.
  pub rescue :
      (fl : Floats F) (mid monitor_topic : String) (env : Env F Monitor) (r : Run F Monitor)
      (o : Order) (cargo_env : Env F (Cargo F)) (c : Run F (Cargo F))
      (motors_env : Env F (Motors F)) (t : Run F (Motors F))
      → IsConsistent r.state
      → trim_space (broker_topic_for r.state.cfg (receiver o))
        ≡ broker_topic_for r.state.cfg (receiver o)
      → is_empty (broker_topic_for r.state.cfg (receiver o)) ≡ false
      → let topic = broker_topic_for r.state.cfg (receiver o) in
        let isolated = (handle_isolation_start (isolation_start "emergency" mid) env r).1 in
        (m : Fields F) × (sent
            (handle_proxy_publish (order_message monitor_topic topic o) env isolated).1.events
          ≡ published topic m ∷ sent isolated.events)
        × Obeyed fl o m cargo_env c motors_env t
  rescue fl mid monitor_topic env r o cargo_env c motors_env t h trimmed named = (
    forwarded (target_of r.state o),
    handle_proxy_publish-order env
        (handle_isolation_start (isolation_start "emergency" mid) env r).1 monitor_topic
        (broker_topic_for r.state.cfg (receiver o)) o trimmed named
        (isolation-policies mid env r o h),
    forwarded-Obeyed fl r.state o cargo_env c motors_env t,
  )
