-- ===== src/Limiter/Patrol.antt =====
-- limiter.go: the limits of the geofence over a round of the control loop.
use drones.Common.{Option, none, some, arith}
use drones.Message.{Fields, empty}
use drones.Bus.{Run, now}
use drones.Bus.Keeps.{Keeps, Keeps-then, Keeps-pure}
use drones.Floats.{Floats}
use drones.Component.{proxy_request, should_run_interval}
use drones.Component.Invariant.{proxy_request-Keeps}
use drones.Limiter.State.{State, normal, warning, emergency, Limiter, journal}
use drones.Limiter.Breach.{report_breach-Keeps}
use drones.Limiter.Fence.{
  target_of, keep_nav, keep_telemetry, answered, report_position, breach_details,
  poll_navigation_if_due, poll_telemetry_if_due, poll_orvd_telemetry_if_due, publish_emergency,
  announce, enter, compare_position, recalculate, control_round,
}
use drones.Limiter.Limits.{Positive, send_telemetry-Keeps}

module _ {F : Type 0} (fl : Floats F) where
  keep_nav-Positive :
      (nav : Option (Fields F)) (l : Limiter F) → Positive fl l → Positive fl (keep_nav fl nav l)
  keep_nav-Positive none l h = h
  keep_nav-Positive (some nav) l h = h

  keep_telemetry-Positive :
      (t : Option (Fields F)) (l : Limiter F) → Positive fl l → Positive fl (keep_telemetry fl t l)
  keep_telemetry-Positive none l h = h
  keep_telemetry-Positive (some t) l h = h

  pub poll_navigation-Keeps : Keeps (Positive fl) (poll_navigation_if_due fl)
  unfolding poll_navigation_if_due
  poll_navigation-Keeps = record {
    kept = λ env r g h.
        let l = r.state in
        let due =
          should_run_interval fl (fl.nanos (now env r).0) l.last_nav_poll_ts
            l.nav_poll_interval_sec in
        let begun : Run F (Limiter F) = record (now env r).1 {
          state = record l { last_nav_poll_ts = due.1 };
        } in
        let asked = proxy_request l.proxy l.navigation_topic "get_state" empty env begun in
        let k =
          (proxy_request-Keeps l.proxy l.navigation_topic "get_state" empty).kept env begun g h in
        ground (arith, h, keep_nav-Positive (answered fl asked.0) asked.1.state k);
  }

  poll_telemetry-Keeps : Keeps (Positive fl) (poll_telemetry_if_due fl)
  unfolding poll_telemetry_if_due
  poll_telemetry-Keeps = record {
    kept = λ env r g h.
        let l = r.state in
        let due =
          should_run_interval fl (fl.nanos (now env r).0) l.last_telemetry_poll_ts
            l.telemetry_poll_interval_sec in
        let begun : Run F (Limiter F) = record (now env r).1 {
          state = record l { last_telemetry_poll_ts = due.1 };
        } in
        let asked = proxy_request l.proxy l.telemetry_topic "get_state" empty env begun in
        let k =
          (proxy_request-Keeps l.proxy l.telemetry_topic "get_state" empty).kept env begun g h in
        ground (arith, h, keep_telemetry-Positive (answered fl asked.0) asked.1.state k);
  }

  report_position-Keeps : (nav : Option (Fields F)) → Keeps (Positive fl) (report_position fl nav)
  report_position-Keeps none = Keeps-pure tt
  report_position-Keeps (some nav) = send_telemetry-Keeps fl nav

  poll_orvd-Keeps : Keeps (Positive fl) (poll_orvd_telemetry_if_due fl)
  unfolding poll_orvd_telemetry_if_due
  poll_orvd-Keeps = record {
    kept = λ env r g h.
        let l = r.state in
        let due =
          should_run_interval fl (fl.nanos (now env r).0) l.last_orvd_telemetry_ts
            l.orvd.telemetry_interval_sec in
        let begun : Run F (Limiter F) = record (now env r).1 {
          state = record l { last_orvd_telemetry_ts = due.1 };
        } in
        ground (arith, h, (report_position-Keeps l.last_nav).kept env begun g h);
  }

  publish_emergency-Keeps :
      (distance alt_dev : F) → Keeps (Positive fl) (publish_emergency fl distance alt_dev)
  unfolding publish_emergency
  publish_emergency-Keeps distance alt_dev = record {
    kept = λ env r g h.
        let logged =
          (journal "LIMITER_EMERGENCY_LAND_REQUIRED" (breach_details fl r.state distance alt_dev)
            env r).1 in
        (report_breach-Keeps fl r.state.last_nav r.state.orvd_mission_id).kept env logged g h;
  }

  announce-Keeps :
      (s : State) (distance alt_dev : F) → Keeps (Positive fl) (announce fl s distance alt_dev)
  unfolding announce
  announce-Keeps emergency distance alt_dev = publish_emergency-Keeps distance alt_dev
  announce-Keeps warning distance alt_dev = record { kept = λ env r g h. h }
  announce-Keeps normal distance alt_dev = record { kept = λ env r g h. h }

  enter-Keeps :
      (current_state new_state : State) (distance alt_dev : F)
      → Keeps (Positive fl) (enter fl current_state new_state distance alt_dev)
  unfolding enter
  enter-Keeps current_state new_state distance alt_dev = record {
    kept = λ env r g h.
        let begun : Run F (Limiter F) = record r { state = record r.state { state = new_state } } in
        ground (arith, h, (announce-Keeps new_state distance alt_dev).kept env begun g h);
  }

  compare-Keeps :
      (l : Limiter F) (nav target : Option (Fields F))
      → Keeps (Positive fl) (compare_position fl l nav target)
  unfolding compare_position
  compare-Keeps l (some nav) (some target) = enter-Keeps l.state _ _ _
  compare-Keeps l (some nav) none = Keeps-pure tt
  compare-Keeps l none target = Keeps-pure tt

  recalculate-Keeps : Keeps (Positive fl) (recalculate fl)
  unfolding recalculate
  recalculate-Keeps = record {
    kept = λ env r g h.
        (compare-Keeps r.state r.state.last_nav (target_of fl r.state.mission)).kept env r g h;
  }

  pub control_round-Keeps : Keeps (Positive fl) (control_round fl)
  unfolding control_round
  control_round-Keeps =
      Keeps-then _ _ poll_navigation-Keeps
        (Keeps-then _ _ poll_telemetry-Keeps (Keeps-then _ _ poll_orvd-Keeps recalculate-Keeps))
