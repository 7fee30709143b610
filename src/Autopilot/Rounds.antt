-- ===== src/Autopilot/Rounds.antt =====
-- The step index over the preflight and a round of the control loop.
use drones.Common.{Bool, true, false, not, ◌≡◌, refl, Option, none, some, arith}
use drones.Message.{Fields, empty}
use drones.Bus.{Result, ok, err, Env, Run, M, modify, ◌>>=◌, ◌>>◌}
use drones.Bus.Keeps.{
  Rely, Keeps, Keeps-then, Keeps-bind, Keeps-gets, Keeps-if, Keeps-pure, Keeps-now, Keeps-modify,
}
use drones.Floats.{Floats}
use drones.Component.{should_run_interval, proxy_request}
use drones.Component.Invariant.{proxy_request-Keeps}
use drones.Autopilot.State.{Autopilot}
use drones.Autopilot.Actuators.{send_motors_target, send_cargo}
use drones.Autopilot.Preflight.{
  Clearance, cleared, pending, refused, has_timed_out, after, pass, time_out, run_checks,
  step_pre_flight,
}
use drones.Autopilot.Clearance.{
  check_limiter_authorization-Keeps, request_orvd_takeoff-Keeps, request_droneport_takeoff-Keeps,
}
use drones.Autopilot.Control.{
  keep_nav, poll_navigation_if_due, do_kover, step_in_air, step_control, control_round,
}
use drones.Autopilot.Range.{InRange, follow_mission-InRange}

module _ {F : Type 0} where
  pass-InRange : Keeps {F = F} InRange pass
  unfolding pass
  pass-InRange = record { kept = λ env r g h. ground (arith, h) }

  time_out-InRange : Keeps {F = F} InRange time_out
  unfolding time_out
  time_out-InRange = record { kept = λ env r g h. record { bound = h.bound } }

  after-InRange :
      (c : Clearance) (next : M F (Autopilot F) (Unit {0}))
      → Keeps InRange next
      → Keeps InRange (after c next)
  after-InRange cleared next k = k
  after-InRange pending next k = Keeps-pure tt
  after-InRange (refused key) next k = record { kept = λ env r g h. ground (arith, h) }

  run_checks-InRange : Keeps {F = F} InRange run_checks
  unfolding run_checks
  run_checks-InRange = Keeps-bind _ _ check_limiter_authorization-Keeps λ limiter.
      after-InRange limiter _ (
        Keeps-bind _ _ request_orvd_takeoff-Keeps λ takeoff. after-InRange takeoff _ (
          Keeps-bind _ _ request_droneport_takeoff-Keeps
            λ droneport. after-InRange droneport pass pass-InRange))

module _ {F : Type 0} (fl : Floats F) where
  has_timed_out-InRange : Keeps InRange (has_timed_out fl)
  unfolding has_timed_out
  has_timed_out-InRange = record { kept = λ env r g h. ground (arith, h) }

  pub step_pre_flight-InRange : Keeps InRange (step_pre_flight fl)
  unfolding step_pre_flight
  step_pre_flight-InRange = record {
    kept = λ env r g h.
        let s = (has_timed_out fl env r).1 in
        let k = has_timed_out-InRange.kept env r g h in
        ground (arith, h, time_out-InRange.kept env s g k, run_checks-InRange.kept env s g k);
  }

  keep_nav-InRange : (o : Result (Option (Fields F))) → Keeps InRange (keep_nav fl o)
  keep_nav-InRange (ok (some nav)) = record { kept = λ env r g h. record { bound = h.bound } }
  keep_nav-InRange (ok none) = Keeps-pure tt
  keep_nav-InRange (err e) = Keeps-pure tt

  polled-InRange :
      (t : F) (a : Autopilot F)
      → Keeps InRange do
        modify λ a. record a { last_nav_poll_ts = t }
        nav ← proxy_request a.proxy a.navigation_topic "get_state" empty
        keep_nav fl nav
  polled-InRange t a =
      Keeps-then _ _
        (Keeps-modify (λ a. record a { last_nav_poll_ts = t }) λ s h. record { bound = h.bound })
        (Keeps-bind _ _ (proxy_request-Keeps a.proxy a.navigation_topic "get_state" empty)
          λ nav. keep_nav-InRange nav)

  poll_navigation_if_due-InRange : Keeps InRange (poll_navigation_if_due fl)
  unfolding poll_navigation_if_due
  poll_navigation_if_due-InRange = Keeps-bind _ _ Keeps-now λ t.
      Keeps-bind _ _ (Keeps-gets (λ a. a)) λ a.
        let due = should_run_interval fl (fl.nanos t) a.last_nav_poll_ts a.nav_poll_interval_sec in
        Keeps-if (not due.0) _ _ (λ e. Keeps-pure tt) λ e. polled-InRange due.1 a

  do_kover-InRange : (nav : Fields F) → Keeps InRange (do_kover fl nav)
  unfolding do_kover send_motors_target send_cargo
  do_kover-InRange nav = record { kept = λ env r g h. ground (arith, h) }

  step_in_air-InRange :
      (kover_active : Bool) (nav mission : Option (Fields F)) (env : Env F (Autopilot F))
      (r : Run F (Autopilot F))
      → Rely InRange env
      → r.state.mission ≡ mission
      → InRange r.state
      → InRange (step_in_air fl kover_active nav mission env r).1.state
  unfolding step_in_air
  step_in_air-InRange b none mission env r g e h = h
  step_in_air-InRange true (some nav) mission env r g e h = (do_kover-InRange nav).kept env r g h
  step_in_air-InRange false (some nav) none env r g e h = h
  step_in_air-InRange false (some nav) (some mission) env r g e h =
      follow_mission-InRange fl nav mission env r g e h

  step_control-InRange : Keeps InRange (step_control fl)
  unfolding step_control
  step_control-InRange = record {
    kept = λ env r g h. ground (
      arith,
      h,
      step_pre_flight-InRange.kept env r g h,
      step_in_air-InRange r.state.kover_active r.state.last_nav_state r.state.mission env r g refl
          h,
    );
  }

  pub control_round-InRange : Keeps InRange (control_round fl)
  unfolding control_round
  control_round-InRange = Keeps-then _ _ poll_navigation_if_due-InRange step_control-InRange
