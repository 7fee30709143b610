-- ===== src/Autopilot/Clearance.antt =====
-- When the preflight checks let the drone take off.
use drones.Common.{
  String, Bool, false, ◌≡◌, ◌≢◌, refl, Option, none, some, List, arith, if◌then◌else◌,
}
use drones.Message.{Fields, empty, only, str}
use drones.Bus.{Result, Event, Env, Run, M, pure, ◌>>=◌}
use drones.Bus.Keeps.{Rely, Keeps, Keeps-bind, Keeps-pure, Keeps-if, Keeps-gets}
use drones.Floats.{Floats}
use drones.Component.{ProxyClient, proxy_request}
use drones.Component.Invariant.{proxy_request-Keeps}
use drones.Autopilot.State.{pre_flight, executing, aborted, Autopilot, mission_id}
use drones.Autopilot.Preflight.{
  Clearance, cleared, refused, limiter_clearance, check_limiter_authorization, request_orvd_takeoff,
  request_droneport_takeoff, has_timed_out, pass, with_mission, is_takeoff_authorized,
  takeoff_clearance, has_departed, droneport_clearance, time_out, run_checks, step_pre_flight,
}
use drones.Autopilot.Answers.{
  LimiterClears, TakeoffClears, DroneportClears, check_limiter_authorization-cleared,
  request_orvd_takeoff-cleared, request_droneport_takeoff-cleared, Cleared,
}

-- The checks leave the state to the other goroutines.
module _ {F : Type 0} {P : Autopilot F → Type 0} where
  with_mission-Keeps :
      (mission : Option (Fields F)) (check : Fields F → M F (Autopilot F) Clearance)
      → ((m : Fields F) → Keeps P (check m))
      → Keeps P (with_mission mission check)
  with_mission-Keeps none check k = Keeps-pure (refused "no_mission")
  with_mission-Keeps (some m) check k = k m

  two_requests-Keeps :
      (p : ProxyClient) (topic action : String) (first second : Fields F)
      (test : Result (Option (Fields F)) → Bool) (answer : Result (Option (Fields F)) → Clearance)
      → Keeps P do
        st ← proxy_request p topic "get_state" first
        if test st
            then pure cleared
            else do resp ← proxy_request p topic action second; pure (answer resp)
  two_requests-Keeps p topic action first second test answer =
      Keeps-bind _ _ (proxy_request-Keeps p topic "get_state" first) λ st.
        Keeps-if (test st) (pure cleared)
          (proxy_request p topic action second >>= λ resp. pure (answer resp))
          (λ _. Keeps-pure cleared)
          λ _.
            Keeps-bind _ _ (proxy_request-Keeps p topic action second)
              λ resp. Keeps-pure (answer resp)

  pub check_limiter_authorization-Keeps : Keeps {F = F} P check_limiter_authorization
  unfolding check_limiter_authorization
  check_limiter_authorization-Keeps = Keeps-bind _ _ (Keeps-gets (λ a. a)) λ a.
      with_mission-Keeps a.mission _ λ m.
        Keeps-bind _ _ (proxy_request-Keeps a.proxy a.limiter_topic "get_state" empty)
          λ pl. Keeps-pure (limiter_clearance (mission_id (some m)) pl)

  pub request_orvd_takeoff-Keeps : Keeps {F = F} P request_orvd_takeoff
  unfolding request_orvd_takeoff
  request_orvd_takeoff-Keeps = Keeps-bind _ _ (Keeps-gets (λ a. a)) λ a.
      with_mission-Keeps a.mission _ λ m.
        two_requests-Keeps a.proxy a.limiter_topic "orvd_takeoff" empty
          (only "mission_id" (str (mission_id (some m)))) is_takeoff_authorized takeoff_clearance

  pub request_droneport_takeoff-Keeps : Keeps {F = F} P request_droneport_takeoff
  unfolding request_droneport_takeoff
  request_droneport_takeoff-Keeps = Keeps-bind _ _ (Keeps-gets (λ a. a)) λ a.
      with_mission-Keeps a.mission _ λ m.
        two_requests-Keeps a.proxy a.emergency_topic "droneport_takeoff" empty
          (only "mission_id" (str (mission_id (some m)))) has_departed droneport_clearance

module _ {F : Type 0} (env : Env F (Autopilot F)) (r : Run F (Autopilot F)) where
  -- The three checks, one after the other.
  abbrev pub limiter_run : Clearance × Run F (Autopilot F)
  limiter_run = check_limiter_authorization env r

  abbrev pub takeoff_run : Clearance × Run F (Autopilot F)
  takeoff_run = request_orvd_takeoff env limiter_run.1

  abbrev pub droneport_run : Clearance × Run F (Autopilot F)
  droneport_run = request_droneport_takeoff env takeoff_run.1

  run_checks-executing :
      Rely (λ a. a.state ≢ executing) env
      → r.state.state ≢ executing
      → (run_checks env r).1.state.state ≡ executing
      → (limiter_run.0 ≡ cleared) × (takeoff_run.0 ≡ cleared) × (droneport_run.0 ≡ cleared)
  unfolding run_checks
  run_checks-executing g n e =
      let a = check_limiter_authorization-Keeps.kept env r g n in
      let b = request_orvd_takeoff-Keeps.kept env limiter_run.1 g a in
      let c = request_droneport_takeoff-Keeps.kept env takeoff_run.1 g b in ground (arith, a, b, c)

module _ {F : Type 0} (fl : Floats F) (env : Env F (Autopilot F)) (r : Run F (Autopilot F)) where
  has_timed_out-state : ((has_timed_out fl env r).1.state ≡ r.state)
  unfolding has_timed_out
  has_timed_out-state = ground arith

  time_out-aborted : (time_out env r).1.state.state ≡ aborted
  unfolding time_out
  time_out-aborted = refl

-- All three checks passed.
step_pre_flight-checks :
    {F : Type 0} (fl : Floats F) (env : Env F (Autopilot F)) (r : Run F (Autopilot F))
    → Rely (λ a. a.state ≢ executing) env
    → r.state.state ≢ executing
    → (step_pre_flight fl env r).1.state.state ≡ executing
    → let s = (has_timed_out fl env r).1 in
      (r.state.state ≡ pre_flight)
      × ((has_timed_out fl env r).0 ≡ false)
      × ((limiter_run env s).0 ≡ cleared)
      × ((takeoff_run env s).0 ≡ cleared)
      × ((droneport_run env s).0 ≡ cleared)
unfolding step_pre_flight
step_pre_flight-checks fl env r g n e =
    let s = (has_timed_out fl env r).1 in
    ground
      (arith, has_timed_out-state fl env r, time_out-aborted fl env s, run_checks-executing env s g)

-- While a drone that is not yet executing is stepped through its preflight, and no other goroutine
-- sets it executing, it ends executing only if the mission has not timed out and, in this order, the
-- limiter answered AUTHORIZED to get_state, for this mission or with a name missing; the limiter
-- reported the permission to take off in get_state, or answered "ok" to orvd_takeoff; and the
-- emergency component reported in get_state that the drone has departed, or answered "ok", without
-- "pending", to droneport_takeoff. The two requests for a clearance name the mission that is loaded
-- when their check begins.
pub step_pre_flight-executing :
    {F : Type 0} (fl : Floats F) (env : Env F (Autopilot F)) (r : Run F (Autopilot F))
    → Rely (λ a. a.state ≢ executing) env
    → r.state.state ≢ executing
    → (step_pre_flight fl env r).1.state.state ≡ executing
    → let s = (has_timed_out fl env r).1 in
      (r.state.state ≡ pre_flight)
      × ((has_timed_out fl env r).0 ≡ false)
      × Cleared (LimiterClears env) s
      × Cleared (TakeoffClears env) (limiter_run env s).1
      × Cleared (DroneportClears env) (takeoff_run env s).1
step_pre_flight-executing fl env r g n e =
    let s = (has_timed_out fl env r).1 in
    let (waiting, early, one, two, three) = step_pre_flight-checks fl env r g n e in
    (
      waiting,
      early,
      check_limiter_authorization-cleared env s one,
      request_orvd_takeoff-cleared env (limiter_run env s).1 two,
      request_droneport_takeoff-cleared env (takeoff_run env s).1 three,
    )

module _ {F : Type 0} (env : Env F (Autopilot F)) (r : Run F (Autopilot F))
    (aborts : (events : List (Event F)) (a : Autopilot F)
      → (env.meanwhile events a).state ≡ aborted) where
  asked-aborted :
      (o : Option (Fields F)) {mission : Fields F}
      → o ≡ some mission
      → (with_mission o
          (λ m. do
            pl ← proxy_request r.state.proxy r.state.limiter_topic "get_state" empty
            pure (limiter_clearance (mission_id (some m)) pl))
          env
          r).1.state.state
        ≡ aborted
  unfolding proxy_request
  asked-aborted none e = cc
  asked-aborted (some m) e = aborts r.events r.state

  limiter_run-aborted :
      {mission : Fields F}
      → r.state.mission ≡ some mission
      → (limiter_run env r).1.state.state ≡ aborted
  unfolding check_limiter_authorization
  limiter_run-aborted e = asked-aborted r.state.mission e

  -- If other goroutines abort the drone whenever it waits for an answer, a drone with a mission whose
  -- checks have begun ends aborted, whatever is answered.
  pub run_checks-aborted :
      {mission : Fields F}
      → r.state.mission ≡ some mission
      → (run_checks env r).1.state.state ≡ aborted
  unfolding run_checks pass
  run_checks-aborted e =
      let g =
        λ (events : List (Event F)) (a : Autopilot F) (h : a.state ≡ aborted). aborts events a in
      let a = limiter_run-aborted e in
      let b = request_orvd_takeoff-Keeps {P = λ a. a.state ≡ aborted} in
      let b' = b.kept env (limiter_run env r).1 g a in
      let c = request_droneport_takeoff-Keeps {P = λ a. a.state ≡ aborted} in
      let c' = c.kept env (takeoff_run env r).1 g b' in ground (arith, a, b', c')
