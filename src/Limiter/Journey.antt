-- ===== src/Limiter/Journey.antt =====
-- limiter.go: the limits of the geofence over any messages and rounds of the control loop.
use drones.Common.{String, Option, none, some, List, [], ◌∷◌, arith}
use drones.Message.{Fields, str, get_map, get_string, fields}
use drones.Bus.{Env, Run, M, pure, ◌>>◌}
use drones.Bus.Keeps.{Rely, Keeps, Keeps-pure}
use drones.Floats.{Floats}
use drones.Limiter.State.{Limiter}
use drones.Limiter.Orvd.{call_orvd}
use drones.Limiter.Takeoff.{run_orvd_complete_mission}
use drones.Limiter.Stable.{call_orvd-Keeps}
use drones.Limiter.Fence.{poll_navigation_if_due, control_round}
use drones.Limiter.Handlers.{
  handle_mission_load, handle_update_config, handle_orvd_takeoff, handle_orvd_complete,
  complete_payload, named_mission, handle_get_state, or_default, handle_revoke_takeoff,
}
use drones.Limiter.Limits.{
  Positive, request_takeoff-Keeps, after_complete-Keeps, revoke-Keeps, mission_load-Keeps,
  update_config-Keeps,
}
use drones.Limiter.Patrol.{poll_navigation-Keeps, control_round-Keeps}

-- the actions that registerHandlers registers, and a round of controlLoop
pub data Input (F : Type 0) : Type 0 where
  mission_load : Fields F → Input F
  update_config : Fields F → Input F
  get_state : Fields F → Input F
  orvd_takeoff : Fields F → Input F
  orvd_complete : Fields F → Input F
  revoke_takeoff : Fields F → Input F
  round : Input F

module _ {F : Type 0} (fl : Floats F) where
  unfoldable pub react : Input F → M F (Limiter F) (Unit {0})
  react (mission_load m) = handle_mission_load fl m >> pure tt
  react (update_config m) = handle_update_config fl m >> pure tt
  react (get_state m) = handle_get_state m >> pure tt
  react (orvd_takeoff m) = handle_orvd_takeoff fl m >> pure tt
  react (orvd_complete m) = handle_orvd_complete fl m >> pure tt
  react (revoke_takeoff m) = handle_revoke_takeoff fl m >> pure tt
  react round = control_round fl

  unfoldable pub journey : List (Input F) → M F (Limiter F) (Unit {0})
  journey [] = pure tt
  journey (i ∷ is) = react i >> journey is

  takeoff-Keeps : (m : Fields F) → Keeps (Positive fl) (handle_orvd_takeoff fl m)
  unfolding handle_orvd_takeoff
  takeoff-Keeps m = record {
    kept = λ env r g h.
        let mid = named_mission fl (get_map m "payload") r.state in
        let polled = (poll_navigation_if_due fl env r).1 in
        let k = (poll_navigation-Keeps fl).kept env r g h in
        ground (arith, h, (request_takeoff-Keeps fl mid).kept env polled g k);
  }

  complete_mission-Keeps :
      (mid result : String) → Keeps (Positive fl) (run_orvd_complete_mission fl mid result)
  unfolding run_orvd_complete_mission
  complete_mission-Keeps mid result = record {
    kept = λ env r g h.
        let p : Fields F = fields (
          ("mission_id", str mid)
          ∷ ("drone_id", str r.state.orvd.drone_id)
          ∷ ("result", str result)
          ∷ []) in
        let asked = call_orvd "complete_mission" p env r in
        let k = (call_orvd-Keeps "complete_mission" p).kept env r g h in
        ground (arith, h, (after_complete-Keeps fl mid asked.0).kept env asked.1 g k);
  }

  complete_payload-Keeps : (p : Option (Fields F)) → Keeps (Positive fl) (complete_payload fl p)
  complete_payload-Keeps none = Keeps-pure _
  complete_payload-Keeps (some p) = record {
    kept = λ env r g h.
        let mid = named_mission fl (some p) r.state in
        let result = or_default (get_string p "result") "success" in
        ground (arith, h, (complete_mission-Keeps mid result).kept env r g h);
  }

  complete-Keeps : (m : Fields F) → Keeps (Positive fl) (handle_orvd_complete fl m)
  unfolding handle_orvd_complete
  complete-Keeps m = record {
    kept = λ env r g h.
        ground (arith, h, (complete_payload-Keeps (get_map m "payload")).kept env r g h);
  }

  react-Keeps : (i : Input F) → Keeps (Positive fl) (react i)
  unfolding react handle_get_state
  react-Keeps (mission_load m) = record { kept = (mission_load-Keeps fl m).kept }
  react-Keeps (update_config m) = record { kept = (update_config-Keeps fl m).kept }
  react-Keeps (get_state m) = record { kept = λ env r g h. h }
  react-Keeps (orvd_takeoff m) = record { kept = (takeoff-Keeps m).kept }
  react-Keeps (orvd_complete m) = record { kept = (complete-Keeps m).kept }
  react-Keeps (revoke_takeoff m) = record { kept = (revoke-Keeps fl m).kept }
  react-Keeps round = control_round-Keeps fl

  -- If both limits of the geofence are above zero, and the other goroutines keep them so, they are
  -- above zero after any sequence of messages and rounds of the control loop.
  pub journey-Positive :
      (inputs : List (Input F)) (env : Env F (Limiter F)) (r : Run F (Limiter F))
      → Rely (Positive fl) env
      → Positive fl r.state
      → Positive fl (journey inputs env r).1.state
  unfolding journey
  journey-Positive [] env r g h = h
  journey-Positive (i ∷ is) env r g h =
      journey-Positive is env (react i env r).1 g ((react-Keeps i).kept env r g h)
