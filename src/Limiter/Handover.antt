-- ===== src/Limiter/Handover.antt =====
-- limiter.go and autopilot/src: what the autopilot makes of the limiter's answer to get_state.
use drones.Common.{String, true, ◌≡◌, refl, ap, ◌⊎◌, ◌↔◌, some, is_empty}
use drones.Message.{get_string, str}
use drones.Bus.{ok}
use drones.Limiter.State.{
  Status, disabled, pending, authorized, denied, out_of_bounds, status_text, Limiter,
}
use drones.Limiter.Handlers.{state_fields}
use drones.Autopilot.Preflight.{limiter_clearance, cleared}
use drones.Autopilot.Answers.{limiter_clearance-cleared_iff}

status_text-authorized : (s : Status) → status_text s ≡ "AUTHORIZED" → s ≡ authorized
status_text-authorized disabled e = cc
status_text-authorized pending e = cc
status_text-authorized authorized e = refl
status_text-authorized denied e = cc
status_text-authorized out_of_bounds e = cc

-- The autopilot takes the limiter's answer to get_state for a clearance of its mission exactly when
-- the status of the limiter is AUTHORIZED, and the mission is the one that the limiter was last asked
-- to load, or one of the two has no identifier.
pub state_fields-cleared_iff :
    {F : Type 0} (l : Limiter F) (mid : String)
    → (limiter_clearance mid (ok (some (state_fields l))) ≡ cleared) ↔ (
        (l.orvd_status ≡ authorized)
        × ((l.orvd_mission_id ≡ mid) ⊎ (is_empty l.orvd_mission_id ≡ true) ⊎ (is_empty mid ≡ true)))
unfolding drones.Message.get
state_fields-cleared_iff l mid =
    let same = limiter_clearance-cleared_iff mid (some (state_fields l)) in
    (
      λ e. (status_text-authorized l.orvd_status (same.0 e).0, (same.0 e).1),
      λ k. same.1 (ap status_text k.0, k.1),
    )
