-- ===== src/Autopilot/Range.antt =====
-- The index of the mission step.
use drones.Common.{
  ℕ, ◌+◌, ◌-◌, ◌≤◌, String, Bool, false, ◌≡◌, refl, sym, ap, inl, inr, Bool-cases, Option, none,
  some, arith, leb, is_empty,
}
use drones.Message.{Fields, pos, get_items, map_of, only, str}
use drones.Bus.{Env, Run}
use drones.Bus.Keeps.{Rely, Keeps, Keeps-then, Keeps-bind, Keeps-gets, Keeps-if, Keeps-pure}
use drones.Floats.{Floats}
use drones.Component.{proxy_request}
use drones.Autopilot.State.{State, completed, Autopilot, len, item, mission_id, journal}
use drones.Autopilot.Actuators.{send_motors_target, send_cargo, hold_position}
use drones.Autopilot.Preflight.{notify_droneport_land, notify_orvd_complete}
use drones.Autopilot.Control.{
  index_of, announce_completed, finish_past_end, finish_last, fly_to, follow_step, follow_mission,
}

abbrev pub steps_of : {F : Type 0} → Option (Fields F) → ℕ
steps_of none = 0
steps_of (some mission) = len (get_items mission "steps")

-- The index of the step is at most the number of the mission's steps.
pub record InRange {F : Type 0} (a : Autopilot F) : Type 0 where
  pub bound : index_of a.current_step_index ≤ steps_of a.mission

module _ {F : Type 0} where
  notify_orvd_complete-InRange : (mid : String) → Keeps {F = F} InRange (notify_orvd_complete mid)
  unfolding notify_orvd_complete proxy_request
  notify_orvd_complete-InRange mid =
      Keeps-if (is_empty mid) _ _ (λ e. Keeps-pure tt)
        λ e. record { kept = λ env r g h. g r.events r.state h }

  notify_droneport_land-InRange : (mid : String) → Keeps {F = F} InRange (notify_droneport_land mid)
  unfolding notify_droneport_land proxy_request
  notify_droneport_land-InRange mid =
      Keeps-if (is_empty mid) _ _ (λ e. Keeps-pure tt)
        λ e. record { kept = λ env r g h. g r.events r.state h }

next-InRange :
    {F : Type 0} (a : Autopilot F) (i : ℕ)
    → i + 1 ≤ steps_of a.mission
    → InRange (record a { current_step_index = pos (i + 1) })
next-InRange a i h = record { bound = h }

module _ {F : Type 0} (fl : Floats F) where
  pub journal-InRange :
      (event : String) (details : Fields F) → Keeps InRange (journal event details)
  journal-InRange event details = record { kept = λ env r g h. h }

  announce_completed-InRange : Keeps InRange (announce_completed fl)
  unfolding announce_completed
  announce_completed-InRange = Keeps-bind _ _ (Keeps-gets (λ a. mission_id a.mission)) λ mid.
      Keeps-then _ _ (journal-InRange "AUTOPILOT_MISSION_COMPLETED" (only "mission_id" (str mid)))
        (Keeps-then _ _ (notify_droneport_land-InRange mid) (notify_orvd_complete-InRange mid))

  pub hold_position-InRange : (nav : Fields F) → Keeps InRange (hold_position fl nav)
  unfolding hold_position send_motors_target
  hold_position-InRange nav = record { kept = λ env r g h. h }

  pub send_cargo-InRange : (open_ : Bool) → Keeps InRange (send_cargo fl open_)
  unfolding send_cargo
  send_cargo-InRange open_ = record { kept = λ env r g h. record { bound = h.bound } }

  finish_past_end-InRange : Keeps InRange (finish_past_end fl)
  unfolding finish_past_end
  finish_past_end-InRange = record {
    kept = λ env r g h. ground (
      arith,
      h,
      announce_completed-InRange.kept env
          (record r { state = record r.state { state = completed } }) g
          (record { bound = h.bound }),
    );
  }

  fly_to-InRange : (nav step : Fields F) → Keeps InRange (fly_to fl nav step)
  unfolding fly_to send_motors_target send_cargo
  fly_to-InRange nav step = record { kept = λ env r g h. record { bound = h.bound } }

  finish_last-InRange :
      (total : ℕ) (nav : Fields F) (env : Env F (Autopilot F)) (r : Run F (Autopilot F))
      → Rely InRange env
      → total ≡ steps_of r.state.mission
      → InRange (finish_last fl total nav env r).1.state
  unfolding finish_last
  finish_last-InRange total nav env r g e =
      (Keeps-then _ _ announce_completed-InRange
          (Keeps-then _ _ (hold_position-InRange nav) (send_cargo-InRange false))).kept
        env _ g (record { bound = ground (arith, e) })

  follow_step-InRange :
      (state : State) (total i : ℕ) (nav : Fields F) (step : Option (Fields F))
      (env : Env F (Autopilot F)) (r : Run F (Autopilot F))
      → Rely InRange env
      → InRange r.state
      → total ≡ steps_of r.state.mission
      → i ≡ index_of r.state.current_step_index
      → InRange (follow_step fl state total i nav step env r).1.state
  unfolding follow_step
  follow_step-InRange state total i nav none env r g h e f = h
  follow_step-InRange state total i nav (some step) env r g h e f =
      let held =
        (Keeps-then _ _ (hold_position-InRange nav) (send_cargo-InRange false)).kept env r g h in
      let flown = (fly_to-InRange nav step).kept env r g h in
      elim (Bool-cases (leb (total - 1) i)) [
        | inl last ↦ ground (arith, last, held, flown, finish_last-InRange total nav env r g e)
        | inr more ↦
            ground (arith, more, held, flown, next-InRange r.state i (ground (arith, more, e, f)))
      ]

  pub follow_mission-InRange :
      (nav mission : Fields F) (env : Env F (Autopilot F)) (r : Run F (Autopilot F))
      → Rely InRange env
      → r.state.mission ≡ some mission
      → InRange r.state
      → InRange (follow_mission fl nav mission env r).1.state
  unfolding follow_mission
  follow_mission-InRange nav mission env r g e h =
      let i = index_of r.state.current_step_index in
      let total = len (get_items mission "steps") in
      ground (
        arith,
        e,
        h,
        finish_past_end-InRange.kept env r g h,
        follow_step-InRange r.state.state total i nav (map_of (item (get_items mission "steps") i))
            env r g h (ap steps_of (sym e)) refl,
      )
