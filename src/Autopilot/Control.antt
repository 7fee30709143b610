-- ===== src/Autopilot/Control.antt =====
-- One round of the control loop: polling the navigation, and stepping the mission.
use drones.Common.{
  ℕ, ◌+◌, ◌-◌, Bool, true, false, Option, none, some, if◌then◌else◌, ◌||◌, not, leb,
}
use drones.Message.{Fields, ℤ, pos, negsuc, empty, str, get, bool_of, map_of, only, get_items}
use drones.Bus.{Result, ok, M, pure, gets, modify, now, ◌>>=◌, ◌>>◌}
use drones.Floats.{Floats, lit}
use drones.Component.{proxy_request, should_run_interval}
use drones.Autopilot.State.{
  State, paused, completed, is_pre_flight, is_executing, is_paused, Autopilot, mission_id,
  get_float, len, item, journal,
}
use drones.Autopilot.Actuators.{send_motors_target, send_cargo, hold_position, compute_velocity}
use drones.Autopilot.Preflight.{step_pre_flight, notify_droneport_land, notify_orvd_complete}

-- stepIndex, or 0 where it is negative
abbrev pub index_of : ℤ → ℕ
index_of (pos n) = n
index_of (negsuc n) = 0

module _ {F : Type 0} (fl : Floats F) where
  abbrev pub keep_nav : Result (Option (Fields F)) → M F (Autopilot F) (Unit {0})
  keep_nav (ok (some nav)) = modify λ a. record a { last_nav_state = some nav }
  keep_nav _ = pure tt

  -- pollNavigationIfDue
  unfoldable pub poll_navigation_if_due : M F (Autopilot F) (Unit {0})
  unfolding proxy_request
  poll_navigation_if_due = do
    t ← now
    a ← gets (λ a. a)
    let due = should_run_interval fl (fl.nanos t) a.last_nav_poll_ts a.nav_poll_interval_sec
    if not due.0 then pure tt else do
      modify λ a. record a { last_nav_poll_ts = due.1 }
      nav ← proxy_request a.proxy a.navigation_topic "get_state" empty
      keep_nav nav

  -- the log entry and the notifications of a completed mission
  unfoldable pub announce_completed : M F (Autopilot F) (Unit {0})
  announce_completed = do
    mid ← gets (λ a. mission_id a.mission)
    journal "AUTOPILOT_MISSION_COMPLETED" (only "mission_id" (str mid))
    notify_droneport_land mid
    notify_orvd_complete mid

  -- the branch where the step index is past the steps
  unfoldable pub finish_past_end : M F (Autopilot F) (Unit {0})
  finish_past_end = do
    a ← gets (λ a. a)
    if not (is_executing a.state)
        then pure tt
        else do modify λ a. record a { state = completed }; announce_completed

  -- the branch where the last step is reached
  unfoldable pub finish_last : ℕ → Fields F → M F (Autopilot F) (Unit {0})
  finish_last total nav = do
    modify λ a. record a { state = completed; current_step_index = pos total }
    announce_completed
    hold_position fl nav
    send_cargo fl false

  abbrev pub planar_distance : F → F → F
  planar_distance d_lat d_lon =
      fl.mul (fl.sqrt (fl.add (fl.mul d_lat d_lat) (fl.mul d_lon d_lon))) (lit fl 111000)

  abbrev heading_to : F → F → F
  heading_to d_lat d_lon =
      if not (fl.eq d_lat (lit fl 0)) || not (fl.eq d_lon (lit fl 0))
      then fl.fmod (fl.add (fl.div (fl.mul (fl.atan2 d_lon d_lat) (lit fl 180)) fl.pi) (lit fl 360))
          (lit fl 360)
      else lit fl 0

  abbrev speed_of : Fields F → F
  speed_of step =
      let v = get_float fl step "speed_mps" in if fl.eq v (lit fl 0) then lit fl 5 else v

  -- the command towards a step
  unfoldable pub fly_to : Fields F → Fields F → M F (Autopilot F) (Unit {0})
  fly_to nav step =
      let lat = get_float fl nav "lat" in
      let lon = get_float fl nav "lon" in
      let t_alt = get_float fl step "alt_m" in
      let heading =
        heading_to (fl.sub (get_float fl step "lat") lat) (fl.sub (get_float fl step "lon") lon) in
      let v = compute_velocity fl heading (speed_of step) (get_float fl nav "alt_m") t_alt in
      let drop = bool_of (get step "drop") in
      (send_motors_target fl v.0 v.1 v.2 t_alt lat lon heading drop >> send_cargo fl drop)

  -- is the step at most two metres away
  unfoldable pub is_reached : Fields F → Fields F → Bool
  is_reached nav step =
      fl.le
        (planar_distance (fl.sub (get_float fl step "lat") (get_float fl nav "lat"))
          (fl.sub (get_float fl step "lon") (get_float fl nav "lon")))
        (lit fl 2)

  -- the step at the index, for a state that is EXECUTING or PAUSED
  unfoldable pub follow_step :
      State → ℕ → ℕ → Fields F → Option (Fields F) → M F (Autopilot F) (Unit {0})
  follow_step state total i nav none = pure tt
  follow_step state total i nav (some step) =
      if is_paused state
      then (hold_position fl nav >> send_cargo fl false)
      else if is_reached nav step
      then (if leb (total - 1) i
          then finish_last total nav
          else modify λ a. record a { current_step_index = pos (i + 1) })
      else fly_to nav step

  unfoldable pub follow_mission : Fields F → Fields F → M F (Autopilot F) (Unit {0})
  follow_mission nav mission = do
    a ← gets (λ a. a)
    let steps = get_items mission "steps"
    let i = index_of a.current_step_index
    if not (is_executing a.state || is_paused a.state)
        then pure tt
        else if leb (len steps) 0
        then pure tt
        else if leb (len steps) i
        then finish_past_end
        else follow_step a.state (len steps) i nav (map_of (item steps i))

  abbrev pub land_kover : Autopilot F → Autopilot F
  land_kover a = record a { kover_active = false; state = paused }

  -- doKover
  unfoldable pub do_kover : Fields F → M F (Autopilot F) (Unit {0})
  do_kover nav = do
    send_motors_target fl (lit fl 0) (lit fl 0) (fl.neg (lit fl 1)) (lit fl 0)
        (get_float fl nav "lat") (get_float fl nav "lon") (get_float fl nav "heading_deg") false
    send_cargo fl false
    modify λ a. record a { cargo_state = "CLOSED" }
    if not (fl.le (get_float fl nav "alt_m") (fl.dec 5 1))
        then pure tt
        else do modify land_kover; journal "AUTOPILOT_KOVER_LANDED" empty

  unfoldable pub step_in_air :
      Bool → Option (Fields F) → Option (Fields F) → M F (Autopilot F) (Unit {0})
  step_in_air kover none mission = pure tt
  step_in_air true (some nav) mission = do_kover nav
  step_in_air false (some nav) none = pure tt
  step_in_air false (some nav) (some mission) = follow_mission nav mission

  -- stepControl
  unfoldable pub step_control : M F (Autopilot F) (Unit {0})
  step_control = do
    a ← gets (λ a. a)
    if is_pre_flight a.state
        then step_pre_flight fl
        else step_in_air a.kover_active a.last_nav_state a.mission

  -- the body of controlLoop
  unfoldable pub control_round : M F (Autopilot F) (Unit {0})
  control_round = do poll_navigation_if_due; step_control
