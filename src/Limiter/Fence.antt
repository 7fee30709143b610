-- ===== src/Limiter/Fence.antt =====
-- limiter.go: the polls, and the comparison of the position with the mission.
use drones.Common.{String, ◌||◌, not, Option, none, some, [], ◌∷◌, is_empty, if◌then◌else◌, eqb}
use drones.Message.{Fields, Items, nil, cons, empty, fields, float64, get_items, map_of}
use drones.Bus.{Result, ok, err, M, pure, gets, modify, now, ◌>>=◌, ◌>>◌}
use drones.Floats.{Floats, lit}
use drones.Component.{proxy_request, proxy_publish_async, should_run_interval}
use drones.Limiter.State.{State, normal, warning, emergency, rank, Limiter, journal, get_float}
use drones.Limiter.Orvd.{run_orvd_send_telemetry, report_orvd_incident, land_event}

module _ {F : Type 0} (fl : Floats F) where
  -- haversineDistance
  unfoldable pub haversine_distance : F → F → F → F → F
  haversine_distance lat1 lon1 lat2 lon2 =
      let rad = λ (x : F). fl.div (fl.mul x fl.pi) (lit fl 180) in
      let half = λ (x : F). fl.sin (fl.div x (lit fl 2)) in
      let d_lat = rad (fl.sub lat2 lat1) in
      let d_lon = rad (fl.sub lon2 lon1) in
      let a = fl.add (fl.mul (half d_lat) (half d_lat)) (
        fl.mul (fl.mul (fl.mul (fl.cos (rad lat1)) (fl.cos (rad lat2))) (half d_lon))
          (half d_lon)) in
      let c = fl.mul (lit fl 2) (fl.atan2 (fl.sqrt a) (fl.sqrt (fl.sub (lit fl 1) a))) in
      fl.mul (lit fl 6371000) c

  -- the proxyRequest of the limiter: an error is the nil map
  abbrev pub answered : Result (Option (Fields F)) → Option (Fields F)
  answered (ok resp) = resp
  answered (err e) = none

  abbrev pub keep_nav : Option (Fields F) → Limiter F → Limiter F
  keep_nav none l = l
  keep_nav (some nav) l = record l { last_nav = some nav }

  abbrev pub keep_telemetry : Option (Fields F) → Limiter F → Limiter F
  keep_telemetry none l = l
  keep_telemetry (some telem) l = record l { last_telemetry = some telem }

  -- pollNavigationIfDue
  unfoldable pub poll_navigation_if_due : M F (Limiter F) (Unit {0})
  poll_navigation_if_due = do
    t ← now
    l ← gets (λ l. l)
    let due = should_run_interval fl (fl.nanos t) l.last_nav_poll_ts l.nav_poll_interval_sec
    if not due.0 then pure tt else do
      modify (λ l. record l { last_nav_poll_ts = due.1 })
      nav ← proxy_request l.proxy l.navigation_topic "get_state" empty
      modify (keep_nav (answered nav))

  -- pollTelemetryIfDue
  unfoldable pub poll_telemetry_if_due : M F (Limiter F) (Unit {0})
  poll_telemetry_if_due = do
    t ← now
    l ← gets (λ l. l)
    let due =
        should_run_interval fl (fl.nanos t) l.last_telemetry_poll_ts l.telemetry_poll_interval_sec
    if not due.0 then pure tt else do
      modify (λ l. record l { last_telemetry_poll_ts = due.1 })
      telem ← proxy_request l.proxy l.telemetry_topic "get_state" empty
      modify (keep_telemetry (answered telem))

  abbrev pub report_position : Option (Fields F) → M F (Limiter F) (Unit {0})
  report_position none = pure tt
  report_position (some nav) = run_orvd_send_telemetry fl nav

  -- pollORVDTelemetryIfDue
  unfoldable pub poll_orvd_telemetry_if_due : M F (Limiter F) (Unit {0})
  poll_orvd_telemetry_if_due = do
    configured ← gets (λ l. l.orvd.topic)
    if is_empty configured then pure tt else do
      t ← now
      l ← gets (λ l. l)
      let due =
          should_run_interval fl (fl.nanos t) l.last_orvd_telemetry_ts l.orvd.telemetry_interval_sec
      if not due.0 then pure tt else do
        modify (λ l. record l { last_orvd_telemetry_ts = due.1 })
        report_position l.last_nav

  -- the new state for a distance and a deviation in altitude, and their limits
  unfoldable pub classify : F → F → F → F → State
  classify max_distance max_alt distance alt_dev =
      if fl.lt max_distance distance || fl.lt max_alt alt_dev
      then emergency
      else if fl.lt (fl.mul (fl.dec 5 1) max_distance) distance
          || fl.lt (fl.mul (fl.dec 5 1) max_alt) alt_dev
      then warning
      else normal

  abbrev pub breach_details : Limiter F → F → F → Fields F
  breach_details l distance alt_dev = fields (
      ("distance_from_path_m", float64 distance)
      ∷ ("max_distance_from_path_m", float64 l.max_distance_from_path_m)
      ∷ ("alt_deviation_m", float64 alt_dev)
      ∷ ("max_alt_deviation_m", float64 l.max_alt_deviation_m)
      ∷ [])

  -- if nav != nil && mid != "" { l.reportORVDIncident(…) }
  abbrev pub report_breach : Option (Fields F) → String → M F (Limiter F) (Unit {0})
  report_breach none mid = pure tt
  report_breach (some nav) mid =
      if is_empty mid
      then pure tt
      else report_orvd_incident mid "geofence_violation" "critical" (get_float fl nav "lat")
          (get_float fl nav "lon")

  -- publishEmergency; an error of the broker is only printed
  unfoldable pub publish_emergency : F → F → M F (Limiter F) (Unit {0})
  publish_emergency distance alt_dev = do
    l ← gets (λ l. l)
    journal "LIMITER_EMERGENCY_LAND_REQUIRED" (breach_details l distance alt_dev)
    report_breach l.last_nav l.orvd_mission_id
    a ← gets (λ l. l)
    proxy_publish_async a.proxy a.emergency_topic "limiter_event"
        (land_event (breach_details l distance alt_dev))
    pure tt

  -- what the entry into a new state makes known
  unfoldable pub announce : State → F → F → M F (Limiter F) (Unit {0})
  announce emergency distance alt_dev = publish_emergency distance alt_dev
  announce warning distance alt_dev =
      journal "LIMITER_DEVIATION_WARNING"
        (fields (("distance_m", float64 distance) ∷ ("alt_deviation_m", float64 alt_dev) ∷ []))
  announce normal distance alt_dev = pure tt

  -- steps[len(steps)-1].(map[string]interface{}), for a list that is not empty
  unfoldable pub last_step : Items F → Option (Fields F)
  last_step nil = none
  last_step (cons s nil) = map_of (some s)
  last_step (cons s (cons t rest)) = last_step (cons t rest)

  -- the target of a mission that may be nil: `none` where recalculate returns early
  abbrev pub target_of : Option (Fields F) → Option (Fields F)
  target_of none = none
  target_of (some mission) = last_step (get_items mission "steps")

  -- the distance to the target, and the deviation in altitude
  abbrev pub deviation : Fields F → Fields F → F × F
  deviation nav target = (
    haversine_distance (get_float fl nav "lat") (get_float fl nav "lon") (get_float fl target "lat")
        (get_float fl target "lon"),
    fl.abs (fl.sub (get_float fl nav "alt_m") (get_float fl target "alt_m")),
  )

  unfoldable pub enter : State → State → F → F → M F (Limiter F) (Unit {0})
  enter current_state new_state distance alt_dev =
      if eqb (rank new_state) (rank current_state)
      then pure tt
      else do modify (λ l. record l { state = new_state }); announce new_state distance alt_dev

  unfoldable pub compare_position :
      Limiter F → Option (Fields F) → Option (Fields F) → M F (Limiter F) (Unit {0})
  compare_position l (some nav) (some target) =
      let d = deviation nav target in
      enter l.state (classify l.max_distance_from_path_m l.max_alt_deviation_m d.0 d.1) d.0 d.1
  compare_position l _ _ = pure tt

  -- recalculate
  unfoldable pub recalculate : M F (Limiter F) (Unit {0})
  recalculate = do l ← gets (λ l. l); compare_position l l.last_nav (target_of l.mission)

  -- the body of controlLoop
  unfoldable pub control_round : M F (Limiter F) (Unit {0})
  control_round = do
    poll_navigation_if_due
    poll_telemetry_if_due
    poll_orvd_telemetry_if_due
    recalculate
