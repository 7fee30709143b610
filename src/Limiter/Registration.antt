-- ===== src/Limiter/Registration.antt =====
-- opbd_client.go: how a mission is registered and authorized.
use drones.Common.{
  String, Bool, true, false, ◌||◌, not, ◌==◌, Option, some, [], ◌∷◌, is_empty, if◌then◌else◌,
}
use drones.Message.{
  Fields, Value, Items, nil, cons, Maps, no_maps, cons_map, empty, entry, fields, only, str, bool,
  float64, obj, maps, get, get_string, get_items, map_value,
}
use drones.Bus.{Result, ok, err, M, pure, gets, modify, date_time_now, ◌>>=◌, ◌>>◌}
use drones.Floats.{Floats, lit}
use drones.Limiter.State.{
  Status, authorized, denied, phase_authorized, drone_registered, mission_registered, phase_denied,
  OrvdConfig, Limiter, journal,
}
use drones.Limiter.Bounds.{step_float}
use drones.Limiter.Orvd.{text_of, opbd_status, call_orvd, set_orvd_phase, withdraw_takeoff}

abbrev pub verdict : Bool → Status × String
verdict true = (authorized, "")
verdict false = (denied, "orvd_denied")

module _ {F : Type 0} where
  -- what a refused step of the mission's authorization does; the answer is "do not go on"
  unfoldable pub deny : Fields F → M F (Limiter F) Bool
  deny details = do
    journal "ORVD_MISSION_DENIED" details
    modify (set_orvd_phase phase_denied)
    pure false

  abbrev denied_by_error : String → String → String → Fields F
  denied_by_error mid step e =
      fields (("mission_id", str mid) ∷ ("step", str step) ∷ ("error", str e) ∷ [])

  abbrev denied_by_answer : String → String → Option (Fields F) → Fields F
  denied_by_answer mid step resp =
      fields (("mission_id", str mid) ∷ ("step", str step) ∷ ("response", map_value resp) ∷ [])

  -- if v != "" { m[k] = v }
  abbrev with_text : String → String → Fields F → Fields F
  with_text k v m = if is_empty v then m else entry k (str v) m

  abbrev pub register_payload : OrvdConfig F → Fields F
  register_payload c = entry "drone_id" (str c.drone_id) (
      with_text "model" c.drone_model
        (with_text "operator" c.operator (with_text "certificate_id" c.certificate_id empty)))

  unfoldable pub after_register_drone : String → Result (Option (Fields F)) → M F (Limiter F) Bool
  unfolding deny opbd_status
  after_register_drone mid (err e) = deny (denied_by_error mid "register_drone" e)
  after_register_drone mid (ok resp) =
      if not (opbd_status resp == "registered")
      then deny (denied_by_answer mid "register_drone" resp)
      else do
        modify (λ l. record l { orvd_drone_registered = true; orvd_phase = drone_registered })
        l ← gets (λ l. l)
        journal "ORVD_DRONE_REGISTERED" (only "drone_id" (str l.orvd.drone_id))
        pure true

  -- the first step of runORVDMissionLoad
  unfoldable pub register_drone : String → M F (Limiter F) Bool
  register_drone mid = do
    l ← gets (λ l. l)
    if l.orvd_drone_registered then pure true else do
      resp ← call_orvd "register_drone" (register_payload l.orvd)
      after_register_drone mid resp

  abbrev refusal_reason : Option (Fields F) → String
  refusal_reason resp =
      if is_empty (text_of resp "reason") then text_of resp "message" else text_of resp "reason"

  unfoldable pub after_register_mission : String → Result (Option (Fields F)) → M F (Limiter F) Bool
  unfolding deny opbd_status
  after_register_mission mid (err e) = deny (denied_by_error mid "register_mission" e)
  after_register_mission mid (ok resp) =
      if opbd_status resp == "rejected" || opbd_status resp == "error"
      then deny (
          fields (
            ("mission_id", str mid)
            ∷ ("step", str "register_mission")
            ∷ ("reason", str (refusal_reason resp))
            ∷ ("response", map_value resp)
            ∷ []))
      else if not (opbd_status resp == "mission_registered")
      then deny (denied_by_answer mid "register_mission" resp)
      else do
        modify (set_orvd_phase mission_registered)
        journal "ORVD_MISSION_REGISTERED" (only "mission_id" (str mid))
        pure true

  unfoldable pub after_authorize : String → Result (Option (Fields F)) → M F (Limiter F) Bool
  unfolding deny opbd_status
  after_authorize mid (err e) = deny (denied_by_error mid "authorize_mission" e)
  after_authorize mid (ok resp) =
      if not (opbd_status resp == "authorized")
      then deny (denied_by_answer mid "authorize_mission" resp)
      else do
        modify (set_orvd_phase phase_authorized)
        journal "ORVD_MISSION_AUTHORIZED" (only "mission_id" (str mid))
        pure true

  unfoldable pub authorize_mission : String → M F (Limiter F) Bool
  authorize_mission mid = do
    resp ← call_orvd "authorize_mission" (only "mission_id" (str mid))
    after_authorize mid resp

  -- steps one after the other, up to the first that is refused
  abbrev pub and_then : M F (Limiter F) Bool → M F (Limiter F) Bool → M F (Limiter F) Bool
  and_then m n = do go_on ← m; if go_on then n else pure false

  -- runORVDMissionLoad, without a topic of the authority
  abbrev pub load_without_authority : M F (Limiter F) (Status × String)
  load_without_authority = do
    modify (λ l. withdraw_takeoff (set_orvd_phase phase_authorized l))
    pure (verdict true)

  -- runORVDMissionLoad, with LIMITER_ORVD_MOCK_SUCCESS
  abbrev pub load_with_stub : String → M F (Limiter F) (Status × String)
  load_with_stub mid = do
    modify (λ l. record (withdraw_takeoff (set_orvd_phase phase_authorized l)) {
      orvd_drone_registered = true;
    })
    journal "ORVD_MISSION_AUTHORIZED" (
        fields (
          ("mission_id", str mid)
          ∷ ("stub", bool true)
          ∷ ("reason", str "LIMITER_ORVD_MOCK_SUCCESS")
          ∷ []))
    pure (verdict true)

module _ {F : Type 0} (fl : Floats F) where
  abbrev cons_point : Option F → Option F → Maps F → Maps F
  cons_point (some lat) (some lon) route =
      cons_map (fields (("lat", float64 lat) ∷ ("lon", float64 lon) ∷ [])) route
  cons_point _ _ route = route

  -- missionStepsToRoute
  unfoldable pub route_of : Items F → Maps F
  unfolding step_float
  route_of nil = no_maps
  route_of (cons (obj step) rest) =
      cons_point (step_float fl step "lat") (step_float fl step "lon") (route_of rest)
  route_of (cons _ rest) = route_of rest

  -- the velocity of the mission, where it is a positive float64
  abbrev with_velocity : Option (Value F) → Fields F → Fields F
  with_velocity (some (float64 v)) m =
      if fl.lt (lit fl 0) v then entry "velocity" (float64 v) m else m
  with_velocity _ m = m

  abbrev pub mission_payload : String → String → Fields F → String → Fields F
  mission_payload drone_id mid mission time = with_velocity (get mission "velocity") (
      fields (
        ("drone_id", str drone_id)
        ∷ ("mission_id", str mid)
        ∷ ("route", maps (route_of (get_items mission "steps")))
        ∷ ("time", str time)
        ∷ []))

  unfoldable pub register_mission : Fields F → M F (Limiter F) Bool
  register_mission mission = do
    time ← date_time_now
    l ← gets (λ l. l)
    resp ←
        call_orvd "register_mission"
          (mission_payload l.orvd.drone_id (get_string mission "mission_id") mission time)
    after_register_mission (get_string mission "mission_id") resp

  -- runORVDMissionLoad, in the three steps that the authority must grant
  abbrev pub load_with_authority : Fields F → M F (Limiter F) (Status × String)
  load_with_authority mission = do
    modify withdraw_takeoff
    granted ←
        and_then (register_drone (get_string mission "mission_id")) (
          and_then (register_mission mission) (authorize_mission (get_string mission "mission_id")))
    pure (verdict granted)

  -- runORVDMissionLoad: the status and the error
  unfoldable pub run_orvd_mission_load : Fields F → M F (Limiter F) (Status × String)
  run_orvd_mission_load mission = do
    l ← gets (λ l. l)
    if is_empty l.orvd.topic
        then load_without_authority
        else if l.orvd.mock_success
        then load_with_stub (get_string mission "mission_id")
        else load_with_authority mission
