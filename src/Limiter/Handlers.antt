-- ===== src/Limiter/Handlers.antt =====
-- limiter.go: the messages of the limiter.
use drones.Common.{
  String, Bool, true, false, ◌||◌, not, Option, none, some, List, [], ◌∷◌, is_empty, if◌then◌else◌,
}
use drones.Message.{Fields, Value, fields, only, str, bool, float64, get, get_string, get_map}
use drones.Bus.{M, pure, gets, modify, ◌>>=◌, ◌>>◌}
use drones.Floats.{Floats, lit}
use drones.Component.{is_trusted_sender}
use drones.Limiter.State.{
  Status, pending, out_of_bounds, is_authorized, status_text, state_text, phase_text, phase_pending,
  Limiter, journal,
}
use drones.Limiter.Bounds.{validate_mission_bounds}
use drones.Limiter.Orvd.{set_orvd_phase, withdraw_takeoff, publish_emergency_from_orvd}
use drones.Limiter.Registration.{run_orvd_mission_load}
use drones.Limiter.Takeoff.{run_orvd_request_takeoff, run_orvd_complete_mission}
use drones.Limiter.Fence.{poll_navigation_if_due}

abbrev pub or_default : String → String → String
or_default e d = if is_empty e then d else e

module _ {F : Type 0} where
  abbrev pub refused : String → Fields F
  refused e = fields (("ok", bool false) ∷ ("error", str e) ∷ [])

  abbrev pub refused_with : String → Status → Fields F
  refused_with e status =
      fields
        (("ok", bool false) ∷ ("error", str e) ∷ ("orvd_status", str (status_text status)) ∷ [])

  -- the writes before the authority is asked, and after
  abbrev pub await_orvd : String → Limiter F → Limiter F
  await_orvd mid l =
      withdraw_takeoff
        (set_orvd_phase phase_pending (record l { orvd_status = pending; orvd_mission_id = mid }))

  abbrev pub keep_verdict : Fields F → Status → Limiter F → Limiter F
  keep_verdict mission status l = record l {
    orvd_status = status;
    orvd_mission_id = get_string mission "mission_id";
    mission = if is_authorized status then some mission else l.mission;
  }

  abbrev pub load_reply : String → Status → String → Fields F
  load_reply mid status e =
      if is_authorized status
      then fields (
          ("ok", bool true)
          ∷ ("orvd_status", str (status_text status))
          ∷ ("mission_id", str mid)
          ∷ [])
      else refused_with (or_default e "orvd_denied") status

module _ {F : Type 0} (fl : Floats F) where
  -- handleMissionLoad, after the payload is read and the bounds are checked
  unfoldable pub load_mission : Fields F → Option String → M F (Limiter F) (Option (Fields F))
  load_mission mission (some bounds_err) = do
    let mid = get_string mission "mission_id"
    modify (λ l. record l { orvd_status = out_of_bounds; orvd_mission_id = mid })
    journal "LIMITER_MISSION_OUT_OF_BOUNDS"
        (fields (("mission_id", str mid) ∷ ("error", str bounds_err) ∷ []))
    pure (some (refused "mission_out_of_bounds"))
  load_mission mission none = do
    let mid = get_string mission "mission_id"
    modify (await_orvd mid)
    verdict ← run_orvd_mission_load fl mission
    modify (keep_verdict mission verdict.0)
    pure (some (load_reply mid verdict.0 verdict.1))

  abbrev pub check_and_load : Option (Fields F) → M F (Limiter F) (Option (Fields F))
  check_and_load none = pure (some (refused "invalid_mission"))
  check_and_load (some mission) = do
    l ← gets (λ l. l)
    load_mission mission (validate_mission_bounds fl mission l.orvd.max_mission_alt_m)

  abbrev pub load_payload : Option (Fields F) → M F (Limiter F) (Option (Fields F))
  load_payload none = pure (some (refused "invalid_mission"))
  load_payload (some payload) = check_and_load (get_map payload "mission")

  unfoldable pub handle_mission_load : Fields F → M F (Limiter F) (Option (Fields F))
  handle_mission_load message =
      if not (is_trusted_sender message "security_monitor")
      then pure none
      else load_payload (get_map message "payload")

  -- if v, ok := m[k].(float64); ok && v > 0 { … = v }
  unfoldable pub positive_or : F → Option (Value F) → F
  positive_or old (some (float64 v)) = if fl.lt (lit fl 0) v then v else old
  positive_or old _ = old

  abbrev pub apply_limits : Fields F → Limiter F → Limiter F
  apply_limits m l = record l {
    max_distance_from_path_m =
        positive_or l.max_distance_from_path_m (get m "max_distance_from_path_m");
    max_alt_deviation_m = positive_or l.max_alt_deviation_m (get m "max_alt_deviation_m");
  }

  abbrev pub apply_constraints : Option (Fields F) → Limiter F → Limiter F
  apply_constraints none l = l
  apply_constraints (some constraints) l = apply_limits constraints l

  -- applyConfigPayload
  unfoldable pub apply_config_payload : Fields F → Limiter F → Limiter F
  apply_config_payload payload l =
      apply_constraints (get_map payload "constraints") (apply_limits payload l)

  -- isLimiterConfigSender
  abbrev pub is_limiter_config_sender : Fields F → Bool
  is_limiter_config_sender message =
      is_trusted_sender message "security_monitor" || is_trusted_sender message "orvd"

  abbrev limits : Limiter F → List (String × Value F) → List (String × Value F)
  limits l rest =
      ("max_distance_from_path_m", float64 l.max_distance_from_path_m)
      ∷ ("max_alt_deviation_m", float64 l.max_alt_deviation_m)
      ∷ rest

  abbrev pub update_limits : Bool → Option (Fields F) → M F (Limiter F) (Option (Fields F))
  update_limits from_orvd none = pure (some (refused "invalid_payload"))
  update_limits from_orvd (some payload) = do
    modify (apply_config_payload payload)
    l ← gets (λ l. l)
    if from_orvd then journal "ORVD_PUSH_UPDATE_CONFIG" (fields (limits l [])) else pure tt
    pure (some (fields (("ok", bool true) ∷ limits l [])))

  unfoldable pub handle_update_config : Fields F → M F (Limiter F) (Option (Fields F))
  unfolding apply_config_payload
  handle_update_config message =
      if not (is_limiter_config_sender message)
      then pure none
      else update_limits (is_trusted_sender message "orvd") (get_map message "payload")

  -- the mission of the payload, or the one that the authority knows
  abbrev pub named_mission : Option (Fields F) → Limiter F → String
  named_mission none l = l.orvd_mission_id
  named_mission (some payload) l = or_default (get_string payload "mission_id") l.orvd_mission_id

  abbrev pub takeoff_reply : String → Bool × String → Fields F
  takeoff_reply mid (true, e) =
      fields
        (("ok", bool true) ∷ ("orvd_takeoff_authorized", bool true) ∷ ("mission_id", str mid) ∷ [])
  takeoff_reply mid (false, e) = refused (or_default e "orvd_takeoff_denied")

  unfoldable pub handle_orvd_takeoff : Fields F → M F (Limiter F) (Option (Fields F))
  handle_orvd_takeoff message =
      if not (is_trusted_sender message "security_monitor") then pure none else do
        l ← gets (λ l. l)
        let mid = named_mission (get_map message "payload") l
        if is_empty mid
            then pure (some (refused "no_mission"))
            else if not (is_authorized l.orvd_status)
            then pure (some (refused_with "orvd_not_authorized" l.orvd_status))
            else do
              poll_navigation_if_due fl
              granted ← run_orvd_request_takeoff fl mid
              pure (some (takeoff_reply mid granted))

  abbrev pub complete_payload : Option (Fields F) → M F (Limiter F) (Option (Fields F))
  complete_payload none = pure (some (refused "invalid_payload"))
  complete_payload (some payload) = do
    l ← gets (λ l. l)
    let mid = named_mission (some payload) l
    if is_empty mid then pure (some (refused "no_mission")) else do
      run_orvd_complete_mission fl mid (or_default (get_string payload "result") "success")
      pure (some (fields (("ok", bool true) ∷ ("mission_id", str mid) ∷ [])))

  unfoldable pub handle_orvd_complete : Fields F → M F (Limiter F) (Option (Fields F))
  handle_orvd_complete message =
      if not (is_trusted_sender message "security_monitor")
      then pure none
      else complete_payload (get_map message "payload")

  abbrev drone_of : Option (Fields F) → String
  drone_of none = ""
  drone_of (some payload) = get_string payload "drone_id"

  unfoldable pub handle_revoke_takeoff : Fields F → M F (Limiter F) (Option (Fields F))
  handle_revoke_takeoff message = if not (is_trusted_sender message "orvd") then pure none else do
    journal "ORVD_REVOKE_TAKEOFF" (only "drone_id" (str (drone_of (get_map message "payload"))))
    modify withdraw_takeoff
    publish_emergency_from_orvd "takeoff_revoked"
    pure (some (fields (("ok", bool true) ∷ ("status", str "landing_required") ∷ [])))

module _ {F : Type 0} where
  abbrev is_loaded : Option (Fields F) → Bool
  is_loaded none = false
  is_loaded (some m) = true

  -- the payload of handleGetState
  abbrev pub state_fields : Limiter F → Fields F
  state_fields l = fields (
      ("state", str (state_text l.state))
      ∷ ("max_distance_from_path_m", float64 l.max_distance_from_path_m)
      ∷ ("max_alt_deviation_m", float64 l.max_alt_deviation_m)
      ∷ ("orvd_status", str (status_text l.orvd_status))
      ∷ ("orvd_mission_id", str l.orvd_mission_id)
      ∷ ("orvd_phase", str (phase_text l.orvd_phase))
      ∷ ("orvd_takeoff_authorized", bool l.orvd_takeoff_authorized)
      ∷ ("mission_loaded", bool (is_loaded l.mission))
      ∷ [])

  unfoldable pub handle_get_state : Fields F → M F (Limiter F) (Option (Fields F))
  handle_get_state message = do l ← gets (λ l. l); pure (some (state_fields l))
