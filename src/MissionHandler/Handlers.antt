-- ===== src/MissionHandler/Handlers.antt =====
-- mission_handler.go: the messages of the mission handler.
use drones.Common.{
  String, Bool, true, false, not, Option, none, some, [], ◌∷◌, is_empty, if◌then◌else◌,
}
use drones.Message.{Fields, fields, only, str, bool, obj, get_string, get_map, get_bool, map_value}
use drones.Bus.{Result, ok, err, M, pure, gets, modify, ◌>>=◌, ◌>>◌}
use drones.Floats.{Floats}
use drones.Component.{is_trusted_sender, log_to_journal, proxy_request}
use drones.MissionHandler.State.{MissionHandler, validate_mission}
use drones.MissionHandler.Wpl.{parse_wpl}

module _ {F : Type 0} where
  -- logToJournal
  abbrev pub journal : String → Fields F → M F (MissionHandler F) (Unit {0})
  journal event details = do
    m ← gets (λ m. m)
    log_to_journal m.proxy m.journal_topic "mission_handler" event details

  abbrev pub keep_error : String → MissionHandler F → MissionHandler F
  keep_error e m = record m { last_error = e }

  abbrev pub failed : String → Fields F
  failed e = fields (("ok", bool false) ∷ ("error", str e) ∷ [])

  -- the end of a handler that fails: the error is kept, logged, and answered
  unfoldable pub fail : String → String → Fields F → M F (MissionHandler F) (Option (Fields F))
  fail event e details = do modify (keep_error e); journal event details; pure (some (failed e))

  abbrev pub invalid : String → M F (MissionHandler F) (Option (Fields F))
  invalid e = fail "MISSION_HANDLER_VALIDATION_ERROR" e (only "error" (str e))

  abbrev pub accepted : Fields F
  accepted = only "ok" (bool true)

  -- resp != nil && resp["ok"] != true
  abbrev pub is_refusal : Option (Fields F) → Bool
  is_refusal none = false
  is_refusal (some resp) = not (get_bool resp "ok")

  abbrev pub refusal_text : Option (Fields F) → String → String
  refusal_text none default = default
  refusal_text (some resp) default =
      if is_empty (get_string resp "error") then default else get_string resp "error"

  abbrev with_id : String → String → Fields F
  with_id e mid = fields (("error", str e) ∷ ("mission_id", str mid) ∷ [])

  abbrev pub mission_id : Fields F → String
  mission_id mission = get_string mission "mission_id"

  abbrev failed_at_autopilot : String → String → M F (MissionHandler F) (Option (Fields F))
  failed_at_autopilot mid e = fail "MISSION_HANDLER_AUTOPILOT_ERROR" e (with_id e mid)

  -- what handleLoadMission makes of the autopilot's answer
  unfoldable pub after_autopilot :
      String → Result (Option (Fields F)) → M F (MissionHandler F) (Option (Fields F))
  unfolding fail
  after_autopilot mid (err e) = failed_at_autopilot mid "autopilot_no_response"
  after_autopilot mid (ok resp) =
      if is_refusal resp then failed_at_autopilot mid (refusal_text resp "autopilot_error") else do
        journal "MISSION_HANDLER_MISSION_SENT_TO_AUTOPILOT" (only "mission_id" (str mid))
        pure (some accepted)

  abbrev pub mission_load : String → Fields F → M F (MissionHandler F) (Result (Option (Fields F)))
  mission_load topic mission = do
    m ← gets (λ m. m)
    proxy_request m.proxy topic "mission_load" (only "mission" (obj mission))

  unfoldable pub send_to_autopilot : Fields F → M F (MissionHandler F) (Option (Fields F))
  unfolding after_autopilot
  send_to_autopilot mission = do
    m ← gets (λ m. m)
    resp ← mission_load m.autopilot_topic mission
    after_autopilot (mission_id mission) resp

  abbrev failed_at_limiter : String → String → M F (MissionHandler F) (Option (Fields F))
  failed_at_limiter mid e = fail "MISSION_HANDLER_LIMITER_ERROR" e (with_id e mid)

  -- what it makes of the limiter's answer
  unfoldable pub after_limiter :
      Fields F → Result (Option (Fields F)) → M F (MissionHandler F) (Option (Fields F))
  unfolding fail send_to_autopilot
  after_limiter mission (err e) = failed_at_limiter (mission_id mission) "limiter_no_response"
  after_limiter mission (ok resp) =
      if is_refusal resp
      then failed_at_limiter (mission_id mission) (refusal_text resp "limiter_rejected")
      else do
        journal "MISSION_HANDLER_MISSION_SENT_TO_LIMITER"
            (only "mission_id" (str (mission_id mission)))
        send_to_autopilot mission

  -- handleLoadMission with a valid mission
  unfoldable pub load_valid : Fields F → M F (MissionHandler F) (Option (Fields F))
  unfolding after_limiter
  load_valid mission = do
    modify (λ m. record m { last_mission = some mission; last_error = "" })
    journal "MISSION_HANDLER_MISSION_RECEIVED" (only "mission_id" (str (mission_id mission)))
    m ← gets (λ m. m)
    resp ← mission_load m.limiter_topic mission
    after_limiter mission resp

  -- what both handlers do with the result of parseMission
  unfoldable pub check_parsed :
      (Fields F → M F (MissionHandler F) (Option (Fields F)))
      → Result (Fields F)
      → M F (MissionHandler F) (Option (Fields F))
  unfolding fail
  check_parsed next (err e) = invalid e
  check_parsed next (ok mission) = elim (validate_mission mission) [
    | some e ↦ invalid e
    | none ↦ next mission
  ]

  abbrev pub only_validate : Fields F → M F (MissionHandler F) (Option (Fields F))
  only_validate mission = do modify (keep_error ""); pure (some accepted)

  unfoldable pub handle_get_state : Fields F → M F (MissionHandler F) (Option (Fields F))
  handle_get_state message =
      if not (is_trusted_sender message "security_monitor") then pure none else do
        m ← gets (λ m. m)
        pure (
            some (
              fields (
                ("last_mission", map_value m.last_mission)
                ∷ ("last_error", str m.last_error)
                ∷ [])))

module _ {F : Type 0} (fl : Floats F) (parse_float : String → Option F) where
  abbrev given_map : Option (Fields F) → Result (Fields F)
  given_map (some mission) = ok mission
  given_map none = err "invalid_input_wpl_or_mission_required"

  -- parseMission
  unfoldable pub parse_mission : Fields F → M F (MissionHandler F) (Result (Fields F))
  parse_mission payload =
      if not (is_empty (get_string payload "wpl_content"))
      then parse_wpl fl parse_float (get_string payload "wpl_content")
          (get_string payload "mission_id")
      else pure (given_map (get_map payload "mission"))

  -- the beginning that handleLoadMission and handleValidateOnly share
  unfoldable pub with_valid :
      (Fields F → M F (MissionHandler F) (Option (Fields F)))
      → Option (Fields F)
      → M F (MissionHandler F) (Option (Fields F))
  unfolding parse_mission check_parsed
  with_valid next none = invalid "invalid_input"
  with_valid next (some payload) = do parsed ← parse_mission payload; check_parsed next parsed

  unfoldable pub handle_load_mission : Fields F → M F (MissionHandler F) (Option (Fields F))
  unfolding with_valid load_valid
  handle_load_mission message =
      if not (is_trusted_sender message "security_monitor")
      then pure none
      else with_valid load_valid (get_map message "payload")

  unfoldable pub handle_validate_only : Fields F → M F (MissionHandler F) (Option (Fields F))
  unfolding with_valid
  handle_validate_only message =
      if not (is_trusted_sender message "security_monitor")
      then pure none
      else with_valid only_validate (get_map message "payload")
