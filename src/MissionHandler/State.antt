-- ===== src/MissionHandler/State.antt =====
-- mission_handler.go: the state of the mission handler, and validateMission.
use drones.Common.{ℕ, ◌+◌, String, append, not, Option, none, some, is_empty, itoa, if◌then◌else◌}
use drones.Message.{Fields, Value, Items, nil, cons, obj, has, get_string, get_items}
use drones.Component.{ProxyClient}

-- MissionHandler, less the base component; a nil map is `none`
pub record MissionHandler (F : Type 0) : Type 0 where
  pub proxy : ProxyClient
  pub autopilot_topic : String
  pub journal_topic : String
  pub limiter_topic : String
  pub last_mission : Option (Fields F)
  pub last_error : String

module _ {F : Type 0} where
  -- the fields that New sets apart from the configuration
  unfoldable pub fresh : MissionHandler F → MissionHandler F
  fresh m = record m { last_mission = none; last_error = "" }

  -- the error of the step with number i, or `none`
  unfoldable pub check_step : ℕ → Value F → Option String
  check_step i (obj step) =
      if not (has step "lat")
      then some (append "missing_lat_in_step_" (itoa i))
      else if not (has step "lon")
      then some (append "missing_lon_in_step_" (itoa i))
      else if not (has step "alt_m")
      then some (append "missing_alt_m_in_step_" (itoa i))
      else none
  check_step i _ = some (append "invalid_step_" (itoa i))

  -- the loop, from the step with number i on
  unfoldable pub check_steps : ℕ → Items F → Option String
  unfolding check_step
  check_steps i nil = none
  check_steps i (cons s rest) =
      let later = check_steps (i + 1) rest in
      elim (check_step i s) [ none ↦ later | some e ↦ some e ]

  abbrev pub refuse_empty : Items F → Option String
  refuse_empty nil = some "empty_steps"
  refuse_empty (cons s rest) = check_steps 0 (cons s rest)

  -- validateMission of a mission that is not nil: the error, or `none` for a valid mission
  unfoldable pub validate_mission : Fields F → Option String
  unfolding check_steps
  validate_mission mission =
      if is_empty (get_string mission "mission_id")
      then some "invalid_mission_id"
      else refuse_empty (get_items mission "steps")
