-- ===== src/Motors.antt =====
-- motors/src/motors.go: the actuators. Commands come from the security monitor alone and are
-- published to the simulator's topic.
pub mod Commands
use drones.Common.{
  String, append, Bool, true, false, Option, none, some, List, [], ◌∷◌, if◌then◌else◌, ◌&&◌, not,
}
use drones.Message.{
  Fields, Value, null, bool, float64, float32, int, int32, int64, str, obj, empty, fields, get, put,
  get_map,
}
use drones.Bus.{Result, ok, err, M, pure, gets, modify, now, publish, ◌>>=?◌, ◌>>=◌, ◌>>◌}
use drones.Floats.{Floats, lit}
use drones.Component.{is_trusted_sender}

pub data Mode : Type 0 where
  idle tracking landing : Mode

abbrev pub mode_text : Mode → String
mode_text idle = "IDLE"
mode_text tracking = "TRACKING"
mode_text landing = "LANDING"

-- Motors, less the base component; a nil target is `none`
pub record Motors (F : Type 0) : Type 0 where
  pub sitl_topic : String
  pub sitl_mode : String
  pub drone_id : String
  pub mode : Mode
  pub last_target : Option (Fields F)
  pub last_cmd_ts : F
  pub temp_c : F

-- the state of New, after the environment's texts are read
unfoldable pub new_motors : {F : Type 0} → Floats F → String → String → String → F → Motors F
new_motors fl sitl_topic sitl_mode drone_id temp_c = record {
  sitl_topic = sitl_topic;
  sitl_mode = sitl_mode;
  drone_id = drone_id;
  mode = idle;
  last_target = none;
  last_cmd_ts = lit fl 0;
  temp_c = temp_c;
}

abbrev pub float_keys : List String
float_keys = "heading_deg" ∷ "ground_speed_mps" ∷ "alt_m" ∷ "vx" ∷ "vy" ∷ "vz" ∷ "lat" ∷ "lon" ∷ []

module _ {F : Type 0} (fl : Floats F) where
  unfoldable pub to_float : Value F → Option F
  to_float (float64 x) = some x
  to_float (float32 x) = some x
  to_float (int n) = some (fl.of_int n)
  to_float (int32 n) = some (fl.of_int n)
  to_float (int64 n) = some (fl.of_int n)
  to_float _ = none

  unfoldable pub float_from_map : Fields F → String → Option F
  unfolding to_float
  float_from_map m key = elim (get m key) [ none ↦ none | some v ↦ to_float v ]

  unfoldable pub clamp : F → F → F → F
  clamp v min max = if fl.lt v min then min else if fl.lt max v then max else v

  abbrev pub or_zero : Option F → F
  or_zero none = lit fl 0
  or_zero (some x) = x

  -- vx and vy: from the heading and the ground speed if both are given and neither component is
  abbrev pub horizontal : Option F → Option F → Option F → Option F → F × F
  horizontal none none (some heading) (some speed) =
      let rad = fl.div (fl.mul heading fl.pi) (lit fl 180) in
      (fl.mul speed (fl.sin rad), fl.mul speed (fl.cos rad))
  horizontal vx vy _ _ = (or_zero vx, or_zero vy)

  abbrev pub sitl_command : String → F → F → F → F → Fields F
  sitl_command drone_id vx vy vz mag_heading = fields (
      ("drone_id", str drone_id)
      ∷ ("vx", float64 vx)
      ∷ ("vy", float64 vy)
      ∷ ("vz", float64 vz)
      ∷ ("mag_heading", float64 mag_heading)
      ∷ [])

  unfoldable pub land_sitl_command : String → Fields F
  land_sitl_command drone_id =
      sitl_command drone_id (lit fl 0) (lit fl 0) (fl.neg (fl.dec 5 1)) (lit fl 0)

  -- targetToSITLCommand, which never fails
  unfoldable pub target_to_sitl_command : String → Fields F → Fields F
  target_to_sitl_command drone_id target =
      let vx = float_from_map target "vx" in
      let vy = float_from_map target "vy" in
      let vz = float_from_map target "vz" in
      let heading = float_from_map target "heading_deg" in
      let speed = float_from_map target "ground_speed_mps" in
      let plane = horizontal vx vy heading speed in
      sitl_command drone_id (clamp plane.0 (fl.neg (lit fl 50)) (lit fl 50))
        (clamp plane.1 (fl.neg (lit fl 50)) (lit fl 50))
        (clamp (or_zero vz) (fl.neg (lit fl 10)) (lit fl 10))
        (clamp (or_zero heading) (lit fl 0) (fl.dec 3599 1))

  -- one key of the loop of sanitizeTarget
  unfoldable pub sanitize_key : Fields F → String → Fields F → Result (Fields F)
  sanitize_key payload k target = elim (get payload k) [
    | none ↦ ok target
    | some v ↦ elim (to_float v) [ none ↦ err (append "invalid_" k) | some x ↦ ok (put target k v) ]
  ]

  unfoldable pub sanitize_keys : Fields F → List String → Fields F → Result (Fields F)
  sanitize_keys payload [] target = ok target
  sanitize_keys payload (k ∷ ks) target =
      sanitize_key payload k target >>=? sanitize_keys payload ks

  unfoldable pub sanitize_drop : Fields F → Fields F → Result (Fields F)
  sanitize_drop payload target = elim (get payload "drop") [
    | none ↦ ok target
    | some (bool b) ↦ ok (put target "drop" (bool b))
    | some _ ↦ err "invalid_drop"
  ]

  abbrev pub refuse_empty : Fields F → Result (Fields F)
  refuse_empty empty = err "empty_target"
  refuse_empty m = ok m

  unfoldable pub sanitize_target : Fields F → Result (Fields F)
  sanitize_target payload =
      sanitize_keys payload float_keys empty >>=? sanitize_drop payload >>=? refuse_empty

  -- emitSITL; an error of the broker is only printed
  unfoldable pub emit_sitl : Fields F → M F (Motors F) (Unit {0})
  emit_sitl sitl_cmd = do m ← gets (λ m. m); publish m.sitl_topic sitl_cmd; pure tt

  abbrev pub motors_error : String → Fields F
  motors_error e = fields (("ok", bool false) ∷ ("error", str e) ∷ [])

  abbrev pub motors_ok : Mode → Fields F
  motors_ok mode = fields (("ok", bool true) ∷ ("mode", str (mode_text mode)) ∷ [])

  unfoldable pub track : Result (Fields F) → M F (Motors F) (Option (Fields F))
  unfolding emit_sitl
  track (err e) = pure (some (motors_error e))
  track (ok target) = do
    m ← gets (λ m. m)
    t ← now
    modify λ m. record m { last_target = some target; mode = tracking; last_cmd_ts = fl.nanos t }
    emit_sitl (target_to_sitl_command m.drone_id target)
    pure (some (motors_ok tracking))

  unfoldable pub handle_set_target : Fields F → M F (Motors F) (Option (Fields F))
  unfolding track
  handle_set_target message =
      if not (is_trusted_sender message "security_monitor")
      then pure none
      else elim (get_map message "payload") [
        | none ↦ pure (some (motors_error "invalid_payload"))
        | some payload ↦ track (sanitize_target payload)
      ]

  unfoldable pub handle_land : Fields F → M F (Motors F) (Option (Fields F))
  unfolding emit_sitl
  handle_land message = if not (is_trusted_sender message "security_monitor") then pure none else do
    t ← now
    modify λ m. record m { mode = landing; last_cmd_ts = fl.nanos t }
    m ← gets (λ m. m)
    emit_sitl (land_sitl_command m.drone_id)
    pure (some (motors_ok landing))

  abbrev target_value : Option (Fields F) → Value F
  target_value none = null
  target_value (some m) = obj m

  unfoldable pub handle_get_state : Fields F → M F (Motors F) (Option (Fields F))
  handle_get_state message = do
    m ← gets (λ m. m)
    pure (
        some (
          fields (
            ("mode", str (mode_text m.mode))
            ∷ ("last_target", target_value m.last_target)
            ∷ ("last_cmd_ts", float64 m.last_cmd_ts)
            ∷ ("temperature_c", float64 m.temp_c)
            ∷ ("sitl_mode", str m.sitl_mode)
            ∷ ("sitl_drone_id", str m.drone_id)
            ∷ [])))
