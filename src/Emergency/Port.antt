-- ===== src/Emergency/Port.antt =====
-- droneport.go and droneport_client.go: how the answers of the drone port are read.
use drones.Common.{
  ℕ, zero, suc, String, Bool, false, ◌&&◌, ◌||◌, not, ◌==◌, Option, none, some, is_empty,
  if◌then◌else◌,
}
use drones.Message.{
  Fields, Value, Items, nil, cons, float64, float32, int, int64, str, obj, get, has, is_nil,
  get_string, get_map, get_bool,
}
use drones.Floats.{Floats}

-- One look at a map: the body is found, or the search goes on inside.
pub data Look (F : Type 0) : Type 0 where
  found : Fields F → Look F
  inside : Fields F → Look F

module _ {F : Type 0} where
  -- a map that holds an answer itself
  abbrev pub is_body : Fields F → Bool
  is_body m =
      not (is_nil (get m "error"))
      || has m "approved"
      || has m "port_id"
      || has m "battery"
      || has m "drones"

  -- the test on the payload of a map
  abbrev pub is_body_payload : Fields F → Bool
  is_body_payload m =
      not (is_nil (get m "error"))
      || not (is_nil (get m "approved"))
      || not (is_nil (get m "port_id"))
      || not (is_nil (get m "battery"))
      || not (is_nil (get m "drones"))

  abbrev look_in_payload : Fields F → Option (Fields F) → Look F
  look_in_payload m none = found m
  look_in_payload m (some pl) = elim (get_map pl "target_response") [
    | some tr ↦ inside tr
    | none ↦ found m
  ]

  abbrev look_further : Fields F → Look F
  look_further m = elim (get_map m "target_response") [
    | some tr ↦ inside tr
    | none ↦ look_in_payload m (get_map m "payload")
  ]

  abbrev look_at_payload : Fields F → Option (Fields F) → Look F
  look_at_payload m none = look_further m
  look_at_payload m (some pl) = if is_body_payload pl then found pl else look_further m

  -- one round of the loop
  unfoldable pub look : Fields F → Look F
  look m = if is_body m then found m else look_at_payload m (get_map m "payload")

  -- the loop, in at most n rounds
  unfoldable pub unwrap : ℕ → Fields F → Fields F
  unwrap zero m = m
  unwrap (suc n) m = elim (look m) [ found b ↦ b | inside tr ↦ unwrap n tr ]

  -- unwrapDroneportBody; a nil map is `none`
  unfoldable pub unwrap_droneport_body : Option (Fields F) → Option (Fields F)
  unfolding unwrap look
  unwrap_droneport_body none = none
  unwrap_droneport_body (some resp) = some (unwrap 6 resp)

  abbrev pub has_error : Fields F → Bool
  has_error m = not (is_nil (get m "error"))

  -- droneportApproved of a map that is not nil
  abbrev pub droneport_approved : Fields F → Bool
  droneport_approved m = not (has_error m) && get_bool m "approved"

  abbrev body_lands : Option (Fields F) → Bool
  body_lands none = false
  body_lands (some m) = not (has_error m) && (droneport_approved m || has m "port_id")

  -- droneportLandingOK
  unfoldable pub droneport_landing_ok : Option (Fields F) → Bool
  unfolding unwrap_droneport_body
  droneport_landing_ok resp = body_lands (unwrap_droneport_body resp)

  abbrev body_takes_off : Option (Fields F) → Bool
  body_takes_off none = false
  body_takes_off (some m) =
      not (has_error m)
      && (if droneport_approved m then has m "battery" else has m "port_id" && has m "battery")

  -- droneportTakeoffOK
  unfoldable pub droneport_takeoff_ok : Option (Fields F) → Bool
  unfolding unwrap_droneport_body
  droneport_takeoff_ok resp = body_takes_off (unwrap_droneport_body resp)

  abbrev body_string : Option (Fields F) → String → String
  body_string none k = ""
  body_string (some m) k = get_string m k

  -- the text of an error in the body, or the default
  abbrev pub error_text : Option (Fields F) → String → String
  error_text resp default =
      if is_empty (body_string (unwrap_droneport_body resp) "error")
      then default
      else body_string (unwrap_droneport_body resp) "error"

  abbrev pub port_id_of : Option (Fields F) → String
  port_id_of resp = body_string (unwrap_droneport_body resp) "port_id"

module _ {F : Type 0} (fl : Floats F) (scan_float : String → Option F) where
  -- parseDroneportBattery; scan_float is fmt.Sscanf with "%f"
  unfoldable pub parse_droneport_battery : Option (Value F) → Option F
  parse_droneport_battery (some (float64 x)) = some x
  parse_droneport_battery (some (float32 x)) = some x
  parse_droneport_battery (some (int n)) = some (fl.of_int n)
  parse_droneport_battery (some (int64 n)) = some (fl.of_int n)
  parse_droneport_battery (some (str s)) =
      if is_empty s || s == "unknown" then none else scan_float s
  parse_droneport_battery _ = none

  abbrev is_above : F → Option F → Bool
  is_above limit none = false
  is_above limit (some batt) = fl.lt limit batt

  -- one entry of the list of drones
  unfoldable pub is_charged : String → F → Value F → Bool
  unfolding parse_droneport_battery
  is_charged drone_id limit (obj m) =
      get_string m "drone_id" == drone_id
      && is_above limit (parse_droneport_battery (get m "battery"))
  is_charged drone_id limit _ = false

  -- the loop of isDroneReady
  unfoldable pub any_charged : String → F → Items F → Bool
  unfolding is_charged
  any_charged drone_id limit nil = false
  any_charged drone_id limit (cons d ds) =
      is_charged drone_id limit d || any_charged drone_id limit ds

  abbrev some_or : Option F → Option F → Option F
  some_or (some x) other = some x
  some_or none other = other

  abbrev default_to : F → Option F → F
  default_to d (some x) = x
  default_to d none = d

  -- optionalLandingBattery of a payload that is not nil
  unfoldable pub optional_landing_battery : Fields F → F → F
  unfolding parse_droneport_battery
  optional_landing_battery payload default = default_to default (
      some_or (parse_droneport_battery (get payload "battery"))
        (parse_droneport_battery (get payload "battery_pct")))
