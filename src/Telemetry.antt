-- ===== src/Telemetry.antt =====
-- telemetry/src/telemetry.go: polls navigation, motors and cargo, and posts what they say for the analytics.
-- sdk.TelemetryLog, a struct inside a message, is the map that its JSON tags give on the wire.
pub mod Post
pub mod Startup
use drones.Common.{
  ℕ, ◌/◌, ltb, String, Bool, true, false, not, Option, none, some, List, [], ◌∷◌, ◌++◌,
  if◌then◌else◌,
}
use drones.Message.{
  ℤ, pos, negsuc, Fields, Value, float64, float32, int, int32, int64, str, obj, empty, fields, only,
  get, get_map, map_value, copy_into,
}
use drones.Bus.{Result, ok, err, M, pure, gets, modify, now, ◌>>=◌, ◌>>◌}
use drones.Floats.{Floats, lit}
use drones.Component.{ProxyClient, proxy_request, proxy_publish_async, is_trusted_sender}

-- the fields of AnalyticsClient that the telemetry reads; of a nil client `enabled` is false
pub record Analytics : Type 0 where
  pub enabled : Bool
  pub api_version : String
  pub drone : String
  pub drone_id : ℤ

-- Telemetry, less the base component; a nil map is `none`
pub record Telemetry (F : Type 0) : Type 0 where
  pub proxy : ProxyClient
  pub journal_topic : String
  pub navigation_topic : String
  pub motors_topic : String
  pub cargo_topic : String
  pub default_battery_pct : ℤ
  pub analytics : Analytics
  pub last_motors : Option (Fields F)
  pub last_cargo : Option (Fields F)
  pub last_navigation : Option (Fields F)
  pub last_poll_ts : F

module _ {F : Type 0} where
  -- the first of two that is there
  abbrev pub first_of : Option F → Option F → Option F
  first_of (some x) other = some x
  first_of none other = other

  abbrev answered : Result (Option (Fields F)) → Option (Fields F)
  answered (ok pl) = pl
  answered (err e) = none

  -- proxyGetState; an error, which is only printed, is the nil map
  unfoldable pub proxy_get_state : String → M F (Telemetry F) (Option (Fields F))
  unfolding proxy_request
  proxy_get_state target_topic = do
    t ← gets (λ t. t)
    pl ← proxy_request t.proxy target_topic "get_state" empty
    pure (answered pl)

  -- copyMap
  abbrev copy_map : Option (Fields F) → Value F
  copy_map none = map_value none
  copy_map (some m) = obj (copy_into empty m)

  unfoldable pub handle_get_state : Fields F → M F (Telemetry F) (Option (Fields F))
  handle_get_state message =
      if not (is_trusted_sender message "security_monitor") then pure none else do
        t ← gets (λ t. t)
        pure (
            some (
              fields (
                ("navigation", copy_map t.last_navigation)
                ∷ ("motors", copy_map t.last_motors)
                ∷ ("cargo", copy_map t.last_cargo)
                ∷ ("last_poll_ts", float64 t.last_poll_ts)
                ∷ [])))

  -- target, _ := m["last_target"].(map[string]interface{}) of a map that may be nil
  abbrev pub last_target : Option (Fields F) → Option (Fields F)
  last_target none = none
  last_target (some m) = get_map m "last_target"

  -- if new != nil { old = new }
  abbrev newer : Option (Fields F) → Option (Fields F) → Option (Fields F)
  newer none old = old
  newer (some m) old = some m

  -- an optional field
  abbrev with_float : String → Option F → List (String × Value F)
  with_float k none = []
  with_float k (some x) = (k, float64 x) ∷ []

-- the two tests that keep the charge between 0 and 100
unfoldable pub clamp_battery : ℤ → ℤ
clamp_battery (negsuc n) = pos 0
clamp_battery (pos n) = if ltb 100 n then pos 100 else pos n

module _ {F : Type 0} (fl : Floats F) where
  -- asFloat
  abbrev pub as_float : Option (Value F) → Option F
  as_float (some (float64 x)) = some x
  as_float (some (float32 x)) = some x
  as_float (some (int n)) = some (fl.of_int n)
  as_float (some (int64 n)) = some (fl.of_int n)
  as_float (some (int32 n)) = some (fl.of_int n)
  as_float _ = none

  -- mapFloat with two keys, and with one
  unfoldable pub map_float : Option (Fields F) → String → String → Option F
  map_float none k j = none
  map_float (some m) k j = first_of (as_float (get m k)) (as_float (get m j))

  abbrev map_float_one : Option (Fields F) → String → Option F
  map_float_one m k = map_float m k k

  abbrev or_zero : Option F → Option F
  or_zero x = first_of x (some (lit fl 0))

  abbrev pub percentage : ℤ → Option F → ℤ
  percentage default none = default
  percentage default (some x) = fl.to_int x

  -- the charge of the battery, as the post gives it
  unfoldable pub battery_of : ℤ → Option (Fields F) → Option (Fields F) → Option (Fields F) → ℤ
  unfolding clamp_battery
  battery_of default nav motors cargo = clamp_battery (
      percentage default (
        first_of (map_float cargo "battery_pct" "battery") (
          first_of (map_float nav "battery_pct" "battery")
            (map_float motors "battery_pct" "battery"))))

  -- logItem, where the position is known
  abbrev pub log_item :
      Telemetry F → ℕ → F → F → Option (Fields F) → Option (Fields F) → Option (Fields F) → Fields F
  log_item t ms lat lon nav motors cargo = fields (
      (("apiVersion", str t.analytics.api_version)
        ∷ ("timestamp", int64 (pos ms))
        ∷ ("drone", str t.analytics.drone)
        ∷ ("drone_id", int64 t.analytics.drone_id)
        ∷ ("battery", int (battery_of t.default_battery_pct nav motors cargo))
        ∷ ("latitude", float64 lat)
        ∷ ("longitude", float64 lon)
        ∷ [])
      ++ (with_float "pitch" (or_zero (map_float nav "pitch" "pitch_deg"))
          ++ (with_float "roll" (or_zero (map_float nav "roll" "roll_deg"))
              ++ (with_float "course" (
                    first_of (map_float nav "heading_deg" "course")
                      (map_float (last_target motors) "heading_deg" "course"))
                  ++ with_float "height" (
                      first_of (map_float nav "alt_m" "height")
                        (map_float (last_target motors) "alt_m" "height"))))))

  abbrev post_at :
      Option F
      → Option F
      → ℕ
      → Option (Fields F)
      → Option (Fields F)
      → Option (Fields F)
      → M F (Telemetry F) (Unit {0})
  post_at (some lat) (some lon) ms nav motors cargo = do
    t ← gets (λ t. t)
    proxy_publish_async t.proxy t.journal_topic "POST_TELEMETRY"
        (only "telemetry_log" (obj (log_item t ms lat lon nav motors cargo)))
    pure tt
  post_at _ _ ms nav motors cargo = pure tt

  -- postAnalyticsTelemetry; an error of the broker is only printed
  unfoldable pub post_analytics_telemetry :
      ℕ → Option (Fields F) → Option (Fields F) → Option (Fields F) → M F (Telemetry F) (Unit {0})
  post_analytics_telemetry ms nav motors cargo = do
    t ← gets (λ t. t)
    if not t.analytics.enabled
        then pure tt
        else post_at (first_of (map_float_one nav "lat") (map_float_one (last_target motors) "lat"))
            (first_of (map_float_one nav "lon") (map_float_one (last_target motors) "lon")) ms nav
            motors cargo

  abbrev pub keep :
      Option (Fields F) → Option (Fields F) → Option (Fields F) → ℕ → Telemetry F → Telemetry F
  keep nav motors cargo time t = record t {
    last_navigation = newer nav t.last_navigation;
    last_motors = newer motors t.last_motors;
    last_cargo = newer cargo t.last_cargo;
    last_poll_ts = fl.nanos time;
  }

  -- pollOnce
  unfoldable pub poll_once : M F (Telemetry F) (Unit {0})
  unfolding proxy_get_state post_analytics_telemetry
  poll_once = do
    t ← gets (λ t. t)
    nav ← proxy_get_state t.navigation_topic
    motors ← proxy_get_state t.motors_topic
    cargo ← proxy_get_state t.cargo_topic
    ms ← now
    time ← now
    modify (keep nav motors cargo time)
    post_analytics_telemetry (ms / 1000000) nav motors cargo
