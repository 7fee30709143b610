-- ===== src/Autopilot/Actuators.antt =====
-- What the autopilot sends to the motors and the cargo bay.
use drones.Common.{String, Bool, false, none, some, [], ◌∷◌, if◌then◌else◌}
use drones.Message.{Fields, fields, empty, bool, float64}
use drones.Bus.{M, pure, gets, modify, ◌>>=◌, ◌>>◌}
use drones.Floats.{Floats, lit}
use drones.Component.{proxy_publish_async}
use drones.Autopilot.State.{Autopilot, get_float}

module _ {F : Type 0} (fl : Floats F) where
  abbrev pub target_fields : F → F → F → F → F → F → F → Bool → Fields F
  target_fields vx vy vz alt_m lat lon heading_deg drop = fields (
      ("vx", float64 vx)
      ∷ ("vy", float64 vy)
      ∷ ("vz", float64 vz)
      ∷ ("alt_m", float64 alt_m)
      ∷ ("lat", float64 lat)
      ∷ ("lon", float64 lon)
      ∷ ("heading_deg", float64 heading_deg)
      ∷ ("drop", bool drop)
      ∷ [])

  -- sendMotorsTarget; an error of the broker is only printed
  unfoldable pub send_motors_target :
      F → F → F → F → F → F → F → Bool → M F (Autopilot F) (Unit {0})
  send_motors_target vx vy vz alt_m lat lon heading_deg drop = do
    a ← gets (λ a. a)
    proxy_publish_async a.proxy a.motors_topic "SET_TARGET"
        (target_fields vx vy vz alt_m lat lon heading_deg drop)
    pure tt

  abbrev pub cargo_action : Bool → String
  cargo_action open_ = if open_ then "OPEN" else "CLOSE"

  -- sendCargo
  unfoldable pub send_cargo : Bool → M F (Autopilot F) (Unit {0})
  send_cargo open_ = do
    modify λ a. record a { cargo_state = cargo_action open_ }
    a ← gets (λ a. a)
    proxy_publish_async a.proxy a.cargo_topic (cargo_action open_) empty
    pure tt

  -- a target that holds the place, with no speed
  unfoldable pub hold_position : Fields F → M F (Autopilot F) (Unit {0})
  unfolding send_motors_target
  hold_position nav =
      send_motors_target (lit fl 0) (lit fl 0) (lit fl 0) (get_float fl nav "alt_m")
        (get_float fl nav "lat") (get_float fl nav "lon") (get_float fl nav "heading_deg") false

  -- safeActuatorStop
  unfoldable pub safe_actuator_stop : M F (Autopilot F) (Unit {0})
  unfolding hold_position send_cargo
  safe_actuator_stop = do
    nav ← gets (λ a. a.last_nav_state)
    elim nav [ none ↦ pure tt | some nav ↦ hold_position nav ]
    send_cargo false

  -- computeVelocity
  unfoldable pub compute_velocity : F → F → F → F → F × F × F
  compute_velocity heading_deg ground_speed_mps current_alt target_alt =
      let rad = fl.div (fl.mul heading_deg fl.pi) (lit fl 180) in
      let alt_diff = fl.sub target_alt current_alt in
      let vz = fl.mul alt_diff (lit fl 2) in
      let capped = if fl.lt (lit fl 3) vz then lit fl 3 else vz in
      (
        fl.mul ground_speed_mps (fl.sin rad),
        fl.mul ground_speed_mps (fl.cos rad),
        if fl.lt (fl.abs alt_diff) (fl.dec 2 1)
            then lit fl 0
            else (if fl.lt capped (fl.neg (lit fl 3)) then fl.neg (lit fl 3) else capped),
      )
