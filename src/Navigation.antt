-- ===== src/Navigation.antt =====
-- navigation/src/navigation.go: the last known navigation state.
pub mod Merge
use drones.Common.{
  String, Bool, true, false, Option, none, some, List, [], ◌∷◌, if◌then◌else◌, ◌&&◌, not,
}
use drones.Message.{Fields, ℤ, pos, empty, fields, str, bool, int, float64, obj, get_map, copy_into}
use drones.Bus.{M, pure, gets, modify, ◌>>=◌, ◌>>◌}
use drones.Floats.{Floats}
use drones.Component.{is_trusted_sender}

-- Navigation, less the base component
pub record Navigation (F : Type 0) : Type 0 where
  pub last_state : Fields F

module _ {F : Type 0} where
  abbrev pub default_nav_state : Floats F → Fields F
  default_nav_state fl = fields (
      ("lat", float64 (fl.dec 5575 2))
      ∷ ("lon", float64 (fl.dec 3762 2))
      ∷ ("alt_m", float64 (fl.dec 500 1))
      ∷ ("ground_speed_mps", float64 (fl.dec 0 1))
      ∷ ("heading_deg", float64 (fl.dec 0 1))
      ∷ ("fix", int (pos 3))
      ∷ ("satellites", int (pos 12))
      ∷ ("gps_valid", bool true)
      ∷ ("hdop", float64 (fl.dec 8 1))
      ∷ [])

  unfoldable pub new_navigation : Floats F → Navigation F
  unfolding copy_into
  new_navigation fl = record { last_state = copy_into empty (default_nav_state fl) }

  abbrev pub nav_error : String → Fields F
  nav_error e = fields (("ok", bool false) ∷ ("error", str e) ∷ [])

  abbrev pub set_last : Fields F → Navigation F → Navigation F
  set_last m n = record { last_state = m }

  unfoldable pub handle_nav_state : Fields F → M F (Navigation F) (Option (Fields F))
  handle_nav_state message =
      if not (is_trusted_sender message "security_monitor")
      then pure none
      else elim (get_map message "payload") [
        | none ↦ pure (some (nav_error "invalid_nav_payload"))
        | some payload ↦ do
          modify (set_last (copy_into empty payload))
          pure (some (fields (("ok", bool true) ∷ [])))
      ]

  unfoldable pub handle_update_config : Fields F → M F (Navigation F) (Option (Fields F))
  handle_update_config message =
      if not (is_trusted_sender message "security_monitor")
      then pure none
      else elim (get_map message "payload") [
        | none ↦ pure (some (nav_error "invalid_config_payload"))
        | some payload ↦ do
          modify (λ n. set_last (copy_into n.last_state payload) n)
          out ← gets (λ n. copy_into empty n.last_state)
          pure (some (fields (("ok", bool true) ∷ ("config", obj out) ∷ [])))
      ]

  unfoldable pub handle_get_state : Fields F → M F (Navigation F) (Option (Fields F))
  handle_get_state message =
      if not (is_trusted_sender message "security_monitor")
      then pure none
      else do out ← gets (λ n. copy_into empty n.last_state); pure (some out)
