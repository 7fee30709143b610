-- ===== src/Tests/Devices.antt =====
-- The cargo bay, the navigation and the actuators on small inputs.
use drones.Common.{ℕ, true, ◌≡◌, refl, some, [], ◌∷◌, arith}
use drones.Message.{Fields, str, bool, float64, empty, fields, only, get}
use drones.Bus.{Run}
use drones.Cargo.{closed, Cargo}
use drones.Navigation.{Navigation, handle_update_config, handle_get_state}
use drones.Navigation.Merge.{over, update_config-get_state}
use drones.Motors.{Motors, new_motors, target_to_sitl_command, handle_set_target}
use drones.Motors.Commands.{Ordered, InLimits, target_to_sitl_command-InLimits}
use drones.Tests.{numbers, silent_env, from_monitor}

abbrev bay : Run ℕ (Cargo ℕ)
bay = record {
  state = record {
    proxy = record { sender_id = "cargo"; security_monitor_topic = "v1.drone.security_monitor" };
    journal_topic = "v1.drone.journal";
    state = closed;
    last_change_ts = 0;
  };
  events = [];
}

abbrev navigation : Run ℕ (Navigation ℕ)
navigation = record { state = record { last_state = only "lat" (float64 55) }; events = [] }

abbrev position : Fields ℕ
position = fields (("lat", float64 56) ∷ ("lon", float64 38) ∷ [])

update_config-get_state_example :
    (out : Fields ℕ) × ((handle_get_state
        (from_monitor empty)
        silent_env
        (handle_update_config (from_monitor position) silent_env navigation).1).0
      ≡ some out)
    × (get out "lat" ≡ over (get position "lat") (get navigation.state.last_state "lat"))
unfolding get
update_config-get_state_example =
    update_config-get_state (from_monitor position) (from_monitor empty) position silent_env
      navigation refl refl refl (refl, (refl, tt)) (refl, tt) "lat"

numbers-Ordered : Ordered numbers
numbers-Ordered = record {
  total = λ x y a b h. ground (arith, h);
  lt_irrefl = λ x. ground arith;
  whole = λ n. ground arith;
  negative = λ n. refl;
  heading = refl;
  neg_below = λ n. ground arith;
  zero_below = refl;
}

abbrev fast : Fields ℕ
fast = fields (("vx", float64 80) ∷ ("extra", str "x") ∷ ("drop", bool true) ∷ [])

target_to_sitl_command-InLimits_example :
    InLimits numbers fast (target_to_sitl_command numbers "drone_001" fast)
target_to_sitl_command-InLimits_example =
    target_to_sitl_command-InLimits numbers numbers-Ordered "drone_001" fast

abbrev motors : Run ℕ (Motors ℕ)
motors = record { state = new_motors numbers "sitl.commands" "mock" "drone_001" 40; events = [] }

abbrev ordered : Run ℕ (Motors ℕ)
ordered = (handle_set_target numbers (from_monitor fast) silent_env motors).1
