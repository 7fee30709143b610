-- ===== src/Delivery.antt =====
-- delivery/src/delivery.go: the stub drone that counts deliveries.
pub mod Counting
use drones.Common.{
  ℕ, zero, suc, ◌+◌, ◌-◌, ◌^◌, String, Bool, true, Option, none, some, List, [], ◌∷◌, eqb, is_empty,
  if◌then◌else◌,
}
use drones.Message.{
  ℤ, pos, negsuc, Fields, Value, null, bool, int, str, obj, empty, fields, only, get, get_string,
  get_map, put, copy_into,
}
use drones.Bus.{M, pure, gets, modify, ◌>>=◌, ◌>>◌}

-- Drone, less the base component but for its identifier
pub record Drone (F : Type 0) : Type 0 where
  pub component_id : String
  pub name : String
  pub state : Fields F

-- if topic == "" { topic = defaultTopic }
abbrev pub topic_or_default : String → String
topic_or_default topic = if is_empty topic then "components.delivery_drone" else topic

-- deliveries++ on a 64-bit int
unfoldable pub incremented : ℤ → ℤ
incremented (pos n) = if eqb (n + 1) (2 ^ 63) then negsuc (2 ^ 63 - 1) else pos (n + 1)
incremented (negsuc zero) = pos 0
incremented (negsuc (suc n)) = negsuc n

module _ {F : Type 0} where
  -- New (the state)
  unfoldable pub new_drone : String → String → Drone F
  new_drone component_id name = record {
    component_id = component_id;
    name = name;
    state = fields (("status", str "idle") ∷ ("deliveries", int (pos 0)) ∷ []);
  }

  -- the payload that is echoed: a map as it is, nothing as an empty map, and another value in one
  abbrev echoed : Option (Value F) → Fields F
  echoed none = empty
  echoed (some null) = empty
  echoed (some (obj m)) = m
  echoed (some v) = only "value" v

  unfoldable pub handle_echo : Fields F → M F (Drone F) (Option (Fields F))
  handle_echo message = do
    d ← gets (λ d. d)
    pure (
        some (
          fields (
            ("echo", obj (echoed (get message "payload")))
            ∷ ("from", str d.component_id)
            ∷ ("component_id", str d.component_id)
            ∷ [])))

  abbrev pub destination_of : Option (Fields F) → String
  destination_of none = ""
  destination_of (some payload) = get_string payload "destination"

  -- deliveries, _ := d.state["deliveries"].(int)
  abbrev pub count_of : Option (Value F) → ℤ
  count_of (some (int n)) = n
  count_of _ = pos 0

  unfoldable pub delivered : String → Drone F → Drone F
  unfolding incremented put get
  delivered dest d = record d {
    state =
        put
          (put (put d.state "deliveries" (int (incremented (count_of (get d.state "deliveries")))))
            "status" (str "delivering"))
          "last_destination" (str dest);
  }

  unfoldable pub handle_deliver_package : Fields F → M F (Drone F) (Option (Fields F))
  unfolding delivered
  handle_deliver_package message = do
    let dest = destination_of (get_map message "payload")
    d ← gets (λ d. d)
    modify (delivered dest)
    pure (
        some (
          fields (
            ("accepted", bool true)
            ∷ ("destination", str dest)
            ∷ ("deliveries", int (incremented (count_of (get d.state "deliveries"))))
            ∷ ("from", str d.component_id)
            ∷ ("component_id", str d.component_id)
            ∷ [])))

  -- State
  unfoldable pub state_copy : Drone F → Fields F
  unfolding copy_into
  state_copy d = copy_into empty d.state

  unfoldable pub handle_get_delivery_status : Fields F → M F (Drone F) (Option (Fields F))
  unfolding state_copy put
  handle_get_delivery_status message = do
    d ← gets (λ d. d)
    pure (
        some (
          put (put (state_copy d) "from" (str d.component_id)) "component_id" (str d.component_id)))
