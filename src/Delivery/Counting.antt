-- ===== src/Delivery/Counting.antt =====
-- delivery.go: the count of the deliveries.
use drones.Common.{
  ℕ, suc, ◌+◌, ◌<◌, ◌^◌, String, Option, none, some, List, [], ◌∷◌, ◌≡◌, refl, ap, subst, ◌∙◌,
  arith,
}
use drones.Message.{pos, Fields, Value, int, str, get, get-put, put, get_map}
use drones.Bus.{Env, Run, M, pure, ◌>>◌}
use drones.Delivery.{
  Drone, new_drone, incremented, delivered, count_of, destination_of, handle_echo,
  handle_deliver_package, handle_get_delivery_status,
}

-- a message to the drone
pub data Input (F : Type 0) : Type 0 where
  echo : Fields F → Input F
  deliver_package : Fields F → Input F
  get_delivery_status : Fields F → Input F

incremented-below : (n : ℕ) → n + 1 < 2 ^ 63 → incremented (pos n) ≡ pos (suc n)
unfolding incremented
incremented-below n h = ground arith

module _ {F : Type 0} where
  unfoldable pub react : Input F → M F (Drone F) (Unit {0})
  unfolding handle_echo handle_deliver_package handle_get_delivery_status
  react (echo m) = handle_echo m >> pure tt
  react (deliver_package m) = handle_deliver_package m >> pure tt
  react (get_delivery_status m) = handle_get_delivery_status m >> pure tt

  unfoldable pub journey : List (Input F) → M F (Drone F) (Unit {0})
  unfolding react
  journey [] = pure tt
  journey (i ∷ is) = react i >> journey is

  abbrev pub orders : List (Input F) → ℕ
  orders [] = 0
  orders (deliver_package m ∷ is) = suc (orders is)
  orders (echo m ∷ is) = orders is
  orders (get_delivery_status m ∷ is) = orders is

  -- the destination of the last order, or the one before
  abbrev pub last_order : Option String → List (Input F) → Option String
  last_order known [] = known
  last_order known (deliver_package m ∷ is) =
      last_order (some (destination_of (get_map m "payload"))) is
  last_order known (echo m ∷ is) = last_order known is
  last_order known (get_delivery_status m ∷ is) = last_order known is

  abbrev text_value : Option String → Option (Value F)
  text_value none = none
  text_value (some s) = some (str s)

  -- The drone has counted n deliveries, the last to a destination.
  pub record Counted (n : ℕ) (known : Option String) (d : Drone F) : Type 0 where
    pub count : get d.state "deliveries" ≡ some (int (pos n))
    pub destination : get d.state "last_destination" ≡ text_value known

  delivered-Counted :
      (n : ℕ) (known : Option String) (dest : String) (d : Drone F)
      → n + 1 < 2 ^ 63
      → Counted n known d
      → Counted (suc n) (some dest) (delivered dest d)
  unfolding delivered
  delivered-Counted n known dest d h c =
      let one =
        put d.state "deliveries" (int (incremented (count_of (get d.state "deliveries")))) in
      let two = put one "status" (str "delivering") in
      record {
        count =
            get-put two "last_destination" "deliveries" (str dest)
            ∙ get-put one "status" "deliveries" (str "delivering")
            ∙ get-put d.state "deliveries" "deliveries"
                (int (incremented (count_of (get d.state "deliveries"))))
            ∙ ap (λ v. some (int (incremented (count_of v)))) c.count
            ∙ ap (λ k. some (int k)) (incremented-below n h);
        destination = get-put two "last_destination" "last_destination" (str dest);
      }

  journey-counts :
      (inputs : List (Input F)) (env : Env F (Drone F)) (r : Run F (Drone F)) (n : ℕ)
      (known : Option String)
      → orders inputs + n < 2 ^ 63
      → Counted n known r.state
      → Counted (orders inputs + n) (last_order known inputs) (journey inputs env r).1.state
  unfolding journey react handle_echo handle_deliver_package handle_get_delivery_status
  journey-counts [] env r n known h c = subst (λ k. Counted k known r.state) (omega arith) c
  journey-counts (echo m ∷ is) env r n known h c =
      journey-counts is env (react (echo m) env r).1 n known h c
  journey-counts (get_delivery_status m ∷ is) env r n known h c =
      journey-counts is env (react (get_delivery_status m) env r).1 n known h c
  journey-counts (deliver_package m ∷ is) env r n known h c =
      let dest = destination_of (get_map m "payload") in
      let after =
        journey-counts is env (react (deliver_package m) env r).1 (suc n) (some dest)
          (omega (arith, h)) (delivered-Counted n known dest r.state (omega (arith, h)) c) in
      subst
        (λ k.
          Counted k (last_order (some dest) is)
            (journey is env (react (deliver_package m) env r).1).1.state)
        (omega arith) after

  -- After any messages, fewer than 2 ^ 63 of them orders, a new drone shows as many deliveries as it
  -- had orders, and the destination of the last one.
  pub journey-Counted :
      (component_id name : String) (inputs : List (Input F)) (env : Env F (Drone F))
      → orders inputs < 2 ^ 63
      → let begun : Run F (Drone F) = record { state = new_drone component_id name; events = [] } in
        Counted (orders inputs) (last_order none inputs) (journey inputs env begun).1.state
  unfolding new_drone get
  journey-Counted component_id name inputs env h =
      let begun : Run F (Drone F) = record { state = new_drone component_id name; events = [] } in
      subst (λ k. Counted k (last_order none inputs) (journey inputs env begun).1.state)
        (omega arith)
        (journey-counts inputs env begun 0 none (omega (arith, h))
          (record { count = refl; destination = refl }))
