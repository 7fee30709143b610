-- ===== src/Motors/Commands.antt =====
-- What the actuators accept and what they send to the simulator.
use drones.Common.{
  ℕ, suc, String, Bool, true, false, ◌||◌, ◌≡◌, refl, subst, ◌⊎◌, inl, inr, Bool-cases,
  Option-cases, none, some, List, [], ◌∷◌, arith, ◌==◌, eq_iff, if◌then◌else◌,
}
use drones.Message.{Fields, empty, entry, bool, float64, get, get-put}
use drones.Bus.{ok, >>=?-eq-ok, published, clock_read, Env, Run}
use drones.Floats.{Floats, lit}
use drones.Component.{is_trusted_sender}
use drones.Motors.{
  landing, Motors, to_float, float_from_map, or_zero, horizontal, clamp, land_sitl_command,
  target_to_sitl_command, sanitize_key, sanitize_keys, sanitize_drop, sanitize_target, refuse_empty,
  float_keys, handle_set_target, handle_land,
}

module _ {F : Type 0} (fl : Floats F) where
  -- A NaN is not equal to itself.
  abbrev pub IsNan : F → Type 0
  IsNan x = fl.eq x x ≡ false

  abbrev pub IsNumber : F → Type 0
  IsNumber x = fl.eq x x ≡ true

  -- What the clamps rely on: of two numbers the one is below the other or not above it, no number is
  -- below itself, the bounds are numbers, and -n is below n and 0 below 359.9.
  pub record Ordered : Type 0 where
    pub total : (x y : F) → IsNumber x → IsNumber y → fl.lt x y ≡ false → fl.le y x ≡ true
    pub lt_irrefl : (x : F) → fl.lt x x ≡ false
    pub whole : (n : ℕ) → IsNumber (lit fl n)
    pub negative : (n : ℕ) → IsNumber (fl.neg (lit fl n))
    pub heading : IsNumber (fl.dec 3599 1)
    pub neg_below : (n : ℕ) → fl.lt (lit fl (suc n)) (fl.neg (lit fl (suc n))) ≡ false
    pub zero_below : fl.lt (fl.dec 3599 1) (lit fl 0) ≡ false

  -- No less than the one bound and no more than the other.
  abbrev pub Within : F → F → F → Type 0
  Within lo hi x = (fl.le lo x ≡ true) × (fl.le x hi ≡ true)

  clamp-Within :
      Ordered
      → (v lo hi : F) → IsNumber v
      → IsNumber lo
      → IsNumber hi
      → fl.lt hi lo ≡ false
      → Within lo hi (clamp fl v lo hi)
  unfolding clamp
  clamp-Within o v lo hi a b c below = ground (
    arith,
    o.total lo lo b b (o.lt_irrefl lo),
    o.total hi hi c c (o.lt_irrefl hi),
    o.total hi lo c b below,
    o.total v lo a b,
    o.total hi v c a,
    a,
    b,
    c,
    below,
  )

  -- Under a key, a number in bounds, unless a NaN was asked for.
  abbrev pub Bounded : Fields F → String → F → F → F → Type 0
  Bounded m k asked lo hi = (x : F) × (get m k ≡ some (float64 x)) × (IsNan asked ⊎ Within lo hi x)

  clamp-Bounded :
      Ordered
      → (m : Fields F) (k : String) (asked lo hi : F)
      → get m k ≡ some (float64 (clamp fl asked lo hi))
      → IsNumber lo
      → IsNumber hi
      → fl.lt hi lo ≡ false
      → Bounded m k asked lo hi
  clamp-Bounded o m k asked lo hi at b c below = (
    clamp fl asked lo hi,
    at,
    elim (Bool-cases (fl.eq asked asked)) [
      | inl number ↦ inr (clamp-Within o asked lo hi number b c below)
      | inr nan ↦ inl nan
    ],
  )

  -- The speeds in the plane that a target asks for.
  abbrev pub plane_of : Fields F → F × F
  plane_of target =
      horizontal fl (float_from_map fl target "vx") (float_from_map fl target "vy")
        (float_from_map fl target "heading_deg") (float_from_map fl target "ground_speed_mps")

  pub record InLimits (target m : Fields F) : Type 0 where
    pub vx : Bounded m "vx" (plane_of target).0 (fl.neg (lit fl 50)) (lit fl 50)
    pub vy : Bounded m "vy" (plane_of target).1 (fl.neg (lit fl 50)) (lit fl 50)
    pub vz :
        Bounded m "vz" (or_zero fl (float_from_map fl target "vz")) (fl.neg (lit fl 10)) (lit fl 10)
    pub heading :
        Bounded m "mag_heading"
          (or_zero fl (float_from_map fl target "heading_deg"))
          (lit fl 0)
          (fl.dec 3599 1)

  -- If numbers compare as Ordered says, then the command keeps the horizontal speeds within 50 m/s, the
  -- vertical speed within 10 m/s and the heading within 0 and 359.9 degrees, each unless what the
  -- target asks for there is a NaN; for the horizontal speeds that is a component that it names, or
  -- what the heading and the ground speed give.
  pub target_to_sitl_command-InLimits :
      Ordered
      → (drone_id : String) (target : Fields F)
      → InLimits target (target_to_sitl_command fl drone_id target)
  unfolding target_to_sitl_command get
  target_to_sitl_command-InLimits o drone_id target = record {
    vx =
        clamp-Bounded o (target_to_sitl_command fl drone_id target) "vx" _ _ _ refl (o.negative 50)
          (o.whole 50) (o.neg_below 49);
    vy =
        clamp-Bounded o (target_to_sitl_command fl drone_id target) "vy" _ _ _ refl (o.negative 50)
          (o.whole 50) (o.neg_below 49);
    vz =
        clamp-Bounded o (target_to_sitl_command fl drone_id target) "vz" _ _ _ refl (o.negative 10)
          (o.whole 10) (o.neg_below 9);
    heading =
        clamp-Bounded o (target_to_sitl_command fl drone_id target) "mag_heading" _ _ _ refl
          (o.whole 0) o.heading o.zero_below;
  }

  abbrev pub member : List String → String → Bool
  member [] k = false
  member (j ∷ js) k = j == k || member js k

  -- The map holds the payload's values at the chosen keys, and nothing else.
  abbrev pub Selects : Fields F → (String → Bool) → Fields F → Type 0
  Selects payload chosen target =
      (j : String) → get target j ≡ (if chosen j then get payload j else none)

  sanitize_key-Selects :
      (payload target t : Fields F) (chosen : String → Bool) (k : String)
      → Selects payload chosen target
      → sanitize_key fl payload k target ≡ ok t
      → Selects payload (λ j. chosen j || k == j) t
  unfolding sanitize_key
  sanitize_key-Selects payload target t chosen k h e j = elim (Option-cases (get payload k)) [
    | inl absent ↦ ground (arith, h j, eq_iff k j)
    | inr (v, found) ↦ elim (Option-cases (to_float fl v)) [
      | inl bad ↦ absurd (ground arith)
      | inr (x, good) ↦ ground (arith, h j, eq_iff k j, get-put target k j v)
    ]
  ]

  sanitize_keys-Selects :
      (ks : List String) (payload target t : Fields F) (chosen : String → Bool)
      → Selects payload chosen target
      → sanitize_keys fl payload ks target ≡ ok t
      → Selects payload (λ j. chosen j || member ks j) t
  unfolding sanitize_keys
  sanitize_keys-Selects [] payload target t chosen h e j = ground (arith, h j)
  sanitize_keys-Selects (k ∷ ks) payload target t chosen h e j =
      let (m, first, rest) =
        >>=?-eq-ok (sanitize_key fl payload k target) (sanitize_keys fl payload ks) e in
      let found =
        sanitize_keys-Selects ks payload m t (λ i. chosen i || k == i)
          (sanitize_key-Selects payload target m chosen k h first) rest j in
      ground (arith, found)

  sanitize_drop-Selects :
      (payload target t : Fields F) (chosen : String → Bool)
      → Selects payload chosen target
      → sanitize_drop fl payload target ≡ ok t
      → Selects payload (λ j. chosen j || "drop" == j) t
  unfolding sanitize_drop
  sanitize_drop-Selects payload target t chosen h e j = elim (Option-cases (get payload "drop")) [
    | inl absent ↦ ground (arith, h j, eq_iff "drop" j)
    | inr (bool b, found) ↦ ground (arith, h j, eq_iff "drop" j, get-put target "drop" j (bool b))
    | inr (v, found) ↦ absurd (ground arith)
  ]

  refuse_empty-eq : (m t : Fields F) → refuse_empty fl m ≡ ok t → m ≡ t
  refuse_empty-eq empty t e = cc
  refuse_empty-eq (entry k v m) t e = cc

  -- A payload that the actuators accept is cut down to the known keys: the target holds the payload's
  -- values at the float keys and at "drop", and nothing at any other key.
  pub sanitize_target-Selects :
      (payload t : Fields F)
      → sanitize_target fl payload ≡ ok t
      → Selects payload (λ j. member float_keys j || "drop" == j) t
  unfolding sanitize_target get
  sanitize_target-Selects payload t e =
      let (m, e1, last) = >>=?-eq-ok _ (refuse_empty fl) e in
      let (n, first, second) =
        >>=?-eq-ok (sanitize_keys fl payload float_keys empty) (sanitize_drop fl payload) e1 in
      let floats =
        sanitize_keys-Selects float_keys payload empty n (λ j. false) (λ j. refl) first in
      subst (Selects payload _) (refuse_empty-eq m t last)
        (sanitize_drop-Selects payload n m (λ j. member float_keys j) floats second)

module _ {F : Type 0} (fl : Floats F) (message : Fields F) (env : Env F (Motors F))
    (r : Run F (Motors F)) where
  -- LAND from the security monitor goes to LANDING, keeps the last target, and publishes exactly
  -- the landing command.
  pub handle_land_lem :
      is_trusted_sender message "security_monitor" ≡ true
      → let after = (handle_land fl message env r).1 in
        (after.state.mode ≡ landing)
        × (after.state.last_target ≡ r.state.last_target)
        × (after.events
            ≡ published r.state.sitl_topic (land_sitl_command fl r.state.drone_id)
              ∷ clock_read
              ∷ r.events)
  unfolding handle_land
  handle_land_lem h = ground arith

  -- SET_TARGET and LAND from anyone but the security monitor get no answer, and change and send
  -- nothing.
  pub strangers_ignored :
      is_trusted_sender message "security_monitor" ≡ false
      → (handle_set_target fl message env r ≡ (none, r))
        × (handle_land fl message env r ≡ (none, r))
  unfolding handle_set_target handle_land
  strangers_ignored h = ground arith
