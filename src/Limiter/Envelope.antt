-- ===== src/Limiter/Envelope.antt =====
-- orvd.go: which missions validateMissionBounds accepts.
use drones.Common.{
  ℕ, ◌+◌, false, ◌≡◌, ◌≢◌, refl, ◌↔◌, inl, inr, Option, none, some, arith, Option-cases,
}
use drones.Message.{
  Fields, Value, null, bool, float64, float32, int, int32, int64, str, arr, maps, obj, Items, nil,
  cons, get_items,
}
use drones.Floats.{Floats, lit}
use drones.Limiter.Bounds.{
  step_float, check_coords, check_step, check_steps, refuse_empty, validate_mission_bounds,
}

module _ {F : Type 0} (fl : Floats F) (max_alt : F) where
  -- coordinates on the globe, at an altitude from 0 to max_alt
  pub record InRange (lat lon alt : F) : Type 0 where
    pub lat_at_most_90 : fl.lt (lit fl 90) (fl.abs lat) ≡ false
    pub lon_at_most_180 : fl.lt (lit fl 180) (fl.abs lon) ≡ false
    pub alt_not_negative : fl.lt alt (lit fl 0) ≡ false
    pub alt_at_most_max : fl.lt max_alt alt ≡ false

  -- three numbers, and in range
  abbrev pub Coords : Option F → Option F → Option F → Type 0
  Coords (some lat) (some lon) (some alt) = InRange lat lon alt
  Coords _ _ _ = ⊥

  -- a step that is a map with coordinates in range
  abbrev pub IsStep : Value F → Type 0
  IsStep (obj step) =
      Coords (step_float fl step "lat") (step_float fl step "lon") (step_float fl step "alt_m")
  IsStep _ = ⊥

  abbrev pub AllSteps : Items F → Type 0
  AllSteps nil = Unit
  AllSteps (cons v rest) = IsStep v × AllSteps rest

  check_coords_sound :
      (i : ℕ) (lat lon alt : Option F)
      → check_coords fl max_alt i lat lon alt ≡ none
      → Coords lat lon alt
  unfolding check_coords
  check_coords_sound i (some lat) (some lon) (some alt) e = record {
    lat_at_most_90 = ground arith;
    lon_at_most_180 = ground arith;
    alt_not_negative = ground arith;
    alt_at_most_max = ground arith;
  }
  check_coords_sound i (some lat) (some lon) none e = cc
  check_coords_sound i (some lat) none alt e = cc
  check_coords_sound i none lon alt e = cc

  check_coords_complete :
      (i : ℕ) (lat lon alt : Option F)
      → Coords lat lon alt
      → check_coords fl max_alt i lat lon alt ≡ none
  unfolding check_coords
  check_coords_complete i (some lat) (some lon) (some alt) k =
      ground (arith, k.lat_at_most_90, k.lon_at_most_180, k.alt_not_negative, k.alt_at_most_max)
  check_coords_complete i (some lat) (some lon) none k = elim k [ ]
  check_coords_complete i (some lat) none alt k = elim k [ ]
  check_coords_complete i none lon alt k = elim k [ ]

  check_step_sound : (i : ℕ) (v : Value F) → check_step fl max_alt i v ≡ none → IsStep v
  unfolding check_step
  check_step_sound i (obj step) e = check_coords_sound i _ _ _ e
  check_step_sound i null e = cc
  check_step_sound i (bool b) e = cc
  check_step_sound i (float64 b) e = cc
  check_step_sound i (float32 b) e = cc
  check_step_sound i (int b) e = cc
  check_step_sound i (int32 b) e = cc
  check_step_sound i (int64 b) e = cc
  check_step_sound i (str b) e = cc
  check_step_sound i (arr b) e = cc
  check_step_sound i (maps b) e = cc

  check_steps_sound :
      (i : ℕ) (steps : Items F) → check_steps fl max_alt i steps ≡ none → AllSteps steps
  unfolding check_steps
  check_steps_sound i nil e = tt
  check_steps_sound i (cons v rest) e = elim (Option-cases (check_step fl max_alt i v)) [
    | inl accepted ↦ (
      check_step_sound i v accepted,
      check_steps_sound (i + 1) rest (ground (arith, accepted, e)),
    )
    | inr (why, refused) ↦ ground (arith, refused, e)
  ]

  check_steps_complete :
      (i : ℕ) (steps : Items F) → AllSteps steps → check_steps fl max_alt i steps ≡ none
  unfolding check_steps check_step
  check_steps_complete i nil k = refl
  check_steps_complete i (cons (obj step) rest) (k, later) =
      ground (arith, check_coords_complete i _ _ _ k, check_steps_complete (i + 1) rest later)
  check_steps_complete i (cons _ rest) (k, later) = elim k [ ]

  accepts_iff :
      (steps : Items F) → (refuse_empty fl max_alt steps ≡ none) ↔ ((steps ≢ nil) × AllSteps steps)
  accepts_iff nil = (λ e. cc, λ k. elim (k.0 refl) [ ])
  accepts_iff (cons v rest) = (
    λ e. (λ n. cc, check_steps_sound 0 (cons v rest) e),
    λ k. check_steps_complete 0 (cons v rest) k.1,
  )

  -- The mission is accepted exactly when it has a step, and every step is a map that holds numbers as
  -- "lat", "lon" and "alt_m", with a latitude of at most 90 and a longitude of at most 180 degrees on
  -- either side, and an altitude neither negative nor above the limit.
  pub validate_mission_bounds-none_iff :
      (mission : Fields F)
      → (validate_mission_bounds fl mission max_alt ≡ none)
        ↔ ((get_items mission "steps" ≢ nil) × AllSteps (get_items mission "steps"))
  unfolding validate_mission_bounds
  validate_mission_bounds-none_iff mission = accepts_iff (get_items mission "steps")
