-- ===== src/Limiter/Bounds.antt =====
-- orvd.go: the bounds of a mission.
use drones.Common.{ℕ, ◌+◌, String, append, ◌||◌, Option, none, some, if◌then◌else◌, itoa}
use drones.Message.{
  Fields, Value, Items, nil, cons, float64, float32, int, int64, obj, get, get_items,
}
use drones.Floats.{Floats, lit}

module _ {F : Type 0} (fl : Floats F) where
  -- stepFloat
  unfoldable pub step_float : Fields F → String → Option F
  step_float step key = elim (get step key) [
    | some (float64 x) ↦ some x
    | some (float32 x) ↦ some x
    | some (int n) ↦ some (fl.of_int n)
    | some (int64 n) ↦ some (fl.of_int n)
    | _ ↦ none
  ]

  -- the tests on the coordinates of the step with number i: an error, or `none`
  unfoldable pub check_coords : F → ℕ → Option F → Option F → Option F → Option String
  check_coords max_alt i (some lat) (some lon) (some alt) =
      if fl.lt (lit fl 90) (fl.abs lat) || fl.lt (lit fl 180) (fl.abs lon)
      then some (append "coords_out_of_range_step_" (itoa i))
      else if fl.lt alt (lit fl 0) || fl.lt max_alt alt
      then some (append "alt_out_of_range_step_" (itoa i))
      else none
  check_coords max_alt i _ _ _ = some (append "invalid_coords_step_" (itoa i))

  unfoldable pub check_step : F → ℕ → Value F → Option String
  unfolding check_coords step_float
  check_step max_alt i (obj step) =
      check_coords max_alt i (step_float step "lat") (step_float step "lon")
        (step_float step "alt_m")
  check_step max_alt i _ = some (append "invalid_step_" (itoa i))

  -- the loop, from the step with number i on
  unfoldable pub check_steps : F → ℕ → Items F → Option String
  check_steps max_alt i nil = none
  check_steps max_alt i (cons s rest) =
      let later = check_steps max_alt (i + 1) rest in
      elim (check_step max_alt i s) [ none ↦ later | some e ↦ some e ]

  abbrev pub refuse_empty : F → Items F → Option String
  refuse_empty max_alt nil = some "empty_steps"
  refuse_empty max_alt (cons s rest) = check_steps max_alt 0 (cons s rest)

  -- validateMissionBounds: the error, or `none` for a mission in bounds
  unfoldable pub validate_mission_bounds : Fields F → F → Option String
  validate_mission_bounds mission max_alt = refuse_empty max_alt (get_items mission "steps")
