-- ===== src/MissionHandler/Wpl.antt =====
-- wpl_parser.go: the missions of QGroundControl. strconv.ParseFloat is a parameter, as float64 is one.
use drones.Common.{
  ℕ, zero, suc, ◌+◌, ◌/◌, String, append, Bool, false, ◌&&◌, not, Option, none, some, List, [], ◌∷◌,
  ◌++◌, length, is_empty, trim_space, to_upper, split, words, has_prefix, contains_text, natural,
  negative, itoa, ltb, eqb, if◌then◌else◌,
}
use drones.Message.{
  ℤ, pos, negsuc, Fields, Value, Items, nil, cons, str, float64, bool, obj, arr, fields, get,
}
use drones.Bus.{Result, ok, err, M, pure, now, ◌>>=◌}
use drones.Floats.{Floats, lit}

-- strconv.Atoi
unfoldable pub atoi : String → Option ℤ
atoi s = elim (negative s) [
  | some zero ↦ some (pos 0)
  | some (suc n) ↦ some (negsuc n)
  | none ↦ elim (natural s) [ some n ↦ some (pos n) | none ↦ none ]
]

abbrev is_number : ℕ → ℤ → Bool
is_number n (pos m) = eqb m n
is_number n (negsuc m) = false

-- current, _ := strconv.Atoi(…); current == 1
abbrev is_current : Option ℤ → Bool
is_current (some z) = is_number 1 z
is_current none = false

abbrev pub text_length : String → ℕ
text_length String.[] = 0
text_length (String.◌∷◌ c s) = suc (text_length s)

-- the loop of pad3, in at most n rounds
unfoldable pub pad_to : ℕ → String → String
pad_to zero s = s
pad_to (suc n) s =
    let more = pad_to n (String.◌∷◌ "0" s) in if ltb (text_length s) 3 then more else s

unfoldable pub pad3 : ℕ → String
unfolding pad_to
pad3 n = pad_to 3 (itoa n)

-- the lines, trimmed, without the empty ones
unfoldable pub non_empty : List String → List String
non_empty [] = []
non_empty (l ∷ ls) =
    let rest = non_empty ls in if is_empty (trim_space l) then rest else trim_space l ∷ rest

-- the columns of a line
unfoldable pub columns : String → List String
columns line = if ltb (length (split b'\t' line)) 12 then words line else split b'\t' line

-- parts[i], trimmed; there are more than i parts
unfoldable pub column : List String → ℕ → String
column [] i = ""
column (p ∷ ps) zero = trim_space p
column (p ∷ ps) (suc i) = column ps i

-- What the loop collects: the home position, which is nil at first, and the steps.
pub record Route (F : Type 0) : Type 0 where
  pub home : Option (Fields F)
  pub steps : List (Fields F)

module _ {F : Type 0} where
  -- the steps as []interface{}
  abbrev pub step_items : List (Fields F) → Items F
  step_items [] = nil
  step_items (s ∷ ss) = cons (obj s) (step_items ss)

  abbrev or_null : Option (Value F) → Value F
  or_null (some v) = v
  or_null none = Value.null

module _ {F : Type 0} (fl : Floats F) (parse_float : String → Option F) where
  abbrev pub position : F → F → F → Fields F
  position lat lon alt =
      fields (("lat", float64 lat) ∷ ("lon", float64 lon) ∷ ("alt_m", float64 alt) ∷ [])

  -- the step with number i
  abbrev pub way_point : ℕ → F → F → F → Fields F
  way_point i lat lon alt = fields (
      ("id", str (append "wp-" (pad3 i)))
      ∷ ("lat", float64 lat)
      ∷ ("lon", float64 lon)
      ∷ ("alt_m", float64 alt)
      ∷ ("speed_mps", float64 (lit fl 5))
      ∷ ("drop", bool false)
      ∷ [])

  -- what a line with readable numbers adds to the route
  unfoldable pub add_line : Route F → ℤ → ℤ → Option ℤ → F → F → F → Route F
  add_line r idx cmd current lat lon alt =
      if is_number 0 idx && is_current current
      then record r { home = some (position lat lon alt) }
      else if not (is_number 16 cmd)
      then r
      else record r { steps = r.steps ++ (way_point (length r.steps) lat lon alt ∷ []) }

  -- the test of the errors of a line with the number i
  unfoldable pub read_line :
      ℕ
      → Route F
      → Option ℤ
      → Option ℤ
      → Option ℤ
      → Option F
      → Option F
      → Option F
      → Result (Route F)
  unfolding add_line
  read_line i r (some idx) (some cmd) current (some lat) (some lon) (some alt) =
      ok (add_line r idx cmd current lat lon alt)
  read_line i r _ _ current _ _ _ =
      err (append "invalid_wpl_line_" (append (itoa i) "_parse_error"))

  unfoldable pub parse_line : ℕ → Route F → List String → Result (Route F)
  unfolding read_line
  parse_line i r parts =
      if ltb (length parts) 12
      then err (append "invalid_wpl_line_" (append (itoa i) "_too_few_columns"))
      else read_line i r (atoi (column parts 0)) (atoi (column parts 3)) (atoi (column parts 1))
          (parse_float (column parts 8)) (parse_float (column parts 9))
          (parse_float (column parts 10))

  -- the loop over the lines, from the line with the number i on
  unfoldable pub parse_lines : ℕ → Route F → List String → Result (Route F)
  unfolding parse_line
  parse_lines i r [] = ok r
  parse_lines i r (line ∷ lines) = elim (parse_line i r (columns line)) [
    | ok s ↦ parse_lines (i + 1) s lines
    | err e ↦ err e
  ]

  -- the home position, or that of the first step on the ground
  abbrev pub home_of : Option (Fields F) → Fields F → Fields F
  home_of (some home) first = home
  home_of none first = fields (
      ("lat", or_null (get first "lat"))
      ∷ ("lon", or_null (get first "lon"))
      ∷ ("alt_m", float64 (lit fl 0))
      ∷ [])

  abbrev pub mission_of : String → Fields F → List (Fields F) → Fields F
  mission_of mid home steps =
      fields (("mission_id", str mid) ∷ ("home", obj home) ∷ ("steps", arr (step_items steps)) ∷ [])

  module _ {S : Type 0} where
    -- the mission's identifier, taken from the clock in milliseconds where none is given
    abbrev pub name_mission : String → M F S String
    name_mission mid =
        if is_empty mid then (do t ← now; pure (append "wpl-" (itoa (t / 1000000)))) else pure mid

    -- ParseWPL, after the loop
    unfoldable pub finish : String → Route F → M F S (Result (Fields F))
    finish mid r = elim r.steps [
      | [] ↦ pure (err "no_waypoints_in_wpl")
      | first ∷ rest ↦ do
        name ← name_mission mid
        pure (ok (mission_of name (home_of r.home first) (first ∷ rest)))
    ]

    abbrev pub finish_lines : String → Result (Route F) → M F S (Result (Fields F))
    finish_lines mid (ok r) = finish mid r
    finish_lines mid (err e) = pure (err e)

    -- ParseWPL, after the empty lines are dropped
    unfoldable pub parse_non_empty : String → List String → M F S (Result (Fields F))
    unfolding finish parse_lines
    parse_non_empty mid [] = pure (err "empty_wpl")
    parse_non_empty mid (header ∷ lines) =
        if not (has_prefix (to_upper header) "QGC WPL")
          && not (contains_text (to_upper header) "WPL")
        then pure (err "invalid_wpl_header")
        else finish_lines mid (parse_lines 1 (record { home = none; steps = [] }) lines)

    -- ParseWPL: the mission or the error
    unfoldable pub parse_wpl : String → String → M F S (Result (Fields F))
    unfolding parse_non_empty
    parse_wpl content mid =
        if is_empty (trim_space content)
        then pure (err "empty_or_invalid_wpl")
        else parse_non_empty mid (non_empty (split b'\n' (trim_space content)))
