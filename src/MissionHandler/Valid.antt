-- ===== src/MissionHandler/Valid.antt =====
-- wpl_parser.go, mission_handler.go and limiter/src/orvd.go: the missions that pass validateMission.
use drones.Common.{
  ℕ, zero, suc, ◌+◌, ◌/◌, ◌≤◌, String, append, true, false, ◌≡◌, refl, ap, sym, subst, ◌⊎◌, inl,
  inr, Option, none, some, List, [], ◌∷◌, ◌++◌, length, All, All-append, split, trim_space, arith,
  Bool-cases, is_empty, itoa, ltb, ◌∙◌,
}
use drones.Message.{Fields, ℤ, get, has}
use Prim.Native.String.append
use drones.Bus.{Result, ok, err, Env, Run}
use drones.Floats.{Floats}
use drones.MissionHandler.State.{check_step, check_steps, validate_mission}
use drones.MissionHandler.Wpl.{
  atoi, column, text_length, pad_to, pad3, Route, home_of, mission_of, finish_lines, way_point,
  add_line, read_line, parse_line, columns, parse_lines, step_items, finish, name_mission,
  parse_non_empty, non_empty, parse_wpl,
}

abbrev pub zeros : ℕ → String
zeros zero = ""
zeros (suc k) = String.◌∷◌ "0" (zeros k)

zeros-suc : (k : ℕ) (s : String) → append (zeros k) (String.◌∷◌ "0" s) ≡ append (zeros (suc k)) s
zeros-suc zero s =
    append.nil (String.◌∷◌ "0" s) ∙ sym (append.cons "0" "" s ∙ ap (String.◌∷◌ "0") (append.nil s))
zeros-suc (suc k) s =
    append.cons "0" (zeros k) (String.◌∷◌ "0" s)
    ∙ ap (String.◌∷◌ "0") (zeros-suc k s)
    ∙ sym (append.cons "0" (zeros (suc k)) s)

-- A text of three characters or more, or one of three that has zeros before s.
abbrev pub Padded : String → String → Type 0
Padded s t =
    ((3 ≤ text_length s) × (t ≡ s)) ⊎ ((text_length t ≡ 3) × ((k : ℕ) × (t ≡ append (zeros k) s)))

pad_to-Padded : (rounds : ℕ) (s : String) → 3 ≤ text_length s + rounds → Padded s (pad_to rounds s)
unfolding pad_to
pad_to-Padded zero s long = inl (omega (arith, long), refl)
pad_to-Padded (suc n) s long = elim (Bool-cases (ltb (text_length s) 3)) [
  | inr enough ↦ inl (ground (arith, enough), ground (arith, enough))
  | inl short ↦ inr (
      rw short (elim (pad_to-Padded n (String.◌∷◌ "0" s) (omega arith)) [
        | inl (three, same) ↦ (
          ap text_length same ∙ ground (arith, short, three),
          (1, same ∙ sym (append.cons "0" "" s ∙ ap (String.◌∷◌ "0") (append.nil s))),
        )
        | inr (three, (k, zeroed)) ↦ (three, (suc k, zeroed ∙ zeros-suc k s))
      ]))
]

-- pad3 leaves the decimal digits of a number as they are if they are three or more, and otherwise puts
-- zeros before them up to a length of three.
pub pad3-Padded : (n : ℕ) → Padded (itoa n) (pad3 n)
unfolding pad3
pad3-Padded n = pad_to-Padded 3 (itoa n) (omega arith)

append-is_empty : (s : String) → is_empty (append "wpl-" s) ≡ false
append-is_empty s = ap is_empty (append.cons "w" "pl-" s)

the_ok : {A : Type 0} {a b : A} → ok a ≡ ok b → a ≡ b
the_ok e = cc

module _ {F : Type 0} where
  -- a step with a position
  abbrev pub HasPosition : Fields F → Type 0
  HasPosition s = (has s "lat" ≡ true) × (has s "lon" ≡ true) × (has s "alt_m" ≡ true)

  check_steps-none :
      (i : ℕ) (steps : List (Fields F))
      → All HasPosition steps
      → check_steps i (step_items steps) ≡ none
  unfolding check_steps check_step
  check_steps-none i [] h = refl
  check_steps-none i (s ∷ ss) ((lat, lon, alt), later) =
      ground (arith, lat, lon, alt, check_steps-none (i + 1) ss later)

  module _ (fl : Floats F) (parse_float : String → Option F) where
    way_point-HasPosition :
        (i : ℕ) (lat lon alt : F) → HasPosition (way_point fl parse_float i lat lon alt)
    unfolding get
    way_point-HasPosition i lat lon alt = (refl, refl, refl)

    add_line-steps :
        (r : Route F) (idx cmd : ℤ) (current : Option ℤ) (lat lon alt : F)
        → ((add_line fl parse_float r idx cmd current lat lon alt).steps ≡ r.steps)
          ⊎ ((add_line fl parse_float r idx cmd current lat lon alt).steps
              ≡ r.steps ++ (way_point fl parse_float (length r.steps) lat lon alt ∷ []))
    unfolding add_line
    add_line-steps r idx cmd current lat lon alt = ground arith

    add_line-HasPosition :
        (r : Route F) (idx cmd : ℤ) (current : Option ℤ) (lat lon alt : F)
        → All HasPosition r.steps
        → All HasPosition (add_line fl parse_float r idx cmd current lat lon alt).steps
    add_line-HasPosition r idx cmd current lat lon alt h =
        elim (add_line-steps r idx cmd current lat lon alt) [
          | inl same ↦ subst (All HasPosition) (sym same) h
          | inr more ↦ subst (All HasPosition) (sym more) (
              All-append HasPosition r.steps _ h
                (way_point-HasPosition (length r.steps) lat lon alt, tt))
        ]

    move_steps : (r s : Route F) → ok r ≡ ok s → All HasPosition r.steps → All HasPosition s.steps
    move_steps r s e h = subst (λ (x : Route F). All HasPosition x.steps) (the_ok e) h

    read_line-HasPosition :
        (i : ℕ) (r s : Route F) (idx cmd current : Option ℤ) (lat lon alt : Option F)
        → All HasPosition r.steps
        → read_line fl parse_float i r idx cmd current lat lon alt ≡ ok s
        → All HasPosition s.steps
    unfolding read_line
    read_line-HasPosition i r s (some idx) (some cmd) current (some lat) (some lon) (some alt) h e =
        move_steps _ s e (add_line-HasPosition r idx cmd current lat lon alt h)
    read_line-HasPosition i r s (some idx) (some cmd) current (some lat) (some lon) none h e = cc
    read_line-HasPosition i r s (some idx) (some cmd) current (some lat) none alt h e = cc
    read_line-HasPosition i r s (some idx) (some cmd) current none lon alt h e = cc
    read_line-HasPosition i r s (some idx) none current lat lon alt h e = cc
    read_line-HasPosition i r s none cmd current lat lon alt h e = cc

    parse_line-HasPosition :
        (i : ℕ) (r s : Route F) (parts : List String)
        → All HasPosition r.steps
        → parse_line fl parse_float i r parts ≡ ok s
        → All HasPosition s.steps
    unfolding parse_line
    parse_line-HasPosition i r s parts h e =
        let idx = atoi (column parts 0) in
        let cmd = atoi (column parts 3) in
        let current = atoi (column parts 1) in
        let lat = parse_float (column parts 8) in
        let lon = parse_float (column parts 9) in
        let alt = parse_float (column parts 10) in
        read_line-HasPosition i r s idx cmd current lat lon alt h (ground (arith, e))

    parse_lines-HasPosition :
        (i : ℕ) (r s : Route F) (lines : List String)
        → All HasPosition r.steps
        → parse_lines fl parse_float i r lines ≡ ok s
        → All HasPosition s.steps
    unfolding parse_lines
    parse_lines-HasPosition i r s [] h e = move_steps r s e h
    parse_lines-HasPosition i r s (line ∷ lines) h e =
        go (parse_line fl parse_float i r (columns line)) refl e
          (λ t k l. parse_lines-HasPosition (i + 1) t s lines k l)
      where
        go :
            (o : Result (Route F))
            → parse_line fl parse_float i r (columns line) ≡ o
            → elim o [ ok t ↦ parse_lines fl parse_float (i + 1) t lines | err m ↦ err m ] ≡ ok s
            → ((t : Route F)
                → All HasPosition t.steps
                → parse_lines fl parse_float (i + 1) t lines ≡ ok s
                → All HasPosition s.steps)
            → All HasPosition s.steps
        go (ok t) found later on = on t (parse_line-HasPosition i r t (columns line) h found) later
        go (err m) found later on = cc

    module _ {S : Type 0} (env : Env F S) (r : Run F S) where
      name_mission-named :
          (mid : String) → is_empty (name_mission fl parse_float mid env r).0 ≡ false
      name_mission-named mid = elim (Bool-cases (is_empty mid)) [
        | inl unnamed ↦ rw unnamed (append-is_empty (itoa (env.now r.events / 1000000)))
        | inr named ↦ ground (arith, named)
      ]

      mission_of-valid :
          (name : String) (home first : Fields F) (rest : List (Fields F))
          → is_empty name ≡ false
          → All HasPosition (first ∷ rest)
          → validate_mission (mission_of fl parse_float name home (first ∷ rest)) ≡ none
      unfolding validate_mission get
      mission_of-valid name home first rest named h =
          ground (arith, named, check_steps-none 0 (first ∷ rest) h)

      finish-valid :
          (mid : String) (home : Option (Fields F)) (steps : List (Fields F)) (m : Fields F)
          → All HasPosition steps
          → (finish fl parse_float mid (record { home = home; steps = steps }) env r).0 ≡ ok m
          → validate_mission m ≡ none
      unfolding finish
      finish-valid mid home [] m h e = cc
      finish-valid mid home (first ∷ rest) m h e =
          subst (λ x. validate_mission x ≡ none) (the_ok e)
            (mission_of-valid (name_mission fl parse_float mid env r).0
              (home_of fl parse_float home first) first rest (name_mission-named mid) h)

      finish_lines-valid :
          (mid : String) (o : Result (Route F)) (m : Fields F)
          → ((s : Route F) → o ≡ ok s → All HasPosition s.steps)
          → (finish_lines fl parse_float mid o env r).0 ≡ ok m
          → validate_mission m ≡ none
      finish_lines-valid mid (ok s) m h e = finish-valid mid s.home s.steps m (h s refl) e
      finish_lines-valid mid (err x) m h e = cc

      parse_non_empty-valid :
          (mid : String) (lines : List String) (m : Fields F)
          → (parse_non_empty fl parse_float mid lines env r).0 ≡ ok m
          → validate_mission m ≡ none
      unfolding parse_non_empty
      parse_non_empty-valid mid [] m e = cc
      parse_non_empty-valid mid (header ∷ lines) m e =
          let start : Route F = record { home = none; steps = [] } in
          finish_lines-valid mid (parse_lines fl parse_float 1 start lines) m
            (λ s. parse_lines-HasPosition 1 start s lines tt) (ground (arith, e))

      -- A mission that ParseWPL returns passes validateMission.
      pub parse_wpl-valid :
          (content mid : String) (m : Fields F)
          → (parse_wpl fl parse_float content mid env r).0 ≡ ok m
          → validate_mission m ≡ none
      unfolding parse_wpl
      parse_wpl-valid content mid m e =
          parse_non_empty-valid mid (non_empty (split b'\n' (trim_space content))) m
            (ground (arith, e))
