-- ===== src/Common/Scan.antt =====
-- More of Go's packages strings and strconv: HasPrefix, Contains, Fields and Atoi.
use Prim.Native.Nat.{ℕ, ◌+◌, ◌-◌, ◌*◌, ◌^◌}
use Prim.Native.Char.{code}
use Prim.Native.String.{String}
use mathlib.Core.List.{List, [], ◌∷◌}
use mathlib.Core.Bool.{Bool, true, false, ◌&&◌, ◌||◌}
use mathlib.Core.Option.{Option, none, some}
use drones.Common.Tests.{ltb, leb, eqb, if◌then◌else◌}
use drones.Common.Text.{is_empty, is_space}

-- strings.HasPrefix
unfoldable pub has_prefix : String → String → Bool
has_prefix s String.[] = true
has_prefix String.[] (String.◌∷◌ d p) = false
has_prefix (String.◌∷◌ c s) (String.◌∷◌ d p) = eqb (code c) (code d) && has_prefix s p

-- strings.Contains
unfoldable pub contains_text : String → String → Bool
unfolding has_prefix
contains_text String.[] p = has_prefix "" p
contains_text (String.◌∷◌ c s) p = has_prefix (String.◌∷◌ c s) p || contains_text s p

-- The first word of a text that ends at a space is w; the words after it follow.
close_word : String → List String → List String
close_word w rest = if is_empty w then rest else w ∷ rest

-- the beginning of a text up to its first space, and the words after it
words_from : String → String × List String
unfolding is_space close_word
words_from String.[] = ("", [])
words_from (String.◌∷◌ c s) =
    let later = words_from s in
    if is_space (code c) then ("", close_word later.0 later.1) else (String.◌∷◌ c later.0, later.1)

-- strings.Fields
unfoldable pub words : String → List String
unfolding close_word words_from
words s = let p = words_from s in close_word p.0 p.1

-- the value of a text of decimal digits that follow digits of the value n
decimal_from : ℕ → String → Option ℕ
decimal_from n String.[] = some n
decimal_from n (String.◌∷◌ c s) =
    let rest = decimal_from (10 * n + (code c - b'0')) s in
    if leb b'0' (code c) && leb (code c) b'9' then rest else none

-- at least one digit, and nothing else
unfoldable pub decimal : String → Option ℕ
unfolding decimal_from
decimal s = if is_empty s then none else decimal_from 0 s

-- a number below a bound
abbrev below : ℕ → Option ℕ → Option ℕ
below bound (some n) = if ltb n bound then some n else none
below bound none = none

-- strconv.Atoi of a text that stands for a number that is not negative
unfoldable pub natural : String → Option ℕ
unfolding decimal
natural String.[] = none
natural (String.◌∷◌ c s) =
    below (2 ^ 63) (if eqb (code c) b'+' then decimal s else decimal (String.◌∷◌ c s))

-- whether strconv.Atoi finds a number that is below zero, or zero with a sign
unfoldable pub negative : String → Option ℕ
unfolding decimal
negative String.[] = none
negative (String.◌∷◌ c s) = if eqb (code c) b'-' then below (2 ^ 63 + 1) (decimal s) else none
