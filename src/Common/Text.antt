-- ===== src/Common/Text.antt =====
-- Go's strings.TrimSpace, strings.ToUpper, strings.ToLower and strings.EqualFold on texts.
-- The case maps send a character to the ASCII letter that Unicode gives it and leave any other
-- character as it is: the components compare the results with ASCII texts alone.
use Prim.Native.Nat.{ℕ, zero, suc, ◌-◌, ◌/◌, ◌%◌}
use Prim.Native.Char.{Char, code}
use Prim.Native.String.{String}
use mathlib.Core.List.{List, [], ◌∷◌}
use mathlib.Core.Bool.{Bool, true, false, ◌&&◌, ◌||◌}
use text.Mathlib.Text.{◌==◌}
use mathlib.Core.Path.{◌≡◌, refl}
use mathlib.Core.Logic.{inl, inr}
use drones.Common.Tests.{leb, eqb, if◌then◌else◌, Bool-cases}

-- unicode.IsSpace
unfoldable pub is_space : ℕ → Bool
is_space c =
    (leb 9 c && leb c 13)
    || eqb c 32
    || eqb c 0x85
    || eqb c 0xA0
    || eqb c 0x1680
    || (leb 0x2000 c && leb c 0x200A)
    || eqb c 0x2028
    || eqb c 0x2029
    || eqb c 0x202F
    || eqb c 0x205F
    || eqb c 0x3000

abbrev pub is_empty : String → Bool
is_empty String.[] = true
is_empty (String.◌∷◌ c s) = false

unfoldable pub trim_left : String → String
unfolding is_space
trim_left String.[] = ""
trim_left (String.◌∷◌ c s) =
    let rest = trim_left s in if is_space (code c) then rest else String.◌∷◌ c s

unfoldable pub trim_right : String → String
unfolding is_space
trim_right String.[] = ""
trim_right (String.◌∷◌ c s) =
    let rest = trim_right s in if is_space (code c) && is_empty rest then "" else String.◌∷◌ c rest

unfoldable pub trim_space : String → String
unfolding trim_left trim_right
trim_space s = trim_right (trim_left s)

char_or : String → ℕ → Char → Char
char_or String.[] n d = d
char_or (String.◌∷◌ c s) zero d = c
char_or (String.◌∷◌ c s) (suc n) d = char_or s n d

upper_char : Char → Char
unfolding char_or
upper_char c =
    if leb b'a' (code c) && leb (code c) b'z'
    then char_or "ABCDEFGHIJKLMNOPQRSTUVWXYZ" (code c - b'a') c
    else if eqb (code c) 0x131
    then "I"
    else if eqb (code c) 0x17F
    then "S"
    else c

lower_char : Char → Char
unfolding char_or
lower_char c =
    if leb b'A' (code c) && leb (code c) b'Z'
    then char_or "abcdefghijklmnopqrstuvwxyz" (code c - b'A') c
    else if eqb (code c) 0x130
    then "i"
    else if eqb (code c) 0x212A
    then "k"
    else c

-- simple folding, for which the long s and the Kelvin sign are letters and the dotted I is not
fold_char : Char → Char
unfolding char_or
fold_char c =
    if leb b'A' (code c) && leb (code c) b'Z'
    then char_or "abcdefghijklmnopqrstuvwxyz" (code c - b'A') c
    else if eqb (code c) 0x17F
    then "s"
    else if eqb (code c) 0x212A
    then "k"
    else c

unfoldable pub to_upper : String → String
unfolding upper_char
to_upper String.[] = ""
to_upper (String.◌∷◌ c s) = String.◌∷◌ (upper_char c) (to_upper s)

unfoldable pub to_lower : String → String
unfolding lower_char
to_lower String.[] = ""
to_lower (String.◌∷◌ c s) = String.◌∷◌ (lower_char c) (to_lower s)

fold : String → String
unfolding fold_char
fold String.[] = ""
fold (String.◌∷◌ c s) = String.◌∷◌ (fold_char c) (fold s)

unfoldable pub equal_fold : String → String → Bool
unfolding fold
equal_fold s t = fold s == fold t

-- puts a character before the first of the parts
prepend : Char → List String → List String
prepend c [] = (String.◌∷◌ c "") ∷ []
prepend c (s ∷ ss) = (String.◌∷◌ c s) ∷ ss

-- strings.Split by one character, given by its code: always at least one part
unfoldable pub split : ℕ → String → List String
unfolding prepend
split sep String.[] = "" ∷ []
split sep (String.◌∷◌ c s) =
    let rest = split sep s in if eqb (code c) sep then "" ∷ rest else prepend c rest

-- strconv.Itoa for n ≥ 0, which has at most n + 1 digits
digits : ℕ → ℕ → String → String
unfolding char_or
digits zero n acc = acc
digits (suc fuel) n acc =
    let more = digits fuel (n / 10) (String.◌∷◌ (char_or "0123456789" (n % 10) "0") acc) in
    if eqb (n / 10) 0 then String.◌∷◌ (char_or "0123456789" (n % 10) "0") acc else more

unfoldable pub itoa : ℕ → String
unfolding digits
itoa n = digits (suc n) n ""

digits-ne-empty :
    (fuel n : ℕ) (acc : String) → is_empty acc ≡ false → is_empty (digits fuel n acc) ≡ false
unfolding digits
digits-ne-empty zero n acc h = h
digits-ne-empty (suc fuel) n acc h = elim (Bool-cases (eqb (n / 10) 0)) [
  | inl last ↦ rw last refl
  | inr more ↦
      rw more
        (digits-ne-empty fuel (n / 10) (String.◌∷◌ (char_or "0123456789" (n % 10) "0") acc) refl)
]

pub itoa-ne-empty : (n : ℕ) → is_empty (itoa n) ≡ false
unfolding itoa
itoa-ne-empty n = elim (Bool-cases (eqb (n / 10) 0)) [
  | inl last ↦ rw last refl
  | inr more ↦
      rw more (digits-ne-empty n (n / 10) (String.◌∷◌ (char_or "0123456789" (n % 10) "0") "") refl)
]
