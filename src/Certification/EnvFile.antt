-- ===== src/Certification/EnvFile.antt =====
-- certification/envfile.go: UpdateEnvFile, on the lines of the file. The file system and
-- bufio.Scanner are not modelled.
use Prim.Native.Char.{code}
use drones.Common.{
  String, append, Bool, false, ◌||◌, Option, none, some, List, [], ◌∷◌, ◌==◌, eqb, has_prefix,
  trim_space, is_empty, if◌then◌else◌,
}
use drones.Bus.{Result, ok, err}

-- strings.Cut(s, "=")
unfoldable pub cut_equals : String → Option (String × String)
cut_equals String.[] = none
cut_equals (String.◌∷◌ c s) =
    let rest = cut_equals s in
    if eqb (code c) b'='
    then some ("", s)
    else elim rest [ none ↦ none | some (key, value) ↦ some (String.◌∷◌ c key, value) ]

-- trimmed == "" || strings.HasPrefix(trimmed, "#")
abbrev pub is_comment : String → Bool
is_comment trimmed = is_empty trimmed || has_prefix trimmed "#"

-- the key that a line sets, if any
unfoldable pub key_of : String → Option String
unfolding has_prefix cut_equals trim_space
key_of line =
    if is_comment (trim_space line)
    then none
    else elim (cut_equals (trim_space line)) [ none ↦ none | some (key, v) ↦ some (trim_space key) ]

abbrev sets : Option String → Bool
sets none = false
sets (some key) = key == "ORVD_CERTIFICATE_ID"

unfoldable pub sets_certificate : String → Bool
unfolding key_of
sets_certificate line = sets (key_of line)

abbrev pub certificate_line : String → String
certificate_line id = append "ORVD_CERTIFICATE_ID=" id

-- the loop, and the line that is added where none is found
unfoldable pub replace_line : List String → String → List String
unfolding sets_certificate
replace_line [] id = certificate_line id ∷ []
replace_line (line ∷ lines) id =
    let rest = replace_line lines id in
    if sets_certificate line then certificate_line id ∷ lines else line ∷ rest

-- strings.Join(lines, "\n")
unfoldable pub join_lines : List String → String
join_lines [] = ""
join_lines (l ∷ []) = l
join_lines (l ∷ k ∷ ls) = append l (append "\n" (join_lines (k ∷ ls)))

-- whether a text ends with a line end
unfoldable pub ends_line : String → Bool
ends_line String.[] = false
ends_line (String.◌∷◌ c s) =
    let rest = ends_line s in if is_empty s then eqb (code c) b'\n' else rest

-- UpdateEnvFile: the body that it writes, of the lines that it reads
unfoldable pub update_env_file : List String → String → Result String
unfolding replace_line join_lines ends_line trim_space
update_env_file lines certificate_id =
    let id = trim_space certificate_id in
    let body = join_lines (replace_line lines id) in
    if is_empty id
    then err "certificate id is empty"
    else if ends_line body
    then ok body
    else ok (append body "\n")
