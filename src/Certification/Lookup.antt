-- ===== src/Certification/Lookup.antt =====
-- envfile.go: what a reader of the environment file finds after UpdateEnvFile.
use text.Mathlib.TextLemmas.{cons-append, nil-append, append_assoc}
use Prim.Native.Char.{code}
use drones.Common.{
  ℕ, suc, ◌≤◌, String, append, Bool, false, Option, none, some, List, [], ◌∷◌, ◌==◌, eq_iff, eqb,
  ◌≡◌, refl, ap, ◌∙◌, arith, inl, inr, Option-cases, has_prefix, trim_left, trim_space, is_space,
  Solid, trim_space-append, if◌then◌else◌,
}
use drones.Certification.EnvFile.{
  cut_equals, is_comment, key_of, sets_certificate, certificate_line, replace_line,
}

-- What a line sets its key to.
abbrev value_after : Option (String × String) → String
value_after none = ""
value_after (some (key, value)) = value

unfoldable pub value_of : String → String
unfolding cut_equals trim_space
value_of line = value_after (cut_equals (trim_space line))

abbrev is_key : Option String → String → Bool
is_key none key = false
is_key (some k) key = k == key

abbrev later_or : Option String → Option String → Option String
later_or (some later) now_set = some later
later_or none now_set = now_set

-- The value that a reader gets in which a later line for a key overrides an earlier one, as it does
-- for a shell or docker compose.
unfoldable pub setting : List String → String → Option String
unfolding key_of value_of
setting [] key = none
setting (line ∷ lines) key =
    later_or (setting lines key) (if is_key (key_of line) key then some (value_of line) else none)

-- the number of lines that set the certificate's key
unfoldable pub certificate_lines : List String → ℕ
unfolding sets_certificate
certificate_lines [] = 0
certificate_lines (line ∷ lines) =
    let rest = certificate_lines lines in if sets_certificate line then suc rest else rest

setting-none :
    (lines : List String) → certificate_lines lines ≡ 0 → setting lines "ORVD_CERTIFICATE_ID" ≡ none
unfolding setting certificate_lines sets_certificate
setting-none [] h = refl
setting-none (line ∷ lines) h = elim (Option-cases (key_of line)) [
  | inl no_key ↦ ground (arith, no_key, h, setting-none lines)
  | inr (k, found) ↦ ground (arith, found, h, setting-none lines)
]

abbrev NoEquals : String → Type 0
NoEquals String.[] = Unit {0}
NoEquals (String.◌∷◌ c s) = (eqb (code c) b'=' ≡ false) × NoEquals s

cut_equals-append : (p s : String) → NoEquals p → cut_equals (append p (append "=" s)) ≡ some (p, s)
unfolding cut_equals
cut_equals-append String.[] s h =
    rw (nil-append (append "=" s), cons-append "=" "" s, nil-append s) refl
cut_equals-append (String.◌∷◌ c p) s h =
    rw (cons-append c p (append "=" s), h.0, cut_equals-append p s h.1) refl

no_equals : NoEquals "ORVD_CERTIFICATE_ID"
no_equals = (
  refl,
  (
    refl,
    (
      refl,
      (
        refl,
        (
          refl,
          (
            refl,
            (
              refl,
              (
                refl,
                (
                  refl,
                  (
                    refl,
                    (refl, (refl, (refl, (refl, (refl, (refl, (refl, (refl, (refl, tt))))))))),
                  ),
                ),
              ),
            ),
          ),
        ),
      ),
    ),
  ),
)

solid : Solid "ORVD_CERTIFICATE_ID="
unfolding is_space
solid = (
  refl,
  (
    refl,
    (
      refl,
      (
        refl,
        (
          refl,
          (
            refl,
            (
              refl,
              (
                refl,
                (
                  refl,
                  (
                    refl,
                    (
                      refl,
                      (refl, (refl, (refl, (refl, (refl, (refl, (refl, (refl, (refl, tt))))))))),
                    ),
                  ),
                ),
              ),
            ),
          ),
        ),
      ),
    ),
  ),
)

module _ (id : String) where
  trim_left-line : trim_left (certificate_line id) ≡ certificate_line id
  unfolding trim_left is_space
  trim_left-line = rw (cons-append "O" "RVD_CERTIFICATE_ID=" id) refl

  not_comment : is_comment (certificate_line id) ≡ false
  unfolding has_prefix
  not_comment = rw (cons-append "O" "RVD_CERTIFICATE_ID=" id) refl

  cut-line : cut_equals (certificate_line id) ≡ some ("ORVD_CERTIFICATE_ID", id)
  cut-line =
      ap cut_equals (append_assoc "ORVD_CERTIFICATE_ID" "=" id)
      ∙ cut_equals-append "ORVD_CERTIFICATE_ID" id no_equals

  name-trimmed : trim_space "ORVD_CERTIFICATE_ID" ≡ "ORVD_CERTIFICATE_ID"
  unfolding trim_space
  name-trimmed = refl

module _ (x : String) where
  line-trimmed : trim_space (certificate_line (trim_space x)) ≡ certificate_line (trim_space x)
  line-trimmed = trim_space-append "ORVD_CERTIFICATE_ID=" x (trim_left-line (trim_space x)) solid

  key-line : key_of (certificate_line (trim_space x)) ≡ some "ORVD_CERTIFICATE_ID"
  unfolding key_of
  key-line =
      let id = trim_space x in rw (line-trimmed, not_comment id, cut-line id, name-trimmed id) refl

  value-line : value_of (certificate_line (trim_space x)) ≡ trim_space x
  unfolding value_of
  value-line =
      ap (λ t. value_after (cut_equals t)) line-trimmed ∙ ap value_after (cut-line (trim_space x))

  -- If at most one of the lines sets the certificate's key, then in the lines that UpdateEnvFile
  -- writes, read so that a later line for a key overrides an earlier one, that key is set to the
  -- certificate's identifier, less the spaces around it, and every other key to what it was set to
  -- before.
  pub replace_line-setting :
      (lines : List String) (key : String)
      → certificate_lines lines ≤ 1
      → setting (replace_line lines (trim_space x)) key
        ≡ (if key == "ORVD_CERTIFICATE_ID" then some (trim_space x) else setting lines key)
  unfolding setting replace_line sets_certificate certificate_lines
  replace_line-setting [] key once = ground (
    arith,
    key-line,
    value-line,
    eq_iff key "ORVD_CERTIFICATE_ID",
    eq_iff "ORVD_CERTIFICATE_ID" key,
  )
  replace_line-setting (line ∷ lines) key once = elim (Option-cases (key_of line)) [
    | inl no_key ↦ ground (arith, no_key, once, replace_line-setting lines key)
    | inr (k, found) ↦ ground (
      arith,
      found,
      once,
      key-line,
      value-line,
      setting-none lines,
      replace_line-setting lines key,
      eq_iff k "ORVD_CERTIFICATE_ID",
      eq_iff k key,
      eq_iff key "ORVD_CERTIFICATE_ID",
      eq_iff "ORVD_CERTIFICATE_ID" key,
    )
  ]
