-- ===== src/Common/Trim.antt =====
-- strings.TrimSpace on texts that end where it cuts, and on texts that begin with others.
use Prim.Native.Char.{code}
use Prim.Native.String.{String, ◌++◌ as append}
use mathlib.Core.Path.{◌≡◌, refl, ap, ◌∙◌}
use mathlib.Core.Bool.{false}
use text.Mathlib.TextLemmas.{nil-append, cons-append}
use native.Mathlib.Omega.{arith}
use drones.Common.Text.{is_space, trim_left, trim_right, trim_space}

-- Text with no spaces.
abbrev pub Solid : String → Type 0
Solid String.[] = Unit {0}
Solid (String.◌∷◌ c s) = (is_space (code c) ≡ false) × Solid s

pub trim_right-append : (p x : String) → Solid p → trim_right (append p x) ≡ append p (trim_right x)
unfolding trim_right
trim_right-append String.[] x h = rw (nil-append x, nil-append (trim_right x)) refl
trim_right-append (String.◌∷◌ c p) x h =
    rw (cons-append c p x, cons-append c p (trim_right x), h.0, trim_right-append p x h.1) refl

pub trim_right_idem : (s : String) → trim_right (trim_right s) ≡ trim_right s
unfolding trim_right
trim_right_idem String.[] = refl
trim_right_idem (String.◌∷◌ c s) = ground (arith, trim_right_idem s)

-- Nothing more is cut of a trimmed text, or of a text with no spaces before it.
pub trim_space-append :
    (p x : String)
    → trim_left (append p (trim_space x)) ≡ append p (trim_space x)
    → Solid p
    → trim_space (append p (trim_space x)) ≡ append p (trim_space x)
unfolding trim_space
trim_space-append p x left h =
    ap trim_right left
    ∙ trim_right-append p (trim_right (trim_left x)) h
    ∙ ap (append p) (trim_right_idem (trim_left x))
