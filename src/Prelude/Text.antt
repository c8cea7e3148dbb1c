-- ===== src/Prelude/Text.antt =====
-- Text: the native `String` walked character by character, decimal numbers in text, and the test
-- for equality. A JavaScript string is read as its code points: unpaired surrogates are left out.
pub mod Decimal
use Prim.Native.Nat.{ℕ, ◌+◌}
use Prim.Native.Char.{Char, code, len_utf8}
use Prim.Native.String.{String}
use mathlib.Core.Path.{◌≡◌, refl, ap}
use mathlib.Core.Bool.{Bool, true, false, ◌||◌}
use mathlib.Core.Option.{Option, none, some}
use native.Mathlib.Omega.{arith}
use text.Mathlib.TextEquality.{Char-path}
use active_ts.Prelude.Tests.{◌==◌, if◌then◌else◌}
pub use Prim.Native.String.{String}
pub use Prim.Native.Char.{Char, code}
pub use text.Mathlib.Text.{◌==◌ as str_eq}
pub use text.Mathlib.TextEquality.{eq_iff as str_eq_iff}
pub use text.Mathlib.TextPositions.{eq_refl as str_eq_refl}

infixr 65 ◌⧺◌
-- Concatenation, by recursion on the first text.
abbrev pub ◌⧺◌ : String → String → String
String.[] ⧺ t = t
(String.◌∷◌ c s) ⧺ t = String.◌∷◌ c (s ⧺ t)

pub ⧺_assoc : (s t u : String) → (s ⧺ t) ⧺ u ≡ s ⧺ (t ⧺ u)
⧺_assoc String.[] t u = refl
⧺_assoc (String.◌∷◌ c s) t u = ap (String.◌∷◌ c) (⧺_assoc s t u)

-- `Buffer.byteLength(text, 'utf8')`.
unfoldable pub byte_length : String → ℕ
byte_length String.[] = 0
byte_length (String.◌∷◌ c s) = len_utf8 c + byte_length s

-- `text.includes('\0')`.
unfoldable pub has_null : String → Bool
has_null String.[] = false
has_null (String.◌∷◌ c s) = (code c == 0) || has_null s

abbrev pub is_empty : String → Bool
is_empty String.[] = true
is_empty (String.◌∷◌ c s) = false

-- What follows the prefix, if the text begins with it: `startsWith` and `slice`.
unfoldable pub strip_prefix : String → String → Option String
strip_prefix String.[] s = some s
strip_prefix (String.◌∷◌ p ps) String.[] = none
strip_prefix (String.◌∷◌ p ps) (String.◌∷◌ c s) =
    if code p == code c then strip_prefix ps s else none

pub strip_prefix-append : (p s : String) → strip_prefix p (p ⧺ s) ≡ some s
unfolding strip_prefix
strip_prefix-append String.[] s = refl
strip_prefix-append (String.◌∷◌ c p) s = ground (arith, strip_prefix-append p s)

pub strip_prefix-eq-some : (p s : String) {r : String} → strip_prefix p s ≡ some r → s ≡ p ⧺ r
unfolding strip_prefix
strip_prefix-eq-some String.[] s h = ground arith
strip_prefix-eq-some (String.◌∷◌ d p) String.[] h = cc
strip_prefix-eq-some (String.◌∷◌ d p) (String.◌∷◌ c s) {r} h =
    ground (arith, strip_prefix-eq-some p s {r = r}, Char-path d c)

-- The text before the first ':' and the text behind it: `indexOf(':')` and two `slice`s.
unfoldable pub split_colon : String → Option (String × String)
split_colon String.[] = none
split_colon (String.◌∷◌ c s) =
    if code c == b':'
    then some ("", s)
    else elim (split_colon s) [ none ↦ none | some (p, r) ↦ some (String.◌∷◌ c p, r) ]
