-- ===== src/Json.antt =====
-- JSON.stringify at the values that the identities are made of: arrays of texts and nulls. The text
-- holds no unpaired surrogate, so no code point above 0x1f but '"' and '\' is escaped.
use active_ts.Prelude.{
  ◌≡◌, refl, ℕ, ◌/◌, ◌%◌, Option, none, some, List, [], ◌∷◌, ltb, ◌==◌, if◌then◌else◌,
}
use active_ts.Prelude.Text.{String, Char, code, ◌⧺◌}
use active_ts.Prelude.Text.Decimal.{digit}

hex_digit : ℕ → String
hex_digit n =
    if ltb n 10
    then digit n
    else if n == 10
    then "a"
    else if n == 11
    then "b"
    else if n == 12
    then "c"
    else if n == 13
    then "d"
    else if n == 14
    then "e"
    else "f"

-- The escape of one character.
escape : Char → String
unfolding hex_digit
escape c =
    if code c == 0x22
    then "\\\""
    else if code c == 0x5c
    then "\\\\"
    else if code c == 8
    then "\\b"
    else if code c == 9
    then "\\t"
    else if code c == 10
    then "\\n"
    else if code c == 12
    then "\\f"
    else if code c == 13
    then "\\r"
    else if ltb (code c) 0x20
    then "\\u00" ⧺ hex_digit (code c / 16) ⧺ hex_digit (code c % 16)
    else String.◌∷◌ c ""

escape_all : String → String
unfolding escape
escape_all String.[] = ""
escape_all (String.◌∷◌ c s) = escape c ⧺ escape_all s

-- A text in quotes.
unfoldable pub quote : String → String
unfolding escape_all
quote s = "\"" ⧺ escape_all s ⧺ "\""

abbrev pub nullable : Option String → String
nullable none = "null"
nullable (some s) = quote s

items : List (Option String) → String
items [] = ""
items (v ∷ []) = nullable v
items (v ∷ w ∷ vs) = nullable v ⧺ "," ⧺ items (w ∷ vs)

unfoldable pub stringify : List (Option String) → String
unfolding items quote
stringify vs = "[" ⧺ items vs ⧺ "]"

stringify_runs : stringify (some "a\"\n" ∷ none ∷ some "b" ∷ []) ≡ "[\"a\\\"\\n\",null,\"b\"]"
unfolding stringify
stringify_runs = refl
