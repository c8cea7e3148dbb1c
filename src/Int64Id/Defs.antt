-- ===== src/Int64Id/Defs.antt =====
-- src/core/datastore-int64-id.ts: the definitions.
use active_ts.Prelude.{
  ◌-◌, ◌^◌, Bool, true, false, ◌&&◌, ◌||◌, not, Option, none, some, ltb, ◌==◌, if◌then◌else◌,
}
use active_ts.Prelude.Int.{ℤ, pos, negsuc}
use active_ts.Prelude.Text.{String, code, ◌⧺◌, is_empty, strip_prefix}
use active_ts.Prelude.Text.Decimal.{all_digits, starts_nonzero, print_ℤ, read_ℤ}
use active_ts.Errors.{Result, ok, throw, validation}

-- DATASTORE_INT64_ID_PREFIX
abbrev pub int64_prefix : String
int64_prefix = "\0active-ts:datastore-int64:"

-- `0|[1-9]\d*`
abbrev pub is_canonical_magnitude : String → Bool
is_canonical_magnitude String.[] = false
is_canonical_magnitude (String.◌∷◌ c s) =
    ((code c == b'0') && is_empty s) || (starts_nonzero (String.◌∷◌ c s) && all_digits s)

abbrev pub is_zero_text : String → Bool
is_zero_text String.[] = false
is_zero_text (String.◌∷◌ c s) = (code c == b'0') && is_empty s

-- `/^-?(0|[1-9]\d*)$/.test(decimal) && decimal !== '-0'`
unfoldable pub is_canonical_decimal : String → Bool
is_canonical_decimal String.[] = false
is_canonical_decimal (String.◌∷◌ c s) =
    if code c == b'-'
    then is_canonical_magnitude s && not (is_zero_text s)
    else is_canonical_magnitude (String.◌∷◌ c s)

-- DATASTORE_INT64_MIN ≤ z ≤ DATASTORE_INT64_MAX
abbrev pub fits_int64 : ℤ → Bool
fits_int64 (pos n) = ltb n (2 ^ 63)
fits_int64 (negsuc n) = ltb n (2 ^ 63)

-- SAFE_INTEGER_MIN ≤ z ≤ SAFE_INTEGER_MAX
abbrev pub is_safe_integer : ℤ → Bool
is_safe_integer (pos n) = ltb n (2 ^ 53)
is_safe_integer (negsuc n) = ltb n (2 ^ 53 - 1)

-- The range tests that follow the parse: 0, a value beyond 64 bits or a safe integer is refused.
-- (0 is a safe integer, so the test for 0 needs no mention of its own.)
abbrev pub is_int64_id_value : ℤ → Bool
is_int64_id_value z = fits_int64 z && not (is_safe_integer z)

unfoldable pub datastore_int64_decimal : String → Option String
datastore_int64_decimal value = elim (strip_prefix int64_prefix value) [
  | none ↦ none
  | some decimal ↦
      if is_canonical_decimal decimal
      then elim (read_ℤ decimal) [
        | none ↦ none
        | some z ↦ if is_int64_id_value z then some decimal else none
      ]
      else none
]

-- `datastoreInt64Id` at a text.
unfoldable pub datastore_int64_id : String → Result String
datastore_int64_id decimal =
    if is_canonical_decimal decimal
    then elim (read_ℤ decimal) [
      | none ↦ throw validation
      | some z ↦ if is_int64_id_value z then ok (int64_prefix ⧺ decimal) else throw validation
    ]
    else throw validation

-- `datastoreInt64Id` at a bigint.
unfoldable pub datastore_int64_id_of_bigint : ℤ → Result String
unfolding datastore_int64_id
datastore_int64_id_of_bigint z = datastore_int64_id (print_ℤ z)

unfoldable pub is_datastore_int64_id : String → Bool
is_datastore_int64_id value = elim (datastore_int64_decimal value) [ none ↦ false | some _ ↦ true ]

unfoldable pub datastore_int64_id_value : String → Result String
datastore_int64_id_value id = elim (datastore_int64_decimal id) [
  | none ↦ throw validation
  | some decimal ↦ ok decimal
]
