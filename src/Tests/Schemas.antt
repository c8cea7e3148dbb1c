-- ===== src/Tests/Schemas.antt =====
-- The theorems on generated schema names at concrete inputs, and what some names are.
use active_ts.Prelude.{◌≡◌, refl, ◌↔◌, true, false, none, some, List, [], ◌∷◌, All}
use active_ts.Prelude.Text.{strip_prefix}
use active_ts.SafeKeys.{
  matches_schema_identifier, is_reserved_field_name, assert_safe_schema_identifier,
  all_identifier_chars, is_identifier_char, is_letter,
}
use active_ts.Errors.{ok, throw, validation}
use active_ts.SchemaNames.{
  IndexMeta, search_index, default_schema_name, joined_name, join_fields, join_rest, clean_field,
  collapse, trim_start, trim_end, starts_with_letter, assert_generated_schema_name,
}
use active_ts.SchemaNames.Reserved.{IsInherited, assert-default_schema_name}
use active_ts.SchemaNames.Origins.{Agrees, assert_generated_schema_name_iff}

joined : default_schema_name "index" ("author.id" ∷ "created" ∷ []) ≡ "author_id_created"
unfolding default_schema_name joined_name join_fields join_rest clean_field collapse trim_start
    trim_end starts_with_letter is_identifier_char is_letter
joined = refl

prefixed : default_schema_name "index" ("__7" ∷ "b." ∷ []) ≡ "index_7_b"
unfolding default_schema_name joined_name join_fields join_rest clean_field collapse trim_start
    trim_end starts_with_letter is_identifier_char is_letter
prefixed = refl

empty : default_schema_name "search" ("é" ∷ []) ≡ "search_field"
unfolding default_schema_name joined_name join_fields join_rest clean_field collapse trim_start
    trim_end starts_with_letter is_identifier_char is_letter
empty = refl

index-matches : matches_schema_identifier "index" ≡ true
unfolding matches_schema_identifier all_identifier_chars is_identifier_char is_letter
index-matches = refl

assert-default_schema_name_example :
    let name = default_schema_name "index" ("constructor_" ∷ []) in
    ((assert_safe_schema_identifier name ≡ throw validation)
      ↔ IsInherited (joined_name ("constructor_" ∷ [])))
    × ((assert_safe_schema_identifier name ≡ ok name)
        ↔ ¬ IsInherited (joined_name ("constructor_" ∷ [])))
assert-default_schema_name_example =
    assert-default_schema_name "index" ("constructor_" ∷ []) index-matches

-- A field that is no reserved name itself gives a name that is refused.
refused :
    (is_reserved_field_name "constructor_" ≡ false)
    × (assert_safe_schema_identifier (default_schema_name "index" ("constructor_" ∷ []))
        ≡ throw validation)
unfolding default_schema_name joined_name join_fields join_rest clean_field collapse trim_start
    trim_end starts_with_letter is_identifier_char is_letter is_reserved_field_name strip_prefix
    assert_safe_schema_identifier matches_schema_identifier all_identifier_chars
refused = (refl, refl)

abbrev indexes : List IndexMeta
indexes =
    record { name = "a_b"; fields = "a" ∷ "b" ∷ []; adapter = none }
    ∷ record { name = "a_b"; fields = "a.b" ∷ []; adapter = some "other" }
    ∷ []

assert_generated_schema_name_iff_example :
    (assert_generated_schema_name search_index "a_b" ("a" ∷ "b" ∷ []) indexes none ≡ ok tt)
    ↔ All (Agrees search_index "a_b" ("a" ∷ "b" ∷ []) none) indexes
assert_generated_schema_name_iff_example =
    assert_generated_schema_name_iff search_index "a_b" ("a" ∷ "b" ∷ []) indexes none
