-- ===== src/SchemaNames.antt =====
-- src/core/schema-names.ts: names of indexes that are made from the fields. The set of the metadata whose
-- names were generated is left out: `assertSchemaNameOrigin` checks those in it.
pub mod Laws
pub mod Origins
pub mod Reserved
use active_ts.Prelude.{
  ℕ, Bool, true, false, ◌&&◌, ◌||◌, not, Option, none, some, List, [], ◌∷◌, ◌==◌, if◌then◌else◌,
}
use active_ts.Prelude.Text.{String, Char, code, ◌⧺◌, is_empty, str_eq}
use active_ts.SafeKeys.{is_letter, is_identifier_char}
use active_ts.Errors.{Result, ok, configuration, guard, ◌>>=◌, ◌>>◌}

abbrev pub is_underscore : Char → Bool
is_underscore c = code c == b'_'

-- `replace(/[^A-Za-z0-9_-]/g, '_')`. A code point outside the basic plane is two units, so it gives two
-- underscores in the source, which are later collapsed as this one is.
unfoldable pub clean_field : String → String
clean_field String.[] = String.[]
clean_field (String.◌∷◌ c s) =
    let rest : String = clean_field s in
    if is_identifier_char c then String.◌∷◌ c rest else "_" ⧺ rest

unfoldable pub join_rest : List String → String
unfolding clean_field
join_rest [] = String.[]
join_rest (f ∷ fs) = "_" ⧺ clean_field f ⧺ join_rest fs

-- The loop over the fields.
unfoldable pub join_fields : List String → String
unfolding join_rest
join_fields [] = String.[]
join_fields (f ∷ fs) = clean_field f ⧺ join_rest fs

-- `replace(/_+/g, '_')`, where `after` tells whether an underscore stands before.
unfoldable pub collapse : Bool → String → String
collapse after String.[] = String.[]
collapse after (String.◌∷◌ c s) =
    let rest : String = collapse (is_underscore c) s in
    if is_underscore c && after then rest else String.◌∷◌ c rest

-- `replace(/^_+|_+$/g, '')`, at the start and at the end.
unfoldable pub trim_start : String → String
trim_start String.[] = String.[]
trim_start (String.◌∷◌ c s) =
    let rest : String = trim_start s in if is_underscore c then rest else String.◌∷◌ c s

unfoldable pub trim_end : String → String
trim_end String.[] = String.[]
trim_end (String.◌∷◌ c s) =
    let rest : String = trim_end s in
    if is_underscore c && is_empty rest then String.[] else String.◌∷◌ c rest

-- `/^[A-Za-z]/`
unfoldable pub starts_with_letter : String → Bool
starts_with_letter String.[] = false
starts_with_letter (String.◌∷◌ c s) = is_letter c

-- What stands in the name for the fields.
unfoldable pub joined_name : List String → String
unfolding join_fields collapse trim_start trim_end
joined_name fields = trim_end (trim_start (collapse false (join_fields fields)))

unfoldable pub default_schema_name : String → List String → String
unfolding joined_name starts_with_letter
default_schema_name prefix fields =
    let name : String = joined_name fields in
    if starts_with_letter name
    then name
    else prefix ⧺ "_" ⧺ (if is_empty name then "field" else name)

-- `IndexMeta` and `SearchIndexMeta`, of which the check reads these fields.
pub record IndexMeta : Type 0 where
  pub name : String
  pub fields : List String
  pub adapter : Option String

pub data SchemaKind : Type 0 where
  index search_index : SchemaKind

abbrev pub adapter_eq : Option String → Option String → Bool
adapter_eq none none = true
adapter_eq none (some b) = false
adapter_eq (some a) none = false
adapter_eq (some a) (some b) = str_eq a b

unfoldable pub same_field_names : List String → List String → Bool
same_field_names [] [] = true
same_field_names [] (g ∷ gs) = false
same_field_names (f ∷ fs) [] = false
same_field_names (f ∷ fs) (g ∷ gs) = str_eq f g && same_field_names fs gs

-- Whether the loop passes over an index: another name, or another adapter of a search index.
unfoldable pub is_other : SchemaKind → String → Option String → IndexMeta → Bool
is_other index name adapter i = not (str_eq i.name name)
is_other search_index name adapter i =
    not (str_eq i.name name) || not (adapter_eq i.adapter adapter)

unfoldable pub assert_generated_schema_name :
    SchemaKind → String → List String → List IndexMeta → Option String → Result (Unit {0})
unfolding is_other same_field_names
assert_generated_schema_name kind name fields [] adapter = ok tt
assert_generated_schema_name kind name fields (i ∷ is) adapter = do
  guard (is_other kind name adapter i || same_field_names i.fields fields) configuration
  assert_generated_schema_name kind name fields is adapter
