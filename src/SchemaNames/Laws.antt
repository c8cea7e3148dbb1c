-- ===== src/SchemaNames/Laws.antt =====
-- src/core/schema-names.ts: generated names have the form of schema identifiers.
use active_ts.Prelude.{
  &&-eq-true, ◌≡◌, refl, Bool, true, false, ◌&&◌, List, [], ◌∷◌, if◌then◌else◌, Bool-cases, inl,
  inr, arith,
}
use active_ts.Prelude.Text.{String, ◌⧺◌, is_empty}
use active_ts.SafeKeys.{
  is_letter, is_identifier_char, all_identifier_chars, matches_schema_identifier,
}
use active_ts.SchemaNames.{
  is_underscore, clean_field, join_rest, join_fields, collapse, trim_start, trim_end,
  starts_with_letter, joined_name, default_schema_name,
}

-- The characters of the text are those of identifiers.
abbrev IsPlain : String → Type 0
IsPlain s = all_identifier_chars s ≡ true

append-IsPlain : (s t : String) → IsPlain s → IsPlain t → IsPlain (s ⧺ t)
unfolding all_identifier_chars
append-IsPlain String.[] t h g = g
append-IsPlain (String.◌∷◌ c s) t h g = ground (arith, h, g, append-IsPlain s t)

underscore-IsPlain : IsPlain "_"
unfolding all_identifier_chars is_identifier_char is_letter
underscore-IsPlain = refl

clean_field-IsPlain : (s : String) → IsPlain (clean_field s)
unfolding clean_field all_identifier_chars
clean_field-IsPlain String.[] = refl
clean_field-IsPlain (String.◌∷◌ c s) = elim (Bool-cases (is_identifier_char c)) [
  | inl plain ↦ rw (plain, clean_field) (rw (plain, all_identifier_chars) (clean_field-IsPlain s))
  | inr other ↦
      rw (other, clean_field)
        (append-IsPlain "_" (clean_field s) underscore-IsPlain (clean_field-IsPlain s))
]

join_rest-IsPlain : (fs : List String) → IsPlain (join_rest fs)
unfolding join_rest all_identifier_chars
join_rest-IsPlain [] = refl
join_rest-IsPlain (f ∷ fs) =
    append-IsPlain "_" (clean_field f ⧺ join_rest fs) underscore-IsPlain
      (append-IsPlain (clean_field f) (join_rest fs) (clean_field-IsPlain f) (join_rest-IsPlain fs))

join_fields-IsPlain : (fs : List String) → IsPlain (join_fields fs)
unfolding join_fields all_identifier_chars
join_fields-IsPlain [] = refl
join_fields-IsPlain (f ∷ fs) =
    append-IsPlain (clean_field f) (join_rest fs) (clean_field-IsPlain f) (join_rest-IsPlain fs)

collapse-IsPlain : (after : Bool) (s : String) → IsPlain s → IsPlain (collapse after s)
unfolding collapse all_identifier_chars
collapse-IsPlain after String.[] h = refl
collapse-IsPlain after (String.◌∷◌ c s) h =
    let (first, rest) = &&-eq-true (is_identifier_char c) (all_identifier_chars s) h in
    let ih : IsPlain (collapse (is_underscore c) s) = collapse-IsPlain (is_underscore c) s rest in
    elim (Bool-cases (is_underscore c && after)) [
      | inl drops ↦ rw (drops, collapse) ih
      | inr keeps ↦ rw (keeps, collapse) (rw (first, all_identifier_chars) ih)
    ]

trim_start-IsPlain : (s : String) → IsPlain s → IsPlain (trim_start s)
unfolding trim_start all_identifier_chars
trim_start-IsPlain String.[] h = refl
trim_start-IsPlain (String.◌∷◌ c s) h =
    let (first, rest) = &&-eq-true (is_identifier_char c) (all_identifier_chars s) h in
    elim (Bool-cases (is_underscore c)) [
      | inl drops ↦ rw (drops, trim_start) (trim_start-IsPlain s rest)
      | inr keeps ↦ rw (keeps, trim_start) h
    ]

trim_end-IsPlain : (s : String) → IsPlain s → IsPlain (trim_end s)
unfolding trim_end all_identifier_chars
trim_end-IsPlain String.[] h = refl
trim_end-IsPlain (String.◌∷◌ c s) h =
    let (first, rest) = &&-eq-true (is_identifier_char c) (all_identifier_chars s) h in
    elim (Bool-cases (is_underscore c && is_empty (trim_end s))) [
      | inl drops ↦ rw (drops, trim_end) refl
      | inr keeps ↦
          rw (keeps, trim_end) (rw (first, all_identifier_chars) (trim_end-IsPlain s rest))
    ]

joined_name-IsPlain : (fields : List String) → IsPlain (joined_name fields)
unfolding joined_name
joined_name-IsPlain fields = trim_end-IsPlain (trim_start (collapse false (join_fields fields))) (
    trim_start-IsPlain (collapse false (join_fields fields))
      (collapse-IsPlain false (join_fields fields) (join_fields-IsPlain fields)))

matches-starts_with_letter :
    (s : String) → starts_with_letter s ≡ true → IsPlain s → matches_schema_identifier s ≡ true
unfolding starts_with_letter matches_schema_identifier all_identifier_chars
matches-starts_with_letter String.[] h plain = h
matches-starts_with_letter (String.◌∷◌ c s) h plain =
    rw h (&&-eq-true (is_identifier_char c) (all_identifier_chars s) plain).1

matches-append :
    (p t : String)
    → matches_schema_identifier p ≡ true
    → IsPlain t
    → matches_schema_identifier (p ⧺ t) ≡ true
unfolding matches_schema_identifier
matches-append String.[] t h plain = absurd (cc h)
matches-append (String.◌∷◌ c p) t h plain =
    let (first, rest) = &&-eq-true (is_letter c) (all_identifier_chars p) h in
    rw first (append-IsPlain p t rest plain)

field_or-IsPlain : (s : String) → IsPlain s → IsPlain (if is_empty s then "field" else s)
unfolding all_identifier_chars is_identifier_char is_letter
field_or-IsPlain String.[] plain = refl
field_or-IsPlain (String.◌∷◌ c s) plain = plain

-- If the prefix is a schema identifier, so is the name that is made for any fields, whatever their characters.
pub matches-default_schema_name :
    (prefix : String) (fields : List String)
    → matches_schema_identifier prefix ≡ true
    → matches_schema_identifier (default_schema_name prefix fields) ≡ true
unfolding default_schema_name
matches-default_schema_name prefix fields fits =
    elim (Bool-cases (starts_with_letter (joined_name fields))) [
      | inl letter ↦
          rw (letter, default_schema_name)
            (matches-starts_with_letter (joined_name fields) letter (joined_name-IsPlain fields))
      | inr other ↦
          rw (other, default_schema_name)
            (matches-append prefix
              ("_" ⧺ (if is_empty (joined_name fields) then "field" else joined_name fields)) fits
              (append-IsPlain "_"
                (if is_empty (joined_name fields) then "field" else joined_name fields)
                underscore-IsPlain
                (field_or-IsPlain (joined_name fields) (joined_name-IsPlain fields))))
    ]
