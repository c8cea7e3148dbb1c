-- ===== src/SchemaNames/Reserved.antt =====
-- src/core/schema-names.ts: which generated names `assertSafeSchemaIdentifier` refuses.
use active_ts.Prelude.{
  ◌≡◌, refl, ◌↔◌, ◌⊎◌, Bool, true, false, ◌||◌, none, List, Bool-cases, inl, inr, arith,
  if◌then◌else◌,
}
use active_ts.Prelude.Text.{String, ◌⧺◌, is_empty, strip_prefix, str_eq, str_eq_iff}
use active_ts.SafeKeys.{
  is_letter, matches_schema_identifier, is_reserved_field_name, assert_safe_schema_identifier,
}
use active_ts.Errors.{ok, throw, validation}
use active_ts.SchemaNames.{is_underscore, starts_with_letter, joined_name, default_schema_name}
use active_ts.SchemaNames.Laws.{matches-default_schema_name}

has_underscore : String → Bool
has_underscore String.[] = false
has_underscore (String.◌∷◌ c s) = is_underscore c || has_underscore s

has_underscore-append : (p s : String) → has_underscore (p ⧺ "_" ⧺ s) ≡ true
unfolding has_underscore
has_underscore-append String.[] s = refl
has_underscore-append (String.◌∷◌ c p) s = ground (arith, has_underscore-append p s)

-- The names that an object has from its class.
abbrev pub IsInherited : String → Type 0
IsInherited name = (name ≡ "constructor") ⊎ (name ≡ "prototype")

IsInherited-starts : (name : String) → IsInherited name → starts_with_letter name ≡ true
unfolding starts_with_letter is_letter
IsInherited-starts name (inl h) = rw h refl
IsInherited-starts name (inr h) = rw h refl

IsInherited-has_underscore : (name : String) → IsInherited name → has_underscore name ≡ false
unfolding has_underscore
IsInherited-has_underscore name (inl h) = rw h refl
IsInherited-has_underscore name (inr h) = rw h refl

IsInherited-reserved : (name : String) → IsInherited name → is_reserved_field_name name ≡ true
unfolding is_reserved_field_name strip_prefix
IsInherited-reserved name (inl h) = rw h refl
IsInherited-reserved name (inr h) = rw h refl

no_prefix : (name : String) → matches_schema_identifier name ≡ true → strip_prefix "__" name ≡ none
unfolding matches_schema_identifier is_letter strip_prefix
no_prefix String.[] h = refl
no_prefix (String.◌∷◌ c s) h = ground (arith, h)

no_proto : (name : String) → matches_schema_identifier name ≡ true → str_eq name "__proto__" ≡ false
unfolding matches_schema_identifier is_letter
no_proto name h = elim (Bool-cases (str_eq name "__proto__")) [
  | inl same ↦ absurd (cc (rw ((str_eq_iff name "__proto__").0 same) at h))
  | inr other ↦ other
]

reserved-IsInherited :
    (name : String)
    → matches_schema_identifier name ≡ true
    → is_reserved_field_name name ≡ true
    → IsInherited name
unfolding is_reserved_field_name
reserved-IsInherited name h reserved = ground (
  arith,
  reserved,
  no_prefix name h,
  no_proto name h,
  str_eq_iff name "constructor",
  str_eq_iff name "prototype",
)

-- What is generated is inherited only if the fields alone give it: a prefix brings an underscore.
IsInherited-joined_name :
    (prefix : String) (fields : List String)
    → IsInherited (default_schema_name prefix fields) ↔ IsInherited (joined_name fields)
unfolding default_schema_name
IsInherited-joined_name prefix fields =
    elim (Bool-cases (starts_with_letter (joined_name fields))) [
      | inl letter ↦ rw letter (λ h. h, λ h. h)
      | inr other ↦
          let rest = if is_empty (joined_name fields) then "field" else joined_name fields in
          rw other (
            λ h. absurd (
                cc (
                  IsInherited-has_underscore (prefix ⧺ "_" ⧺ rest) h,
                  has_underscore-append prefix rest,
                )),
            λ h. absurd (cc (IsInherited-starts (joined_name fields) h, other)),
          )
    ]

-- If the prefix has the form of a schema identifier, the name that is made for any fields, whatever their
-- characters, is refused as a schema identifier exactly if the fields alone give "constructor" or
-- "prototype", and exactly any other is accepted.
pub assert-default_schema_name :
    (prefix : String) (fields : List String)
    → matches_schema_identifier prefix ≡ true
    → let name = default_schema_name prefix fields in
      ((assert_safe_schema_identifier name ≡ throw validation) ↔ IsInherited (joined_name fields))
      × ((assert_safe_schema_identifier name ≡ ok name) ↔ ¬ IsInherited (joined_name fields))
unfolding assert_safe_schema_identifier
assert-default_schema_name prefix fields fits =
    let name = default_schema_name prefix fields in
    let form = matches-default_schema_name prefix fields fits in
    let same = IsInherited-joined_name prefix fields in
    elim (Bool-cases (is_reserved_field_name name)) [
      | inl reserved ↦
          let inherited = same.0 (reserved-IsInherited name form reserved) in
          let refused : assert_safe_schema_identifier name ≡ throw validation =
            rw (form, reserved) refl in
          (
            (λ h. inherited, λ h. refused),
            (λ h. absurd (cc (h, refused)), λ other. absurd (other inherited)),
          )
      | inr free ↦
          let accepted : assert_safe_schema_identifier name ≡ ok name = rw (form, free) refl in
          let other : ¬ IsInherited (joined_name fields) =
            λ h. cc (IsInherited-reserved name (same.1 h), free) in
          ((λ h. absurd (cc (h, accepted)), λ h. absurd (other h)), (λ h. other, λ h. accepted))
    ]
