-- ===== src/SchemaNames/Origins.antt =====
-- src/core/schema-names.ts, `assertGeneratedSchemaName`: generated names that clash.
use active_ts.Prelude.{
  ◌≡◌, refl, ap, ◌↔◌, inl, inr, true, false, ◌||◌, Option, none, some, List, [], ◌∷◌, All,
  Bool-cases, &&-eq-true, arith,
}
use active_ts.Prelude.Text.{String, str_eq, str_eq_iff}
use active_ts.Errors.{ok, configuration, bind_guard}
use active_ts.SchemaNames.{
  IndexMeta, SchemaKind, index, search_index, adapter_eq, same_field_names, is_other,
  assert_generated_schema_name,
}

-- The index has the name that is generated; a search index also has its adapter.
abbrev pub IsNamesake : SchemaKind → String → Option String → IndexMeta → Type 0
IsNamesake index name adapter i = i.name ≡ name
IsNamesake search_index name adapter i = (i.name ≡ name) × (i.adapter ≡ adapter)

adapter_eq_iff : (a b : Option String) → (adapter_eq a b ≡ true) ↔ (a ≡ b)
adapter_eq_iff none none = (λ h. refl, λ h. refl)
adapter_eq_iff none (some b) = (λ h. absurd (cc h), λ h. absurd (cc h))
adapter_eq_iff (some a) none = (λ h. absurd (cc h), λ h. absurd (cc h))
adapter_eq_iff (some a) (some b) =
    (λ h. ap some ((str_eq_iff a b).0 h), λ h. (str_eq_iff a b).1 (cc h))

same_field_names_iff : (fs gs : List String) → (same_field_names fs gs ≡ true) ↔ (fs ≡ gs)
unfolding same_field_names
same_field_names_iff [] [] = (λ h. refl, λ h. refl)
same_field_names_iff [] (g ∷ gs) = (λ h. absurd (cc h), λ h. absurd (cc h))
same_field_names_iff (f ∷ fs) [] = (λ h. absurd (cc h), λ h. absurd (cc h))
same_field_names_iff (f ∷ fs) (g ∷ gs) = (
  λ h.
      let (first, rest) = &&-eq-true (str_eq f g) (same_field_names fs gs) h in
      cc ((str_eq_iff f g).0 first, (same_field_names_iff fs gs).0 rest),
  λ h. rw ((str_eq_iff f g).1 (cc h)) ((same_field_names_iff fs gs).1 (cc h)),
)

is_other-IsNamesake :
    (kind : SchemaKind) (name : String) (adapter : Option String) (i : IndexMeta)
    → is_other kind name adapter i ≡ false
    → IsNamesake kind name adapter i
unfolding is_other
is_other-IsNamesake index name adapter i h = (str_eq_iff i.name name).0 (ground (arith, h))
is_other-IsNamesake search_index name adapter i h = (
  (str_eq_iff i.name name).0 (ground (arith, h)),
  (adapter_eq_iff i.adapter adapter).0 (ground (arith, h)),
)

IsNamesake-is_other :
    (kind : SchemaKind) (name : String) (adapter : Option String) (i : IndexMeta)
    → IsNamesake kind name adapter i
    → is_other kind name adapter i ≡ false
unfolding is_other
IsNamesake-is_other index name adapter i h = rw ((str_eq_iff i.name name).1 h) refl
IsNamesake-is_other search_index name adapter i (h, g) =
    rw ((str_eq_iff i.name name).1 h, (adapter_eq_iff i.adapter adapter).1 g) refl

-- An index of the name has the fields.
abbrev pub Agrees : SchemaKind → String → List String → Option String → IndexMeta → Type 0
Agrees kind name fields adapter i = IsNamesake kind name adapter i → i.fields ≡ fields

passes-Agrees :
    (kind : SchemaKind) (name : String) (fields : List String) (adapter : Option String)
    (i : IndexMeta)
    → ((is_other kind name adapter i || same_field_names i.fields fields) ≡ true)
      ↔ Agrees kind name fields adapter i
passes-Agrees kind name fields adapter i = (
  λ h same.
      (same_field_names_iff i.fields fields).0
        (rw (IsNamesake-is_other kind name adapter i same) at h),
  λ agrees. elim (Bool-cases (is_other kind name adapter i)) [
    | inl other ↦ rw other refl
    | inr namesake ↦
        rw
          (
            namesake,
            (same_field_names_iff i.fields fields).1
                (agrees (is_other-IsNamesake kind name adapter i namesake)),
          )
          refl
  ],
)

-- A generated name is accepted exactly if every index there is of that name, and of the same adapter for search
-- indexes, has the same fields.
pub assert_generated_schema_name_iff :
    (kind : SchemaKind) (name : String) (fields : List String) (existing : List IndexMeta)
    (adapter : Option String)
    → (assert_generated_schema_name kind name fields existing adapter ≡ ok tt)
      ↔ All (Agrees kind name fields adapter) existing
unfolding assert_generated_schema_name
assert_generated_schema_name_iff kind name fields [] adapter = (λ h. tt, λ h. refl)
assert_generated_schema_name_iff kind name fields (i ∷ is) adapter =
    let one = passes-Agrees kind name fields adapter i in
    let others = assert_generated_schema_name_iff kind name fields is adapter in
    (
      λ h.
          let (passes, rest) =
            bind_guard (is_other kind name adapter i || same_field_names i.fields fields)
              configuration (assert_generated_schema_name kind name fields is adapter) h in
          (one.0 passes, others.0 rest),
      λ (agrees, rest). rw (one.1 agrees) (others.1 rest),
    )
