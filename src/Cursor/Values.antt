-- ===== src/Cursor/Values.antt =====
-- src/core/cursor.ts, `comparable`: which values of a row can be compared, and what reading the others does. A
-- row is here what `valueFor` finds under each field. The text of a date, `toISOString`, is a parameter.
use active_ts.Prelude.{
  ◌+◌, ◌<◌, ◌≡◌, refl, ◌∙◌, sym, ap, ◌↔◌, Bool, List, [], ◌∷◌, All, leb, ltb, if◌then◌else◌,
  Bool-cases, inl, inr, ◌⊎◌, arith,
}
use active_ts.Prelude.Int.{ℤ, pos, negsuc}
use active_ts.Prelude.Text.{String}
use active_ts.DataValue.{
  DataValue, undefined, null, nonfinite, invalid_date, date, binary, array, object, unsupported,
}
use active_ts.Errors.{Result, ok, throw, configuration, ◌>>=◌, >>=-eq-ok, ok-injective}
use active_ts.Cursor.{
  Sign, less, same, greater, Comparable, nothing, number, string, compare_values, CursorSort,
  or_else, directed, compare_keys, Row, cursor_values, compare_rows_by_sort,
}
use active_ts.Cursor.Rows.{compare_keys-cursor_values}

-- src/core/date-intrinsics.ts, `isPortableDate`, in milliseconds since 1970.
unfoldable pub is_portable_date : ℤ → Bool
is_portable_date (pos n) = ltb n 253402300800000
is_portable_date (negsuc n) = leb (n + 1) 62167219200000

-- An own property or a symbol on a date makes it `unsupported`.
unfoldable pub comparable : (ℤ → String) → DataValue → Result Comparable
unfolding is_portable_date
comparable date_text undefined = ok nothing
comparable date_text null = ok nothing
comparable date_text (DataValue.boolean b) = ok (Comparable.boolean b)
comparable date_text (DataValue.number z) = ok (number z)
comparable date_text nonfinite = throw configuration
comparable date_text (DataValue.text s) = ok (string s)
comparable date_text (date z) =
    if is_portable_date z then ok (string (date_text z)) else throw configuration
comparable date_text invalid_date = throw configuration
comparable date_text (binary bytes) = throw configuration
comparable date_text (array items) = throw configuration
comparable date_text (object fields) = throw configuration
comparable date_text unsupported = throw configuration

-- `cursorValues`, which is also `keyFor`.
unfoldable pub read_keys :
    (ℤ → String) → (String → DataValue) → List CursorSort → Result (List Comparable)
unfolding comparable
read_keys date_text row [] = ok []
read_keys date_text row (s ∷ sort) = do
  value ← comparable date_text (row s.field)
  values ← read_keys date_text row sort
  ok (value ∷ values)

-- The first difference decides, and no field after it is read.
abbrev pub or_read : Sign → Result Sign → Result Sign
or_read same rest = rest
or_read less rest = ok less
or_read greater rest = ok greater

-- `compareRowsBySort`
unfoldable pub compare_read :
    (ℤ → String) → (String → DataValue) → (String → DataValue) → List CursorSort → Result Sign
unfolding comparable
compare_read date_text a b [] = ok same
compare_read date_text a b (s ∷ sort) = do
  x ← comparable date_text (a s.field)
  y ← comparable date_text (b s.field)
  or_read (directed s.direction (compare_values x y)) (compare_read date_text a b sort)

-- A missing value, null, a boolean, a finite number, a text, or a date of the years 0000 to 9999.
abbrev pub IsComparable : DataValue → Type 0
IsComparable undefined = Unit
IsComparable null = Unit
IsComparable (DataValue.boolean b) = Unit
IsComparable (DataValue.number z) = Unit
IsComparable nonfinite = ⊥
IsComparable (DataValue.text s) = Unit
IsComparable (date (pos n)) = n < 253402300800000
IsComparable (date (negsuc n)) = n < 62167219200000
IsComparable invalid_date = ⊥
IsComparable (binary bytes) = ⊥
IsComparable (array items) = ⊥
IsComparable (object fields) = ⊥
IsComparable unsupported = ⊥

abbrev pub AreComparable : (String → DataValue) → List CursorSort → Type 0
AreComparable row sort = All (λ (s : CursorSort). IsComparable (row s.field)) sort

-- A call that returns if the condition holds, and throws if it does not.
abbrev Decides {ℓ} : {A : Type ℓ} → Type 0 → Result A → Type ℓ
Decides {A = A} P r = (P × (x : A) × (r ≡ ok x)) ⊎ ((¬ P) × (r ≡ throw configuration))

module _ (date_text : ℤ → String) where
  comparable-Decides : (v : DataValue) → Decides (IsComparable v) (comparable date_text v)
  unfolding comparable is_portable_date
  comparable-Decides undefined = inl (tt, nothing, refl)
  comparable-Decides null = inl (tt, nothing, refl)
  comparable-Decides (DataValue.boolean b) = inl (tt, Comparable.boolean b, refl)
  comparable-Decides (DataValue.number z) = inl (tt, number z, refl)
  comparable-Decides nonfinite = inr (λ h. h, refl)
  comparable-Decides (DataValue.text s) = inl (tt, string s, refl)
  comparable-Decides (date (pos n)) = elim (Bool-cases (ltb n 253402300800000)) [
    | inl within ↦ inl (ground (arith, within), string (date_text (pos n)), rw within refl)
    | inr outside ↦ inr (λ h. ground (arith, outside, h), rw outside refl)
  ]
  comparable-Decides (date (negsuc n)) = elim (Bool-cases (leb (n + 1) 62167219200000)) [
    | inl within ↦ inl (ground (arith, within), string (date_text (negsuc n)), rw within refl)
    | inr outside ↦ inr (λ h. ground (arith, outside, h), rw outside refl)
  ]
  comparable-Decides invalid_date = inr (λ h. h, refl)
  comparable-Decides (binary bytes) = inr (λ h. h, refl)
  comparable-Decides (array items) = inr (λ h. h, refl)
  comparable-Decides (object fields) = inr (λ h. h, refl)
  comparable-Decides unsupported = inr (λ h. h, refl)

  read_keys-Decides :
      (row : String → DataValue) (sort : List CursorSort)
      → Decides (AreComparable row sort) (read_keys date_text row sort)
  unfolding read_keys
  read_keys-Decides row [] = inl (tt, [], refl)
  read_keys-Decides row (s ∷ sort) = elim (comparable-Decides (row s.field)) [
    | inr (other, thrown) ↦ inr (λ h. other h.0, rw (thrown, read_keys) refl)
    | inl (fits, x, got) ↦ elim (read_keys-Decides row sort) [
      | inr (other, thrown) ↦ inr (λ h. other h.1, rw (got, read_keys, thrown) refl)
      | inl (rest, xs, others) ↦ inl ((fits, rest), x ∷ xs, rw (got, read_keys, others) refl)
    ]
  ]

  -- Reading the keys of a row for a sort returns exactly if under each field of the sort the row has nothing,
  -- null, a boolean, a finite number, a text, or a date of the years 0000 to 9999; in exactly any other case
  -- it is refused as a fault of the configuration.
  pub read_keys_iff :
      (row : String → DataValue) (sort : List CursorSort)
      → (((keys : List Comparable) × (read_keys date_text row sort ≡ ok keys))
          ↔ AreComparable row sort)
        × ((read_keys date_text row sort ≡ throw configuration) ↔ ¬ AreComparable row sort)
  read_keys_iff row sort = elim (read_keys-Decides row sort) [
    | inl (fits, keys, got) ↦
        ((λ h. fits, λ h. (keys, got)), (λ h. absurd (cc (h, got)), λ other. absurd (other fits)))
    | inr (other, thrown) ↦ (
      (λ (keys, h). absurd (cc (h, thrown)), λ fits. absurd (other fits)),
      (λ h. other, λ h. thrown),
    )
  ]

  or_read-or_else : (s t : Sign) → or_read s (ok t) ≡ ok (or_else s t)
  or_read-or_else less t = refl
  or_read-or_else same t = refl
  or_read-or_else greater t = refl

  compare_read-compare_keys :
      (a b : String → DataValue) (sort : List CursorSort) {xs ys : List Comparable}
      → read_keys date_text a sort ≡ ok xs
      → read_keys date_text b sort ≡ ok ys
      → compare_read date_text a b sort ≡ ok (compare_keys sort xs ys)
  unfolding read_keys compare_read compare_keys
  compare_read-compare_keys a b [] h g = refl
  compare_read-compare_keys a b (s ∷ sort) h g =
      let (x, first, h₁) = >>=-eq-ok (comparable date_text (a s.field)) _ h in
      let (xs', others, h₂) = >>=-eq-ok (read_keys date_text a sort) _ h₁ in
      let (y, first', g₁) = >>=-eq-ok (comparable date_text (b s.field)) _ g in
      let (ys', others', g₂) = >>=-eq-ok (read_keys date_text b sort) _ g₁ in
      rw
        (
          sym (ok-injective h₂),
          sym (ok-injective g₂),
          first,
          compare_read,
          first',
          compare_read-compare_keys a b sort others others',
        )
        (or_read-or_else (directed s.direction (compare_values x y)) (compare_keys sort xs' ys'))

  -- The row that the order of rows sees: the values that can be compared.
  abbrev pub shown : (String → DataValue) → Row
  shown row field = elim (comparable date_text (row field)) [ ok x ↦ x | throw e ↦ nothing ]

  read_keys-shown :
      (row : String → DataValue) (sort : List CursorSort)
      → AreComparable row sort
      → read_keys date_text row sort ≡ ok (cursor_values (shown row) sort)
  unfolding read_keys cursor_values
  read_keys-shown row [] fits = refl
  read_keys-shown row (s ∷ sort) fits = elim (comparable-Decides (row s.field)) [
    | inr (other, thrown) ↦ absurd (other fits.0)
    | inl (here, x, got) ↦
        rw (got, read_keys, read_keys-shown row sort fits.1) (rw (got, shown) refl)
  ]

  pub compare_read-shown :
      (a b : String → DataValue) (sort : List CursorSort)
      → AreComparable a sort
      → AreComparable b sort
      → (compare_read date_text a b sort ≡ ok (compare_rows_by_sort (shown a) (shown b) sort))
        × ((read_keys date_text a sort >>= λ xs.
              read_keys date_text b sort >>= λ ys. ok (compare_keys sort xs ys))
            ≡ ok (compare_rows_by_sort (shown a) (shown b) sort))
  compare_read-shown a b sort fits fits' =
      let keys = read_keys-shown a sort fits in
      let keys' = read_keys-shown b sort fits' in
      let rows = compare_keys-cursor_values (shown a) (shown b) sort in
      (compare_read-compare_keys a b sort keys keys' ∙ ap ok rows, rw (keys, keys') (ap ok rows))
