-- ===== src/Prelude/Nested.antt =====
-- A `Map` of `Map`s by two text keys.
use mathlib.Core.Path.{◌≡◌, refl, ◌∙◌, sym}
use mathlib.Core.Bool.{Bool, true, false, ◌&&◌}
use mathlib.Core.Option.{Option, none, some}
use mathlib.Core.List.{List, [], ◌∷◌}
use native.Mathlib.Omega.{arith}
use active_ts.Prelude.Tests.{if◌then◌else◌, Option-cases, Bool-cases, &&-eq-true}
use mathlib.Core.Logic.{inl, inr}
use active_ts.Prelude.Text.{String, str_eq, str_eq_iff, str_eq_refl}
use active_ts.Prelude.Assoc.{
  lookup, insert, erase, has_key, IsMap, lookup-insert, lookup-erase, has_key-insert, has_key-erase,
  insert-IsMap, erase-IsMap,
}

abbrev pub Nested {ℓ} : Type ℓ → Type ℓ
Nested V = List (String × List (String × V))

-- Whether two pairs of keys are one.
abbrev pub same_place : String → String → String → String → Bool
same_place n k i j = str_eq n i && str_eq k j

pub same_place-true : (n k i j : String) → same_place n k i j ≡ true → (n ≡ i) × (k ≡ j)
same_place-true n k i j h =
    let (first, second) = &&-eq-true (str_eq n i) (str_eq k j) h in
    ((str_eq_iff n i).0 first, (str_eq_iff k j).0 second)

pub same_place_refl : (n k : String) → same_place n k n k ≡ true
same_place_refl n k = rw (str_eq_refl n, str_eq_refl k) refl

module _ {ℓ} {V : Type ℓ} where
  -- The inner map, which an absent one stands for.
  abbrev pub inner_or_empty : Option (List (String × V)) → List (String × V)
  inner_or_empty none = []
  inner_or_empty (some inner) = inner

  unfoldable pub inner_map : String → Nested V → List (String × V)
  inner_map n m = inner_or_empty (lookup n m)

  unfoldable pub find : String → String → Nested V → Option V
  unfolding inner_map
  find n k m = lookup k (inner_map n m)

  -- Sets the entry, with a new inner map where there is none.
  unfoldable pub put : String → String → V → Nested V → Nested V
  unfolding inner_map
  put n k v m = insert n (insert k v (inner_map n m)) m

  abbrev is_empty_map : List (String × V) → Bool
  is_empty_map [] = true
  is_empty_map (e ∷ es) = false

  -- Deletes the entry from its inner map, which stays.
  unfoldable pub drop_entry : String → String → Nested V → Nested V
  drop_entry n k m = elim (lookup n m) [ none ↦ m | some inner ↦ insert n (erase k inner) m ]

  -- Deletes the entry, and its inner map if that becomes empty.
  unfoldable pub drop_tidy : String → String → Nested V → Nested V
  drop_tidy n k m = elim (lookup n m) [
    | none ↦ m
    | some inner ↦ if is_empty_map (erase k inner) then erase n m else insert n (erase k inner) m
  ]

  pub find-put :
      (n k : String) (v : V) (m : Nested V) (i j : String)
      → find i j (put n k v m) ≡ (if same_place n k i j then some v else find i j m)
  unfolding find put inner_map
  find-put n k v m i j = ground (
    arith,
    lookup-insert n i (insert k v (inner_or_empty (lookup n m))) m,
    lookup-insert k j v (inner_or_empty (lookup n m)),
    str_eq_iff n i,
  )

  none_either : (b : Bool) → ◌≡◌ {A = Option V} none (if b then none else none)
  none_either true = refl
  none_either false = refl

  find-absent :
      (n k : String) (m : Nested V) (i j : String)
      → lookup n m ≡ none
      → find i j m ≡ (if same_place n k i j then none else find i j m)
  unfolding find inner_map lookup
  find-absent n k m i j absent = elim (Bool-cases (str_eq n i)) [
    | inr other ↦ rw other refl
    | inl same ↦ rw (same, sym ((str_eq_iff n i).0 same), absent) (none_either (str_eq k j))
  ]

  find-replaced :
      (n k : String) (m : Nested V) (i j : String) {inner : List (String × V)}
      → lookup n m ≡ some inner
      → find i j (insert n (erase k inner) m) ≡ (if same_place n k i j then none else find i j m)
  unfolding find inner_map
  find-replaced n k m i j {inner} at = elim (Bool-cases (str_eq n i)) [
    | inr other ↦ rw (lookup-insert n i (erase k inner) m, other) refl
    | inl same ↦
        rw (lookup-insert n i (erase k inner) m, same, sym ((str_eq_iff n i).0 same), at)
          (lookup-erase k j inner)
  ]

  pub find-drop_entry :
      (n k : String) (m : Nested V) (i j : String)
      → find i j (drop_entry n k m) ≡ (if same_place n k i j then none else find i j m)
  unfolding drop_entry
  find-drop_entry n k m i j = elim (Option-cases (lookup n m)) [
    | inl absent ↦ rw (absent, drop_entry) (find-absent n k m i j absent)
    | inr (inner, at) ↦ rw (at, drop_entry) (find-replaced n k m i j at)
  ]

  lookup-empty : (m : List (String × V)) (k : String) → is_empty_map m ≡ true → lookup k m ≡ none
  unfolding lookup
  lookup-empty [] k h = refl
  lookup-empty (e ∷ es) k h = absurd (cc h)

  find-emptied :
      (n k : String) (m : Nested V) (i j : String) {inner : List (String × V)}
      → lookup n m ≡ some inner
      → is_empty_map (erase k inner) ≡ true
      → find i j (erase n m) ≡ (if same_place n k i j then none else find i j m)
  unfolding find inner_map lookup
  find-emptied n k m i j {inner} at empty = elim (Bool-cases (str_eq n i)) [
    | inr other ↦ rw (lookup-erase n i m, other) refl
    | inl same ↦
        rw (lookup-erase n i m, same, sym ((str_eq_iff n i).0 same), at)
          (sym (lookup-empty (erase k inner) j empty) ∙ lookup-erase k j inner)
  ]

  pub find-drop_tidy :
      (n k : String) (m : Nested V) (i j : String)
      → find i j (drop_tidy n k m) ≡ (if same_place n k i j then none else find i j m)
  unfolding drop_tidy
  find-drop_tidy n k m i j = elim (Option-cases (lookup n m)) [
    | inl absent ↦ rw (absent, drop_tidy) (find-absent n k m i j absent)
    | inr (inner, at) ↦ elim (Bool-cases (is_empty_map (erase k inner))) [
      | inl empty ↦ rw (at, empty, drop_tidy) (find-emptied n k m i j at empty)
      | inr left ↦ rw (at, left, drop_tidy) (find-replaced n k m i j at)
    ]
  ]

  -- No pair of keys stands twice.
  abbrev pub IsNested : Nested V → Type 0
  IsNested [] = Unit
  IsNested ((n, inner) ∷ m) = (has_key n m ≡ false) × IsMap inner × IsNested m

  insert-IsNested :
      (n : String) (inner : List (String × V)) (m : Nested V)
      → IsMap inner
      → IsNested m
      → IsNested (insert n inner m)
  unfolding insert has_key
  insert-IsNested n inner [] h g = (refl, h, tt)
  insert-IsNested n inner ((i, old) ∷ m) h g =
      ground (
        arith,
        has_key-insert n i inner m,
        insert-IsNested n inner m,
        str_eq_iff i n,
        str_eq_iff n i,
      )

  erase-IsNested : (n : String) (m : Nested V) → IsNested m → IsNested (erase n m)
  unfolding erase
  erase-IsNested n [] g = tt
  erase-IsNested n ((i, old) ∷ m) g = ground (arith, erase-IsNested n m, has_key-erase n i m)

  inner_map-IsMap : (n : String) (m : Nested V) → IsNested m → IsMap (inner_map n m)
  unfolding inner_map lookup
  inner_map-IsMap n [] g = tt
  inner_map-IsMap n ((i, inner) ∷ m) g = elim (Bool-cases (str_eq i n)) [
    | inl here ↦ rw here g.1
    | inr elsewhere ↦ rw elsewhere (inner_map-IsMap n m g.2)
  ]

  pub put-IsNested : (n k : String) (v : V) (m : Nested V) → IsNested m → IsNested (put n k v m)
  unfolding put
  put-IsNested n k v m g =
      insert-IsNested n (insert k v (inner_map n m)) m
        (insert-IsMap k v (inner_map n m) (inner_map-IsMap n m g)) g

  pub drop_tidy-IsNested : (n k : String) (m : Nested V) → IsNested m → IsNested (drop_tidy n k m)
  unfolding drop_tidy inner_map
  drop_tidy-IsNested n k m g = elim (Option-cases (lookup n m)) [
    | inl absent ↦ rw (absent, drop_tidy) g
    | inr (inner, at) ↦ elim (Bool-cases (is_empty_map (erase k inner))) [
      | inl empty ↦ rw (at, empty, drop_tidy) (erase-IsNested n m g)
      | inr left ↦
          rw (at, left, drop_tidy)
            (insert-IsNested n (erase k inner) m
              (erase-IsMap k inner (rw (inner_map, at) at (inner_map-IsMap n m g))) g)
    ]
  ]

  pub find-same_place :
      (n k : String) (m : Nested V) (i j : String)
      → (if same_place n k i j then find n k m else find i j m) ≡ find i j m
  find-same_place n k m i j = elim (Bool-cases (same_place n k i j)) [
    | inr elsewhere ↦ rw elsewhere refl
    | inl here ↦ let (first, second) = same_place-true n k i j here in rw (here, first, second) refl
  ]
