-- ===== src/Prelude/Assoc.antt =====
-- A JavaScript `Map` with text keys as an association list in insertion order.
use mathlib.Core.Path.{◌≡◌, refl, ◌∙◌}
use mathlib.Core.Bool.{Bool, true, false}
use mathlib.Core.Option.{Option, none, some}
use mathlib.Core.Option
use mathlib.Core.List.{List, [], ◌∷◌}
use native.Mathlib.Omega.{arith}
use active_ts.Prelude.Tests.{if◌then◌else◌}
use active_ts.Prelude.Text.{String, str_eq, str_eq_iff}

module _ {ℓ} {V : Type ℓ} where
  -- `map.get(key)`
  unfoldable pub lookup : String → List (String × V) → Option V
  lookup k [] = none
  lookup k ((j, v) ∷ m) = if str_eq j k then some v else lookup k m

  -- `map.set(key, value)`: a key that is there keeps its place.
  unfoldable pub insert : String → V → List (String × V) → List (String × V)
  insert k v [] = (k, v) ∷ []
  insert k v ((j, w) ∷ m) = if str_eq j k then (j, v) ∷ m else (j, w) ∷ insert k v m

  -- `map.delete(key)`: a key stands once, so what goes is its one entry.
  unfoldable pub erase : String → List (String × V) → List (String × V)
  erase k [] = []
  erase k ((j, w) ∷ m) =
      let rest : List (String × V) = erase k m in if str_eq j k then rest else (j, w) ∷ rest

  -- `map.has(key)`
  unfoldable pub has_key : String → List (String × V) → Bool
  has_key k [] = false
  has_key k ((j, v) ∷ m) = if str_eq j k then true else has_key k m

  -- No key stands twice.
  abbrev pub IsMap : List (String × V) → Type 0
  IsMap [] = Unit
  IsMap ((k, v) ∷ m) = (has_key k m ≡ false) × IsMap m

  pub lookup-insert :
      (k j : String) (v : V) (m : List (String × V))
      → lookup j (insert k v m) ≡ (if str_eq k j then some v else lookup j m)
  unfolding lookup insert
  lookup-insert k j v [] = refl
  lookup-insert k j v ((i, w) ∷ m) =
      ground (arith, str_eq_iff k j, str_eq_iff i k, str_eq_iff i j, lookup-insert k j v m)

  pub has_key-insert :
      (k j : String) (v : V) (m : List (String × V))
      → has_key j (insert k v m) ≡ (if str_eq k j then true else has_key j m)
  unfolding has_key insert
  has_key-insert k j v [] = refl
  has_key-insert k j v ((i, w) ∷ m) =
      ground (arith, str_eq_iff k j, str_eq_iff i k, str_eq_iff i j, has_key-insert k j v m)

  pub has_key-lookup :
      (k : String) (m : List (String × V)) → has_key k m ≡ false → lookup k m ≡ none
  unfolding has_key lookup
  has_key-lookup k [] h = refl
  has_key-lookup k ((i, w) ∷ m) h = ground (arith, has_key-lookup k m)

  pub insert-IsMap : (k : String) (v : V) (m : List (String × V)) → IsMap m → IsMap (insert k v m)
  unfolding insert has_key
  insert-IsMap k v [] h = (refl, tt)
  insert-IsMap k v ((i, w) ∷ m) h =
      ground (arith, has_key-insert k i v m, insert-IsMap k v m, str_eq_iff i k, str_eq_iff k i)

  pub has_key-erase :
      (k j : String) (m : List (String × V)) → has_key j m ≡ false → has_key j (erase k m) ≡ false
  unfolding has_key erase
  has_key-erase k j [] h = refl
  has_key-erase k j ((i, w) ∷ m) h = ground (arith, has_key-erase k j m)

  pub erase-IsMap : (k : String) (m : List (String × V)) → IsMap m → IsMap (erase k m)
  unfolding erase
  erase-IsMap k [] h = tt
  erase-IsMap k ((i, w) ∷ m) h = ground (arith, erase-IsMap k m, has_key-erase k i m)

  pub lookup-erase :
      (k j : String) (m : List (String × V))
      → lookup j (erase k m) ≡ (if str_eq k j then none else lookup j m)
  unfolding lookup erase
  lookup-erase k j [] = ground arith
  lookup-erase k j ((i, w) ∷ m) =
      ground (arith, str_eq_iff k j, str_eq_iff i k, str_eq_iff i j, lookup-erase k j m)

module _ {ℓ κ} {V : Type ℓ} {W : Type κ} (f : V → W) where
  -- The same keys, with other values.
  unfoldable pub map_values : List (String × V) → List (String × W)
  map_values [] = []
  map_values ((k, v) ∷ m) = (k, f v) ∷ map_values m

  pub lookup-map_values :
      (k : String) (m : List (String × V)) → lookup k (map_values m) ≡ Option.map f (lookup k m)
  unfolding lookup map_values
  lookup-map_values k [] = refl
  lookup-map_values k ((j, v) ∷ m) = ground (arith, lookup-map_values k m)

  pub has_key-map_values :
      (k : String) (m : List (String × V)) → has_key k (map_values m) ≡ has_key k m
  unfolding has_key map_values
  has_key-map_values k [] = refl
  has_key-map_values k ((j, v) ∷ m) = ground (arith, has_key-map_values k m)

  pub map_values-IsMap : (m : List (String × V)) → IsMap m → IsMap (map_values m)
  unfolding map_values
  map_values-IsMap [] h = tt
  map_values-IsMap ((k, v) ∷ m) h = (has_key-map_values k m ∙ h.0, map_values-IsMap m h.1)
