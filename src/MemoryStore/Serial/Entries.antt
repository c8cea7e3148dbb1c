-- ===== src/MemoryStore/Serial/Entries.antt =====
-- src/adapters/store/memory.ts: the loops over a `Map` of `Map`s read each place once.
use active_ts.Prelude.{
  ◌≡◌, refl, false, Option, none, some, List, [], ◌∷◌, ◌++◌, arith, if◌then◌else◌,
}
use active_ts.Prelude.Text.{String, str_eq, str_eq_iff}
use active_ts.Prelude.Assoc.{lookup, has_key, has_key-lookup, IsMap}
use active_ts.Prelude.Nested.{Nested, find, inner_map, same_place, IsNested}
use active_ts.MemoryStore.Commit.{Entry, inner_entries, entries}

module _ {ℓ} {V : Type ℓ} where
  -- What a list of entries has first at a place.
  unfoldable pub found : String → String → List (Entry V) → Option V
  found i j [] = none
  found i j ((n, k, v) ∷ es) = if same_place n k i j then some v else found i j es

  -- No place stands twice.
  abbrev pub IsDistinct : List (Entry V) → Type ℓ
  IsDistinct [] = Unit
  IsDistinct ((n, k, v) ∷ es) = (found n k es ≡ none) × IsDistinct es

  found-append :
      (i j : String) (es fs : List (Entry V))
      → found i j (es ++ fs) ≡ (elim (found i j es) [ none ↦ found i j fs | some v ↦ some v ])
  unfolding found
  found-append i j [] fs = refl
  found-append i j ((n, k, v) ∷ es) fs = ground (arith, found-append i j es fs)

  found-inner_entries :
      (i j n : String) (inner : List (String × V))
      → found i j (inner_entries n inner) ≡ (if str_eq n i then lookup j inner else none)
  unfolding found inner_entries lookup
  found-inner_entries i j n [] = ground arith
  found-inner_entries i j n ((k, v) ∷ inner) = ground (arith, found-inner_entries i j n inner)

  found-entries-absent :
      (i j : String) (m : Nested V) → has_key i m ≡ false → found i j (entries m) ≡ none
  unfolding found entries has_key
  found-entries-absent i j [] h = refl
  found-entries-absent i j ((n, inner) ∷ m) h = ground (
    arith,
    found-append i j (inner_entries n inner) (entries m),
    found-inner_entries i j n inner,
    found-entries-absent i j m,
  )

  -- The entries have at a place what the map has.
  pub found-entries :
      (i j : String) (m : Nested V) → IsNested m → found i j (entries m) ≡ find i j m
  unfolding find inner_map entries lookup found
  found-entries i j [] g = refl
  found-entries i j ((n, inner) ∷ m) g = ground (
    arith,
    found-append i j (inner_entries n inner) (entries m),
    found-inner_entries i j n inner,
    found-entries i j m,
    found-entries-absent i j m,
    str_eq_iff n i,
  )

  found-inner_entries-IsMap :
      (i j n : String) (inner : List (String × V)) (es : List (Entry V))
      → has_key j inner ≡ false
      → found i j es ≡ none
      → found i j (inner_entries n inner ++ es) ≡ none
  unfolding lookup
  found-inner_entries-IsMap i j n inner es h k = ground (
    arith,
    found-append i j (inner_entries n inner) es,
    found-inner_entries i j n inner,
    has_key-lookup j inner,
  )

  inner_entries-IsDistinct :
      (n : String) (inner : List (String × V)) (m : Nested V)
      → has_key n m ≡ false
      → IsMap inner
      → IsDistinct (entries m)
      → IsDistinct (inner_entries n inner ++ entries m)
  unfolding inner_entries
  inner_entries-IsDistinct n [] m h g d = d
  inner_entries-IsDistinct n ((k, v) ∷ inner) m h g d = (
    found-inner_entries-IsMap n k n inner (entries m) g.0 (found-entries-absent n k m h),
    inner_entries-IsDistinct n inner m h g.1 d,
  )

  pub entries-IsDistinct : (m : Nested V) → IsNested m → IsDistinct (entries m)
  unfolding entries
  entries-IsDistinct [] g = tt
  entries-IsDistinct ((n, inner) ∷ m) g =
      inner_entries-IsDistinct n inner m g.0 g.1 (entries-IsDistinct m g.2)

  pub found-some :
      (i j : String) (m : Nested V) {v : V} → find i j m ≡ some v → found i j (entries m) ≡ some v
  unfolding find inner_map entries lookup found
  found-some i j [] {v} h = cc (h)
  found-some i j ((n, inner) ∷ m) {v} h = ground (
    arith,
    found-append i j (inner_entries n inner) (entries m),
    found-inner_entries i j n inner,
    found-some i j m {v = v},
  )
