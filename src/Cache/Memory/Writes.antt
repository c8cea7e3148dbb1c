-- ===== src/Cache/Memory/Writes.antt =====
-- src/adapters/cache/memory.ts: what `setMany`, `deleteMany` and `snapshot` do to the map.
use active_ts.Prelude.{
  ap, ℕ, ◌+◌, ◌*◌, ◌≤◌, ◌≡◌, refl, ◌∙◌, Bool, true, false, Option, none, some, List, [], ◌∷◌, ltb,
  Option-cases, if◌then◌else◌, arith, inl, inr,
}
use active_ts.Prelude.Int.{ℤ}
use mathlib.Core.Option
use active_ts.Prelude.Text.{String, str_eq_iff, str_eq_refl}
use active_ts.Prelude.Assoc.{
  lookup, insert, erase, IsMap, lookup-insert, lookup-erase, erase-IsMap, insert-IsMap, has_key,
  has_key-lookup, map_values, lookup-map_values, map_values-IsMap,
}
use active_ts.SafeKeys.{assert_safe_cache_key, assert_safe_ttl}
use active_ts.DataValue.{DataValue, assert_cacheable_value}
use active_ts.Errors.{ok, Result-cases, >>=-eq-ok}
use active_ts.Cache.Memory.Defs.{
  Entry, MemoryCache, count_set_many, is_expired, normalize_cache_keys, normalize_cache_entries,
  prepare, prepare_many, set_many, write_all, delete_many, erase_all, snapshot, live_entries,
  expiry, contains,
}
use active_ts.Cache.Memory.View.{live_value, view, IsValid, is_expired_mono}
use active_ts.Cache.Memory.Reads.{normalize_cache_keys_same}

lookup-write_all :
    (k : String) (p m : List (String × Entry))
    → IsMap p
    → lookup k (write_all p m) ≡ (elim (lookup k p) [ none ↦ lookup k m | some e ↦ some e ])
unfolding write_all lookup
lookup-write_all k [] m d = refl
lookup-write_all k ((j, e) ∷ p) m d = ground (
  arith,
  lookup-write_all k p (insert j e m) d.1,
  lookup-insert j k e m,
  str_eq_iff j k,
  has_key-lookup j p,
)

write_all-IsMap : (p m : List (String × Entry)) → IsMap m → IsMap (write_all p m)
unfolding write_all
write_all-IsMap [] m h = h
write_all-IsMap ((j, e) ∷ p) m h = write_all-IsMap p (insert j e m) (insert-IsMap j e m h)

-- No key of the batch is among those seen before.
abbrev Apart : List String → List (String × DataValue) → Type 0
Apart seen [] = Unit
Apart seen ((k, v) ∷ es) = (contains seen k ≡ false) × Apart (k ∷ seen) es

normalized :
    (seen : List String) (es : List (String × DataValue)) {safe : List (String × DataValue)}
    → normalize_cache_entries seen es ≡ ok safe
    → (safe ≡ es) × Apart seen es
unfolding normalize_cache_entries assert_safe_cache_key
normalized seen [] h = (ground arith, tt)
normalized seen ((key, v) ∷ es) {safe} h =
    elim (Result-cases (normalize_cache_entries (key ∷ seen) es)) [
      | inl (rest, e) ↦ ground (arith, normalized (key ∷ seen) es {safe = rest} e)
      | inr (x, e) ↦ absurd (ground arith)
    ]

Apart-absent :
    (seen : List String) (key : String) (es : List (String × DataValue))
    → Apart seen es
    → contains seen key ≡ true
    → has_key key es ≡ false
unfolding contains has_key
Apart-absent seen key [] a h = refl
Apart-absent seen key ((k, v) ∷ es) a h =
    ground (arith, Apart-absent (k ∷ seen) key es a.1, str_eq_iff k key)

abbrev pub entry_with : Option ℕ → DataValue → Entry
entry_with expires v = record { value = v; expires = expires }

prepared :
    (expires : Option ℕ) (es : List (String × DataValue)) {p : List (String × Entry)}
    → prepare expires es ≡ ok p
    → p ≡ map_values (entry_with expires) es
unfolding prepare assert_safe_cache_key assert_cacheable_value map_values
prepared expires [] h = ground arith
prepared expires ((key, v) ∷ es) {p} h = elim (Result-cases (prepare expires es)) [
  | inl (rest, e) ↦ ground (arith, prepared expires es {p = rest} e)
  | inr (x, e) ↦ absurd (ground arith)
]

Apart-IsMap : (seen : List String) (es : List (String × DataValue)) → Apart seen es → IsMap es
unfolding contains
Apart-IsMap seen [] a = tt
Apart-IsMap seen ((k, v) ∷ es) a = (
  Apart-absent (k ∷ seen) k es a.1 (ground (arith, str_eq_refl k)),
  Apart-IsMap (k ∷ seen) es a.1,
)

-- What `setMany` writes: a map with the batch's keys, one expiry for all.
pub prepare_many_lem :
    (now : ℕ) (es : List (String × DataValue)) (ttl : Option ℤ) {p : List (String × Entry)}
    → prepare_many now es ttl ≡ ok p
    → (seconds : Option ℕ) × (assert_safe_ttl ttl ≡ ok seconds)
      × IsMap es
      × (p ≡ map_values (entry_with (expiry now seconds)) es)
unfolding prepare_many
prepare_many_lem now es ttl {p} h =
    let (safe, e, h') = >>=-eq-ok (normalize_cache_entries [] es) _ h in
    let (seconds, t, h'') = >>=-eq-ok (assert_safe_ttl ttl) _ h' in
    let (same, apart) = normalized [] es {safe = safe} e in
    (
      seconds,
      t,
      Apart-IsMap [] es apart,
      prepared (expiry now seconds) safe h'' ∙ ap (map_values _) same,
    )

-- A value written at `now` for `seconds` can be read at the time `t`.
abbrev pub outlives : ℕ → Option ℕ → ℕ → Bool
outlives now none t = true
outlives now (some seconds) t = ltb t (now + seconds * 1000)

-- What a read at `t` finds after the batch value, if there is one, was written over `before`.
abbrev pub written : ℕ → Option ℕ → ℕ → Option DataValue → Option DataValue → Option DataValue
written now seconds t none before = before
written now seconds t (some v) before = if outlives now seconds t then some v else none

live_value-written :
    (now t : ℕ) (seconds : Option ℕ) (v : DataValue)
    → live_value t (some (record { value = v; expires = expiry now seconds }))
      ≡ (if outlives now seconds t then some v else none)
unfolding is_expired
live_value-written now t none v = refl
live_value-written now t (some s) v = ground arith

view-write_all :
    (now t : ℕ) (seconds : Option ℕ) (es : List (String × DataValue)) (k : String) (c : MemoryCache)
    → IsMap es
    → let p = map_values (entry_with (expiry now seconds)) es in
      view (record (count_set_many c) { entries = write_all p c.entries }) t k
      ≡ written now seconds t (lookup k es) (view c t k)
unfolding view count_set_many
view-write_all now t seconds es k c d =
    let mk : DataValue → Entry = entry_with (expiry now seconds) in
    rw
      (
        lookup-write_all k (map_values mk es) c.entries (map_values-IsMap mk es d),
        lookup-map_values mk k es,
      )
      (elim (Option-cases (lookup k es)) [
        | inl e ↦ rw e
        | inr (v, e) ↦ rw e (live_value-written now t seconds v)
      ])

-- On a map whose keys are distinct, a batch that is accepted has an accepted time to live, and it is
-- written whole: each of its keys reads as the new value until the time to live is over and as missing
-- from then on, and every other key reads as before, at every time. The keys stay distinct.
pub set_many-view :
    (now : ℕ) (es : List (String × DataValue)) (ttl : Option ℤ) (c : MemoryCache)
    → IsValid c
    → (set_many now es ttl c).1 ≡ ok tt
    → (seconds : Option ℕ) × (assert_safe_ttl ttl ≡ ok seconds)
      × IsValid (set_many now es ttl c).0
      × ((t : ℕ) (k : String)
          → view (set_many now es ttl c).0 t k ≡ written now seconds t (lookup k es) (view c t k))
unfolding set_many
set_many-view now es ttl c v h = elim (Result-cases (prepare_many now es ttl)) [
  | inr (x, e) ↦ absurd (ground arith)
  | inl (p, e) ↦
      let (seconds, t, d, same) = prepare_many_lem now es ttl {p = p} e in
      (
        seconds,
        t,
        rw (e, set_many) (write_all-IsMap p c.entries v),
        λ t k. rw (e, set_many, same) (view-write_all now t seconds es k c d),
      )
]

erase_all-IsMap : (ks : List String) (m : List (String × Entry)) → IsMap m → IsMap (erase_all ks m)
unfolding erase_all
erase_all-IsMap [] m h = h
erase_all-IsMap (k ∷ ks) m h = erase_all-IsMap ks (erase k m) (erase-IsMap k m h)

lookup-erase_all :
    (ks : List String) (k : String) (m : List (String × Entry))
    → IsMap m
    → lookup k (erase_all ks m) ≡ (if contains ks k then none else lookup k m)
unfolding erase_all contains
lookup-erase_all [] k m h = refl
lookup-erase_all (j ∷ ks) k m h =
    ground (arith, lookup-erase_all ks k (erase j m) (erase-IsMap j m h), lookup-erase j k m)

-- On a map whose keys are distinct, when a deletion returns, the deleted keys read as missing at every
-- time and the others as before, and the keys stay distinct.
pub delete_many-view :
    (ks : List String) (c : MemoryCache)
    → IsValid c
    → (delete_many ks c).1 ≡ ok tt
    → IsValid (delete_many ks c).0
      × ((t : ℕ) (k : String)
          → view (delete_many ks c).0 t k ≡ (if contains ks k then none else view c t k))
unfolding delete_many view
delete_many-view ks c v h = elim (Result-cases (normalize_cache_keys ks)) [
  | inr (x, e) ↦ absurd (ground arith)
  | inl (safe, e) ↦
      let same = normalize_cache_keys_same ks {safe = safe} e in
      (
        rw (e, delete_many) (erase_all-IsMap safe c.entries v),
        λ t k. rw (e, delete_many, same) (ground (arith, lookup-erase_all ks k c.entries v)),
      )
]

-- The entries that are live now.
lookup-live_entries :
    (now : ℕ) (k : String) (m : List (String × Entry))
    → IsMap m
    → lookup k (live_entries now m)
      ≡ (elim (lookup k m) [ none ↦ none | some e ↦ if is_expired now e then none else some e ])
unfolding live_entries lookup
lookup-live_entries now k [] h = refl
lookup-live_entries now k ((j, e) ∷ m) h =
    ground (arith, lookup-live_entries now k m h.1, has_key-lookup j m, str_eq_iff j k)

has_key-live_entries :
    (now : ℕ) (k : String) (m : List (String × Entry))
    → has_key k m ≡ false
    → has_key k (live_entries now m) ≡ false
unfolding live_entries has_key
has_key-live_entries now k [] h = refl
has_key-live_entries now k ((j, e) ∷ m) h = ground (arith, has_key-live_entries now k m)

live_entries-IsMap : (now : ℕ) (m : List (String × Entry)) → IsMap m → IsMap (live_entries now m)
unfolding live_entries
live_entries-IsMap now [] h = tt
live_entries-IsMap now ((j, e) ∷ m) h =
    ground (arith, live_entries-IsMap now m h.1, has_key-live_entries now j m)

found_live :
    (now : ℕ) (k : String) (m : List (String × Entry))
    → IsMap m
    → Option.map (λ e. e.value) (lookup k (live_entries now m)) ≡ live_value now (lookup k m)
found_live now k m v = ground (arith, lookup-live_entries now k m v)

kept_live :
    (now later : ℕ) (k : String) (m : List (String × Entry))
    → IsMap m
    → now ≤ later
    → live_value later (lookup k (live_entries now m)) ≡ live_value later (lookup k m)
kept_live now later k m v le = elim (Option-cases (lookup k m)) [
  | inl e ↦ ground (arith, lookup-live_entries now k m v)
  | inr (entry, e) ↦
      ground (arith, lookup-live_entries now k m v, is_expired_mono now later entry le)
]

-- On a map whose keys are distinct, a snapshot at `now` holds under each key exactly what can be read
-- then. Afterwards the keys are distinct, and each key reads at every later time as before.
pub snapshot-view :
    (now later : ℕ) (k : String) (c : MemoryCache)
    → IsValid c
    → now ≤ later
    → IsValid (snapshot now c).0
      × (Option.map (λ e. e.value) (lookup k (snapshot now c).1) ≡ view c now k)
      × (view (snapshot now c).0 later k ≡ view c later k)
unfolding snapshot view
snapshot-view now later k c v le = (
  live_entries-IsMap now c.entries v,
  found_live now k c.entries v,
  kept_live now later k c.entries v le,
)
