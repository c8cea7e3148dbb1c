-- ===== src/Cache/Memory/View.antt =====
-- src/adapters/cache/memory.ts: the cache seen as a map that forgets at a time.
use active_ts.Prelude.{
  ℕ, ◌≤◌, ◌≡◌, true, Option, none, some, if◌then◌else◌, arith, Option-cases, inl, inr,
}
use active_ts.Prelude.Text.{String, str_eq_iff}
use active_ts.Prelude.Assoc.{lookup, IsMap, lookup-erase, erase-IsMap}
use active_ts.DataValue.{DataValue}
use active_ts.Cache.Memory.Defs.{Entry, MemoryCache, is_expired, get_one}

-- What a read at the time `now` finds.
abbrev pub live_value : ℕ → Option Entry → Option DataValue
live_value now none = none
live_value now (some e) = if is_expired now e then none else some e.value

unfoldable pub view : MemoryCache → ℕ → String → Option DataValue
view c now key = live_value now (lookup key c.entries)

-- No key stands twice in the map.
abbrev pub IsValid : MemoryCache → Type 0
IsValid c = IsMap c.entries

-- An entry that has expired stays expired.
pub is_expired_mono :
    (now later : ℕ) (e : Entry) → now ≤ later → is_expired now e ≡ true → is_expired later e ≡ true
unfolding is_expired
is_expired_mono now later e le h = ground arith

pub get_one-view :
    (now : ℕ) (key : String) (c : MemoryCache) → (get_one now key c).1 ≡ view c now key
unfolding get_one view
get_one-view now key c = ground arith

pub get_one-IsValid :
    (now : ℕ) (key : String) (c : MemoryCache) → IsValid c → IsValid (get_one now key c).0
unfolding get_one
get_one-IsValid now key c v = ground (arith, erase-IsMap key c.entries)

-- A read forgets nothing that a later read could have found.
pub view-get_one :
    (now later : ℕ) (key k : String) (c : MemoryCache)
    → IsValid c
    → now ≤ later
    → view (get_one now key c).0 later k ≡ view c later k
unfolding get_one view
view-get_one now later key k c v le = elim (Option-cases (lookup key c.entries)) [
  | inl missing ↦ rw (missing, get_one)
  | inr (e, found) ↦
      ground (
        arith,
        found,
        lookup-erase key k c.entries,
        str_eq_iff key k,
        is_expired_mono now later e le,
      )
]
