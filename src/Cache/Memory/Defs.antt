-- ===== src/Cache/Memory/Defs.antt =====
-- src/adapters/cache/memory.ts, with src/core/cache-input.ts for the batches.
use active_ts.Prelude.{
  ℕ, ◌+◌, ◌*◌, Bool, true, false, Option, none, some, List, [], ◌∷◌, leb, if◌then◌else◌,
}
use active_ts.Prelude.Int.{ℤ}
use active_ts.Prelude.Text.{String, str_eq}
use active_ts.Prelude.Assoc.{lookup, insert, erase}
use active_ts.SafeKeys.{assert_safe_cache_key, assert_safe_ttl}
use active_ts.DataValue.{DataValue, assert_cacheable_value}
use active_ts.Errors.{Result, ok, throw, validation, ◌>>=◌, ◌>>◌, guard}

-- `expires` is a time in milliseconds.
pub record Entry : Type 0 where
  pub value : DataValue
  pub expires : Option ℕ

pub record Stats : Type 0 where
  pub get_many : ℕ
  pub set_many : ℕ
  pub delete_many : ℕ
  pub hits : ℕ
  pub misses : ℕ

pub record MemoryCache : Type 0 where
  pub entries : List (String × Entry)
  pub stats : Stats

-- `entry.expires !== undefined && entry.expires <= now`
unfoldable pub is_expired : ℕ → Entry → Bool
is_expired now e = elim e.expires [ none ↦ false | some t ↦ leb t now ]

-- src/core/cache-input.ts, `normalizeCacheKeys`.
unfoldable pub normalize_cache_keys : List String → Result (List String)
normalize_cache_keys [] = ok []
normalize_cache_keys (key ∷ keys) = do
  safe ← assert_safe_cache_key key
  rest ← normalize_cache_keys keys
  ok (safe ∷ rest)

unfoldable pub contains : List String → String → Bool
contains [] key = false
contains (k ∷ ks) key = if str_eq k key then true else contains ks key

-- src/core/cache-input.ts, `normalizeCacheEntries`: `seen` is the set of the keys before.
unfoldable pub normalize_cache_entries :
    List String → List (String × DataValue) → Result (List (String × DataValue))
unfolding contains
normalize_cache_entries seen [] = ok []
normalize_cache_entries seen ((key, value) ∷ entries) = do
  safe ← assert_safe_cache_key key
  guard (if contains seen safe then false else true) validation
  rest ← normalize_cache_entries (safe ∷ seen) entries
  ok ((safe, value) ∷ rest)

count_hit : MemoryCache → MemoryCache
count_hit c = record c { stats = record stats { hits = hits + 1 } }
  where
    open c use {stats, stats.{hits}}

unfoldable pub count_get_many : MemoryCache → MemoryCache
count_get_many c = record c { stats = record stats { get_many = get_many + 1 } }
  where
    open c use {stats, stats.{get_many}}

unfoldable pub count_set_many : MemoryCache → MemoryCache
count_set_many c = record c { stats = record stats { set_many = set_many + 1 } }
  where
    open c use {stats, stats.{set_many}}

unfoldable pub count_delete_many : MemoryCache → MemoryCache
count_delete_many c = record c { stats = record stats { delete_many = delete_many + 1 } }
  where
    open c use {stats, stats.{delete_many}}

count_miss : MemoryCache → MemoryCache
count_miss c = record c { stats = record stats { misses = misses + 1 } }
  where
    open c use {stats, stats.{misses}}

drop_entry : String → MemoryCache → MemoryCache
drop_entry key c = record c { entries = erase key c.entries }

-- One round of the loop of `getMany`. The value read is a clone.
unfoldable pub get_one : ℕ → String → MemoryCache → MemoryCache × Option DataValue
unfolding is_expired count_hit count_miss drop_entry
get_one now key c = elim (lookup key c.entries) [
  | none ↦ (count_miss c, none)
  | some e ↦
      if is_expired now e
      then (count_miss (drop_entry key c), none)
      else (count_hit c, some e.value)
]

unfoldable pub get_all : ℕ → List String → MemoryCache → MemoryCache × List (Option DataValue)
get_all now [] c = (c, [])
get_all now (key ∷ keys) c =
    let (c', value) = get_one now key c in
    let (c'', values) = get_all now keys c' in (c'', value ∷ values)

unfoldable pub get_many :
    ℕ → List String → MemoryCache → MemoryCache × Result (List (Option DataValue))
unfolding count_get_many
get_many now keys c =
    let counted = count_get_many c in
    elim (normalize_cache_keys keys) [
      | throw e ↦ (counted, throw e)
      | ok safe ↦ let (c', values) = get_all now safe counted in (c', ok values)
    ]

-- The loop of `setMany` that prepares the entries, before any is written.
unfoldable pub prepare : Option ℕ → List (String × DataValue) → Result (List (String × Entry))
prepare expires [] = ok []
prepare expires ((key, value) ∷ entries) = do
  safe ← assert_safe_cache_key key
  assert_cacheable_value value
  rest ← prepare expires entries
  ok ((safe, record { value = value; expires = expires }) ∷ rest)

unfoldable pub write_all : List (String × Entry) → List (String × Entry) → List (String × Entry)
write_all [] m = m
write_all ((key, e) ∷ prepared) m = write_all prepared (insert key e m)

-- `ttl === undefined ? undefined : Date.now() + ttl * 1000`
abbrev pub expiry : ℕ → Option ℕ → Option ℕ
expiry now none = none
expiry now (some ttl) = some (now + ttl * 1000)

unfoldable pub prepare_many :
    ℕ → List (String × DataValue) → Option ℤ → Result (List (String × Entry))
prepare_many now entries ttl = do
  safe ← normalize_cache_entries [] entries
  seconds ← assert_safe_ttl ttl
  prepare (expiry now seconds) safe

unfoldable pub set_many :
    ℕ → List (String × DataValue) → Option ℤ → MemoryCache → MemoryCache × Result (Unit {0})
unfolding count_set_many
set_many now entries ttl c =
    let counted = count_set_many c in
    elim (prepare_many now entries ttl) [
      | throw e ↦ (counted, throw e)
      | ok prepared ↦ (record counted { entries = write_all prepared c.entries }, ok tt)
    ]

unfoldable pub erase_all : List String → List (String × Entry) → List (String × Entry)
erase_all [] m = m
erase_all (key ∷ keys) m = erase_all keys (erase key m)

unfoldable pub delete_many : List String → MemoryCache → MemoryCache × Result (Unit {0})
unfolding count_delete_many
delete_many keys c =
    let counted = count_delete_many c in
    elim (normalize_cache_keys keys) [
      | throw e ↦ (counted, throw e)
      | ok safe ↦ (record counted { entries = erase_all safe c.entries }, ok tt)
    ]

abbrev pub no_stats : Stats
no_stats = record { get_many = 0; set_many = 0; delete_many = 0; hits = 0; misses = 0 }

unfoldable pub reset_stats : MemoryCache → MemoryCache
reset_stats c = record c { stats = no_stats }

unfoldable pub clear : MemoryCache → MemoryCache
unfolding reset_stats
clear c = reset_stats (record c { entries = [] })

-- The loop of `snapshot`: the entries that stay in the map are those of the snapshot.
unfoldable pub live_entries : ℕ → List (String × Entry) → List (String × Entry)
live_entries now [] = []
live_entries now ((key, e) ∷ m) =
    let rest = live_entries now m in if is_expired now e then rest else (key, e) ∷ rest

unfoldable pub snapshot : ℕ → MemoryCache → MemoryCache × List (String × Entry)
snapshot now c = let live = live_entries now c.entries in (record c { entries = live }, live)
