-- ===== src/Cache/Memory/Reads.antt =====
-- src/adapters/cache/memory.ts: what `getMany` reads, and what it leaves as it was.
use active_ts.Prelude.{
  ap, ℕ, ◌+◌, ◌≤◌, ◌≡◌, refl, ◌∙◌, fun_ext, Option, none, some, List, [], ◌∷◌, map, arith, inl, inr,
}
use active_ts.Prelude.Text.{String}
use active_ts.DataValue.{DataValue}
use active_ts.SafeKeys.{assert_safe_cache_key}
use active_ts.Errors.{ok, Result-cases}
use active_ts.Cache.Memory.Defs.{
  MemoryCache, count_get_many, get_one, get_all, get_many, normalize_cache_keys,
}
use active_ts.Cache.Memory.View.{view, IsValid, get_one-view, view-get_one, get_one-IsValid}

-- How many reads found a value.
abbrev pub hits_in : List (Option DataValue) → ℕ
hits_in [] = 0
hits_in (none ∷ vs) = hits_in vs
hits_in (some v ∷ vs) = hits_in vs + 1

abbrev pub misses_in : List (Option DataValue) → ℕ
misses_in [] = 0
misses_in (none ∷ vs) = misses_in vs + 1
misses_in (some v ∷ vs) = misses_in vs

get_all-IsValid :
    (now : ℕ) (keys : List String) (c : MemoryCache) → IsValid c → IsValid (get_all now keys c).0
unfolding get_all
get_all-IsValid now [] c v = v
get_all-IsValid now (key ∷ keys) c v =
    get_all-IsValid now keys (get_one now key c).0 (get_one-IsValid now key c v)

view-get_all :
    (now later : ℕ) (keys : List String) (k : String) (c : MemoryCache)
    → IsValid c
    → now ≤ later
    → view (get_all now keys c).0 later k ≡ view c later k
unfolding get_all
view-get_all now later [] k c v le = refl
view-get_all now later (key ∷ keys) k c v le =
    view-get_all now later keys k (get_one now key c).0 (get_one-IsValid now key c v) le
    ∙ view-get_one now later key k c v le

get_all-view :
    (now : ℕ) (keys : List String) (c : MemoryCache)
    → IsValid c
    → (get_all now keys c).1 ≡ map (view c now) keys
unfolding get_all
get_all-view now [] c v = refl
get_all-view now (key ∷ keys) c v =
    let rest = get_all-view now keys (get_one now key c).0 (get_one-IsValid now key c v) in
    let same : map (view (get_one now key c).0 now) keys ≡ map (view c now) keys =
      rw (fun_ext (λ k. view-get_one now now key k c v (omega arith))) in
    cc (get_one-view now key c, rest, same)

counts_one :
    (now : ℕ) (key : String) (c : MemoryCache) (vs : List (Option DataValue))
    → let (c', v) = get_one now key c in
      (c'.stats.hits + hits_in vs ≡ c.stats.hits + hits_in (v ∷ vs))
      × (c'.stats.misses + misses_in vs ≡ c.stats.misses + misses_in (v ∷ vs))
      × (c'.stats.get_many ≡ c.stats.get_many)
      × (c'.stats.set_many ≡ c.stats.set_many)
      × (c'.stats.delete_many ≡ c.stats.delete_many)
unfolding get_one
counts_one now key c vs = ground arith

counts_all :
    (now : ℕ) (keys : List String) (c : MemoryCache)
    → let (c', vs) = get_all now keys c in
      (c'.stats.hits ≡ c.stats.hits + hits_in vs)
      × (c'.stats.misses ≡ c.stats.misses + misses_in vs)
      × (c'.stats.get_many ≡ c.stats.get_many)
      × (c'.stats.set_many ≡ c.stats.set_many)
      × (c'.stats.delete_many ≡ c.stats.delete_many)
unfolding get_all
counts_all now [] c = (omega arith, omega arith, refl, refl, refl)
counts_all now (key ∷ keys) c =
    let (c', vs) = get_all now keys (get_one now key c).0 in
    ground (arith, counts_one now key c vs, counts_all now keys (get_one now key c).0)

pub normalize_cache_keys_same :
    (keys : List String) {safe : List String} → normalize_cache_keys keys ≡ ok safe → safe ≡ keys
unfolding normalize_cache_keys assert_safe_cache_key
normalize_cache_keys_same [] h = ground arith
normalize_cache_keys_same (key ∷ keys) {safe} h = elim (Result-cases (normalize_cache_keys keys)) [
  | inl (rest, e) ↦ ground (arith, normalize_cache_keys_same keys {safe = rest} e)
  | inr (x, e) ↦ ground arith
]

-- What a read of `keys` at `now` counts, from `c` to `c'`, where later the key `k` is read.
pub record ReadEffect (now later : ℕ) (keys : List String) (k : String) (c c' : MemoryCache)
    : Type 0 where
  pub valid : IsValid c'
  pub kept : view c' later k ≡ view c later k
  pub hits : c'.stats.hits ≡ c.stats.hits + hits_in (map (view c now) keys)
  pub misses : c'.stats.misses ≡ c.stats.misses + misses_in (map (view c now) keys)
  pub calls : c'.stats.get_many ≡ c.stats.get_many + 1
  pub writes : c'.stats.set_many ≡ c.stats.set_many
  pub deletes : c'.stats.delete_many ≡ c.stats.delete_many

view-count_get_many : (now : ℕ) (c : MemoryCache) → view (count_get_many c) now ≡ view c now
unfolding view count_get_many
view-count_get_many now c = refl

get_all-Reads :
    (now later : ℕ) (keys : List String) (k : String) (c : MemoryCache)
    → IsValid c
    → now ≤ later
    → ReadEffect now later keys k c (get_all now keys (count_get_many c)).0
unfolding count_get_many
get_all-Reads now later keys k c v le =
    let c1 = count_get_many c in
    let values : (get_all now keys c1).1 ≡ map (view c now) keys =
      get_all-view now keys c1 v ∙ ap (λ f. map f keys) (view-count_get_many now c) in
    let (hit, missed, gets, sets, deletes) = counts_all now keys c1 in
    record {
      valid = get_all-IsValid now keys c1 v;
      kept =
          view-get_all now later keys k c1 v le
          ∙ ap (λ (f : String → Option DataValue). f k) (view-count_get_many later c);
      hits = rw (← values) hit;
      misses = rw (← values) missed;
      calls = gets;
      writes = sets;
      deletes = deletes;
    }

-- On a map whose keys are distinct, a read of keys that are accepted returns what the map holds live
-- at `now`, in the order of the keys, and counts one call and each key as a hit or a miss. The keys stay
-- distinct, and no read of any key at a later time can tell that the read took place.
pub get_many-view :
    (now later : ℕ) (keys safe : List String) (k : String) (c : MemoryCache)
    → IsValid c
    → normalize_cache_keys keys ≡ ok safe
    → now ≤ later
    → ((get_many now keys c).1 ≡ ok (map (view c now) keys))
      × ReadEffect now later keys k c (get_many now keys c).0
unfolding get_many
get_many-view now later keys safe k c v h le =
    let same = normalize_cache_keys_same keys {safe = safe} h in
    let h' : normalize_cache_keys keys ≡ ok keys = h ∙ ap ok same in
    rw (h', get_many)
      (
        ap ok (
            get_all-view now keys (count_get_many c) v
            ∙ ap (λ f. map f keys) (view-count_get_many now c)),
        get_all-Reads now later keys k c v le,
      )
