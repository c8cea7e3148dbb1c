-- ===== src/Tests/Values.antt =====
-- The theorems on ids, data and the cache at concrete inputs.
use active_ts.Prelude.{
  ℕ, ◌≡◌, refl, ◌↔◌, true, Option, none, some, [], ◌∷◌, map, if◌then◌else◌, arith,
}
use mathlib.Core.Option
use active_ts.Prelude.Int.{pos}
use active_ts.Prelude.Text.{String, ◌⧺◌, byte_length, has_null, strip_prefix}
use active_ts.Prelude.Text.Decimal.{print_ℤ}
use active_ts.Prelude.Assoc.{lookup, has_key}
use active_ts.Int64Id.{
  datastore_int64_id, datastore_int64_id_value, datastore_int64_id_of_bigint, int64_prefix,
  datastore_int64_id_iff, IsLargeInt64, of_bigint-IsLargeInt64, is_datastore_int64_id,
  datastore_int64_decimal,
}
use active_ts.SafeKeys.{
  text, assert_safe_entity_id, is_safe_entity_id, assert_safe_cache_key, assert_safe_ttl,
  is_reserved_field_name,
}
use active_ts.EntityKey.{
  entity_id_key, entity_id_from_key, entity_id_from_canonical_key, encode_entity_id,
  entity_id_from_key-entity_id_key,
}
use active_ts.DataValue.{
  DataValue, undefined, null, object, field, end, clone_safe_data, clone_portable_data,
  is_safe_data, prune, is_cacheable_value, is_cacheable_tree, clone_safe_data-prune,
  clone_safe_data_idem, clone_portable_data-cacheable, assert_cacheable_value,
}
use active_ts.Cache.Memory.{
  MemoryCache, no_stats, get_many, set_many, delete_many, snapshot, normalize_cache_keys,
  normalize_cache_entries, prepare, prepare_many, contains, IsValid, view, ReadEffect,
  get_many-view, written, set_many-view, IsWritable, set_counted, set_many_iff, delete_many-view,
  snapshot-view,
}
use active_ts.Errors.{ok, throw, validation}

datastore_int64_id_iff_example :
    (datastore_int64_id "-9223372036854775808" ≡ ok (int64_prefix ⧺ "-9223372036854775808"))
    ↔ (datastore_int64_id_value (int64_prefix ⧺ "-9223372036854775808") ≡ ok "-9223372036854775808")
datastore_int64_id_iff_example =
    datastore_int64_id_iff "-9223372036854775808" (int64_prefix ⧺ "-9223372036854775808")

of_bigint-IsLargeInt64_example :
    ((datastore_int64_id_of_bigint (pos 9007199254740992)
        ≡ ok (int64_prefix ⧺ print_ℤ (pos 9007199254740992)))
      ↔ IsLargeInt64 (pos 9007199254740992))
    × ((datastore_int64_id_of_bigint (pos 9007199254740992) ≡ throw validation)
        ↔ ¬ IsLargeInt64 (pos 9007199254740992))
of_bigint-IsLargeInt64_example = of_bigint-IsLargeInt64 (pos 9007199254740992)

user_key : entity_id_key (text "a:b") ≡ ok "string:a:b"
unfolding entity_id_key encode_entity_id assert_safe_entity_id is_safe_entity_id
    is_datastore_int64_id datastore_int64_decimal strip_prefix byte_length has_null
user_key = refl

entity_id_from_key-entity_id_key_example :
    (entity_id_from_key "string:a:b" ≡ ok (text "a:b"))
    × (entity_id_from_canonical_key "string:a:b" ≡ ok (text "a:b"))
entity_id_from_key-entity_id_key_example = entity_id_from_key-entity_id_key (text "a:b") user_key

abbrev loose : DataValue
loose = object (field "gone" undefined (field "title" null end))

abbrev tight : DataValue
tight = object (field "title" null end)

loose-cloned : clone_safe_data loose ≡ ok tight
unfolding clone_safe_data is_safe_data prune strip_prefix is_reserved_field_name
loose-cloned = refl

clone_safe_data-prune_example :
    clone_safe_data loose ≡ (if is_safe_data loose then ok (prune loose) else throw validation)
clone_safe_data-prune_example = clone_safe_data-prune loose

clone_safe_data_idem_example : clone_safe_data tight ≡ ok tight
clone_safe_data_idem_example = clone_safe_data_idem loose loose-cloned

tight-cacheable : is_cacheable_value tight ≡ true
unfolding is_cacheable_value is_cacheable_tree is_safe_data strip_prefix is_reserved_field_name
tight-cacheable = refl

clone_portable_data-cacheable_example : clone_portable_data tight ≡ ok tight
clone_portable_data-cacheable_example = clone_portable_data-cacheable tight tight-cacheable

-- A cache with an entry that lives until 50 and one that lives on.
abbrev two_entries : MemoryCache
two_entries = record {
  entries =
      ("old", record { value = null; expires = some 50 })
      ∷ ("new", record { value = tight; expires = none })
      ∷ [];
  stats = no_stats;
}

two_entries-IsValid : IsValid two_entries
unfolding has_key
two_entries-IsValid = (refl, (refl, tt))

keys-normalized : normalize_cache_keys ("old" ∷ "new" ∷ []) ≡ ok ("old" ∷ "new" ∷ [])
unfolding normalize_cache_keys assert_safe_cache_key byte_length has_null
keys-normalized = refl

get_many-view_example :
    ((get_many 60 ("old" ∷ "new" ∷ []) two_entries).1
      ≡ ok (map (view two_entries 60) ("old" ∷ "new" ∷ [])))
    × ReadEffect 60 70
        ("old" ∷ "new" ∷ [])
        "new"
        two_entries
        (get_many 60 ("old" ∷ "new" ∷ []) two_entries).0
get_many-view_example =
    get_many-view 60 70 ("old" ∷ "new" ∷ []) ("old" ∷ "new" ∷ []) "new" two_entries
      two_entries-IsValid keys-normalized (omega arith)

accepted : (set_many 60 (("old", tight) ∷ []) (some (pos 5)) two_entries).1 ≡ ok tt
unfolding set_many prepare_many normalize_cache_entries prepare assert_safe_ttl
    assert_cacheable_value is_cacheable_value is_cacheable_tree is_safe_data strip_prefix
    is_reserved_field_name assert_safe_cache_key byte_length has_null contains
accepted = refl

set_many-view_example :
    (seconds : Option ℕ) × (assert_safe_ttl (some (pos 5)) ≡ ok seconds)
    × IsValid (set_many 60 (("old", tight) ∷ []) (some (pos 5)) two_entries).0
    × ((t : ℕ) (k : String)
        → view (set_many 60 (("old", tight) ∷ []) (some (pos 5)) two_entries).0 t k
          ≡ written 60 seconds t (lookup k (("old", tight) ∷ [])) (view two_entries t k))
set_many-view_example =
    set_many-view 60 (("old", tight) ∷ []) (some (pos 5)) two_entries two_entries-IsValid accepted

set_many_iff_example :
    (((set_many 60 (("old", tight) ∷ []) (some (pos 0)) two_entries).1 ≡ ok tt)
      ↔ IsWritable (("old", tight) ∷ []) (some (pos 0)))
    × ((set_many 60 (("old", tight) ∷ []) (some (pos 0)) two_entries
          ≡ (set_counted two_entries, throw validation))
        ↔ ¬ IsWritable (("old", tight) ∷ []) (some (pos 0)))
set_many_iff_example = set_many_iff 60 (("old", tight) ∷ []) (some (pos 0)) two_entries

-- The batch is refused whole, since it can have no time to live of 0 seconds.
refused :
    set_many 60 (("old", tight) ∷ []) (some (pos 0)) two_entries
    ≡ (set_counted two_entries, throw validation)
refused =
    (set_many_iff 60 (("old", tight) ∷ []) (some (pos 0)) two_entries).1.1
      (λ w. omega (arith, w.in_range))

deleted : (delete_many ("old" ∷ "new" ∷ []) two_entries).1 ≡ ok tt
unfolding delete_many normalize_cache_keys assert_safe_cache_key byte_length has_null
deleted = refl

delete_many-view_example :
    IsValid (delete_many ("old" ∷ "new" ∷ []) two_entries).0
    × ((t : ℕ) (k : String)
        → view (delete_many ("old" ∷ "new" ∷ []) two_entries).0 t k
          ≡ (if contains ("old" ∷ "new" ∷ []) k then none else view two_entries t k))
delete_many-view_example =
    delete_many-view ("old" ∷ "new" ∷ []) two_entries two_entries-IsValid deleted

snapshot-view_example :
    IsValid (snapshot 60 two_entries).0
    × (Option.map (λ e. e.value) (lookup "new" (snapshot 60 two_entries).1)
        ≡ view two_entries 60 "new")
    × (view (snapshot 60 two_entries).0 70 "new" ≡ view two_entries 70 "new")
snapshot-view_example = snapshot-view 60 70 "new" two_entries two_entries-IsValid (omega arith)
