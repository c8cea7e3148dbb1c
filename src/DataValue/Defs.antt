-- ===== src/DataValue/Defs.antt =====
-- src/core/safe-keys.ts: JavaScript values as trees, and the checks and clones over them. A tree has no
-- cycle. Getters, symbol keys, sparse arrays and class instances are all `unsupported`.
use active_ts.Prelude.{ℕ, Bool, true, false, ◌&&◌, not, List, if◌then◌else◌}
use active_ts.Prelude.Int.{ℤ}
use active_ts.Prelude.Text.{String}
use active_ts.SafeKeys.{is_reserved_field_name}
use active_ts.Errors.{Result, validation, guard, ◌>>=◌, ◌>>◌, ok}

mutual
  pub data DataValue : Type 0 where
    undefined : DataValue
    null : DataValue
    boolean : Bool → DataValue
    number : ℤ → DataValue
    -- NaN and the infinities
    nonfinite : DataValue
    text : String → DataValue
    -- a Date by its time value
    date : ℤ → DataValue
    invalid_date : DataValue
    binary : List ℕ → DataValue
    array : Items → DataValue
    object : Fields → DataValue
    -- functions, symbols, bigints, maps, sets, regular expressions, class instances, accessors
    unsupported : DataValue

  pub data Items : Type 0 where
    nil : Items
    item : DataValue → Items → Items

  pub data Fields : Type 0 where
    end : Fields
    field : String → DataValue → Fields → Fields

abbrev pub is_undefined : DataValue → Bool
is_undefined undefined = true
is_undefined null = false
is_undefined (boolean b) = false
is_undefined (number z) = false
is_undefined nonfinite = false
is_undefined (text s) = false
is_undefined (date z) = false
is_undefined invalid_date = false
is_undefined (binary bytes) = false
is_undefined (array items) = false
is_undefined (object fields) = false
is_undefined unsupported = false

-- What `assertSafeDataKeys` accepts.
unfoldable mutual
  pub is_safe_data : DataValue → Bool
  is_safe_data undefined = true
  is_safe_data null = true
  is_safe_data (boolean b) = true
  is_safe_data (number z) = true
  is_safe_data nonfinite = false
  is_safe_data (text s) = true
  is_safe_data (date z) = true
  is_safe_data invalid_date = false
  is_safe_data (binary bytes) = true
  is_safe_data (array items) = is_safe_items items
  is_safe_data (object fields) = is_safe_fields fields
  is_safe_data unsupported = false

  pub is_safe_items : Items → Bool
  is_safe_items nil = true
  is_safe_items (item v items) = not (is_undefined v) && (is_safe_data v && is_safe_items items)

  pub is_safe_fields : Fields → Bool
  is_safe_fields end = true
  is_safe_fields (field key v fields) =
      not (is_reserved_field_name key) && (is_safe_data v && is_safe_fields fields)

-- What `assertCacheableValue` adds: no undefined, no date and no binary value anywhere.
unfoldable mutual
  pub is_cacheable_tree : DataValue → Bool
  is_cacheable_tree undefined = false
  is_cacheable_tree null = true
  is_cacheable_tree (boolean b) = true
  is_cacheable_tree (number z) = true
  is_cacheable_tree nonfinite = true
  is_cacheable_tree (text s) = true
  is_cacheable_tree (date z) = false
  is_cacheable_tree invalid_date = false
  is_cacheable_tree (binary bytes) = false
  is_cacheable_tree (array items) = is_cacheable_items items
  is_cacheable_tree (object fields) = is_cacheable_fields fields
  is_cacheable_tree unsupported = true

  pub is_cacheable_items : Items → Bool
  is_cacheable_items nil = true
  is_cacheable_items (item v items) = is_cacheable_tree v && is_cacheable_items items

  pub is_cacheable_fields : Fields → Bool
  is_cacheable_fields end = true
  is_cacheable_fields (field key v fields) = is_cacheable_tree v && is_cacheable_fields fields

-- `assertSafeDataKeys` walks the whole value first, so the repeated walks below it change nothing.
unfoldable pub is_cacheable_value : DataValue → Bool
is_cacheable_value v = not (is_undefined v) && (is_safe_data v && is_cacheable_tree v)

unfoldable pub assert_cacheable_value : DataValue → Result (Unit {0})
unfolding is_cacheable_value
assert_cacheable_value v = guard (is_cacheable_value v) validation

-- What `assertPortableStoredData` accepts: undefined passes, dates and binary values do not.
unfoldable mutual
  pub is_portable_tree : DataValue → Bool
  is_portable_tree undefined = true
  is_portable_tree null = true
  is_portable_tree (boolean b) = true
  is_portable_tree (number z) = true
  is_portable_tree nonfinite = true
  is_portable_tree (text s) = true
  is_portable_tree (date z) = false
  is_portable_tree invalid_date = false
  is_portable_tree (binary bytes) = false
  is_portable_tree (array items) = is_portable_items items
  is_portable_tree (object fields) = is_portable_fields fields
  is_portable_tree unsupported = true

  pub is_portable_items : Items → Bool
  is_portable_items nil = true
  is_portable_items (item v items) = is_portable_tree v && is_portable_items items

  pub is_portable_fields : Fields → Bool
  is_portable_fields end = true
  is_portable_fields (field key v fields) = is_portable_tree v && is_portable_fields fields

-- `pruneUndefinedObjectProperties`: the fields that hold undefined go, at every depth.
unfoldable mutual
  pub prune : DataValue → DataValue
  prune undefined = undefined
  prune null = null
  prune (boolean b) = boolean b
  prune (number z) = number z
  prune nonfinite = nonfinite
  prune (text s) = text s
  prune (date z) = date z
  prune invalid_date = invalid_date
  prune (binary bytes) = binary bytes
  prune (array items) = array (prune_items items)
  prune (object fields) = object (prune_fields fields)
  prune unsupported = unsupported

  pub prune_items : Items → Items
  prune_items nil = nil
  prune_items (item v items) = item (prune v) (prune_items items)

  pub prune_fields : Fields → Fields
  prune_fields end = end
  prune_fields (field key v fields) =
      if is_undefined v then prune_fields fields else field key (prune v) (prune_fields fields)

-- `cloneSafeData`. A structured clone of a tree that passed the check is an equal tree.
unfoldable pub clone_safe_data : DataValue → Result DataValue
clone_safe_data v = do
  guard (is_safe_data v) validation
  guard (is_safe_data (prune v)) validation
  ok (prune v)

-- `clonePortableData`
unfoldable pub clone_portable_data : DataValue → Result DataValue
clone_portable_data v = do
  cloned ← clone_safe_data v
  guard (is_safe_data cloned && is_portable_tree cloned) validation
  ok cloned
