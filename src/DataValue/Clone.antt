-- ===== src/DataValue/Clone.antt =====
-- src/core/safe-keys.ts: what a clone is.
use active_ts.Prelude.{◌≡◌, refl, ap, true, false, if◌then◌else◌, arith, ◌&&◌}
use active_ts.DataValue.Defs.{
  DataValue, undefined, array, object, Items, nil, item, Fields, end, field, is_undefined,
  is_safe_data, is_safe_items, is_safe_fields, is_cacheable_tree, is_cacheable_items,
  is_cacheable_fields, is_cacheable_value, prune, prune_items, prune_fields, clone_safe_data,
  clone_portable_data, is_portable_tree, is_portable_items, is_portable_fields,
}
use active_ts.Errors.{ok, throw, validation, >>=-eq-ok, bind_guard, ok-injective}

-- Pruning keeps an undefined value undefined, and makes none.
is_undefined-prune : (v : DataValue) → is_undefined (prune v) ≡ is_undefined v
unfolding prune
is_undefined-prune undefined = refl
is_undefined-prune v = refl

mutual
  unfolding is_safe_data prune

  safe_prune : (v : DataValue) → is_safe_data v ≡ true → is_safe_data (prune v) ≡ true
  safe_prune (array items) h = safe_prune_items items h
  safe_prune (object fields) h = safe_prune_fields fields h
  safe_prune v h = h

  safe_prune_items :
      (items : Items) → is_safe_items items ≡ true → is_safe_items (prune_items items) ≡ true
  safe_prune_items nil h = refl
  safe_prune_items (item v items) h =
      ground (arith, safe_prune v, safe_prune_items items, is_undefined-prune v)

  safe_prune_fields :
      (fields : Fields) → is_safe_fields fields ≡ true → is_safe_fields (prune_fields fields) ≡ true
  safe_prune_fields end h = refl
  safe_prune_fields (field key v fields) h = ground (arith, safe_prune v, safe_prune_fields fields)

mutual
  unfolding prune

  prune_idem : (v : DataValue) → prune (prune v) ≡ prune v
  prune_idem (array items) = ap array (prune_items_idem items)
  prune_idem (object fields) = ap object (prune_fields_idem fields)
  prune_idem v = refl

  prune_items_idem : (items : Items) → prune_items (prune_items items) ≡ prune_items items
  prune_items_idem nil = refl
  prune_items_idem (item v items) = cc (prune_idem v, prune_items_idem items)

  prune_fields_idem : (fields : Fields) → prune_fields (prune_fields fields) ≡ prune_fields fields
  prune_fields_idem end = refl
  prune_fields_idem (field key v fields) =
      ground (arith, prune_idem v, prune_fields_idem fields, is_undefined-prune v)

pub clone_safe_data-prune :
    (v : DataValue)
    → clone_safe_data v ≡ (if is_safe_data v then ok (prune v) else throw validation)
unfolding clone_safe_data
clone_safe_data-prune v = ground (arith, safe_prune v)

-- What a clone returns clones to itself.
pub clone_safe_data_idem :
    (v : DataValue) {c : DataValue} → clone_safe_data v ≡ ok c → clone_safe_data c ≡ ok c
clone_safe_data_idem v {c} h =
    ground (arith, clone_safe_data-prune v, clone_safe_data-prune c, prune_idem v, safe_prune v)

undefined_not_cacheable : (v : DataValue) → is_cacheable_tree v ≡ true → is_undefined v ≡ false
unfolding is_cacheable_tree
undefined_not_cacheable undefined h = cc
undefined_not_cacheable v h = refl

pub is_undefined-clone_safe_data :
    (v : DataValue) {c : DataValue} → clone_safe_data v ≡ ok c → is_undefined c ≡ is_undefined v
is_undefined-clone_safe_data v h = ground (arith, clone_safe_data-prune v, is_undefined-prune v)

mutual
  unfolding prune is_cacheable_tree

  prune_cacheable : (v : DataValue) → is_cacheable_tree v ≡ true → prune v ≡ v
  prune_cacheable (array items) h = ap array (prune_cacheable_items items h)
  prune_cacheable (object fields) h = ap object (prune_cacheable_fields fields h)
  prune_cacheable undefined h = cc
  prune_cacheable v h = refl

  prune_cacheable_items :
      (items : Items) → is_cacheable_items items ≡ true → prune_items items ≡ items
  prune_cacheable_items nil h = refl
  prune_cacheable_items (item v items) h =
      ground (arith, prune_cacheable v, prune_cacheable_items items)

  prune_cacheable_fields :
      (fields : Fields) → is_cacheable_fields fields ≡ true → prune_fields fields ≡ fields
  prune_cacheable_fields end h = refl
  prune_cacheable_fields (field key v fields) h =
      ground (arith, prune_cacheable v, prune_cacheable_fields fields, undefined_not_cacheable v)

mutual
  unfolding is_portable_tree is_cacheable_tree

  portable_of_cacheable : (v : DataValue) → is_cacheable_tree v ≡ true → is_portable_tree v ≡ true
  portable_of_cacheable (array items) h = portable_items items h
  portable_of_cacheable (object fields) h = portable_fields fields h
  portable_of_cacheable undefined h = refl
  portable_of_cacheable v h = h

  portable_items :
      (items : Items) → is_cacheable_items items ≡ true → is_portable_items items ≡ true
  portable_items nil h = refl
  portable_items (item v items) h = ground (arith, portable_of_cacheable v, portable_items items)

  portable_fields :
      (fields : Fields) → is_cacheable_fields fields ≡ true → is_portable_fields fields ≡ true
  portable_fields end h = refl
  portable_fields (field key v fields) h =
      ground (arith, portable_of_cacheable v, portable_fields fields)

-- The portable clone of a cacheable value returns the value itself.
pub clone_portable_data-cacheable :
    (v : DataValue) → is_cacheable_value v ≡ true → clone_portable_data v ≡ ok v
unfolding clone_portable_data is_cacheable_value
clone_portable_data-cacheable v h =
    ground (arith, clone_safe_data-prune v, prune_cacheable v, portable_of_cacheable v)

-- What a portable clone returns clones to itself, by either clone.
pub clone_portable_data_idem :
    (v : DataValue) {c : DataValue}
    → clone_portable_data v ≡ ok c
    → (clone_portable_data c ≡ ok c) × (clone_safe_data c ≡ ok c) × (c ≡ prune v)
unfolding clone_portable_data
clone_portable_data_idem v {c} h =
    let (cloned, safe, h₁) = >>=-eq-ok (clone_safe_data v) _ h in
    let (portable, h₂) =
      bind_guard (is_safe_data cloned && is_portable_tree cloned) validation _ h₁ in
    let same : cloned ≡ c = ok-injective h₂ in
    let again : clone_safe_data c ≡ ok c = clone_safe_data_idem v (rw same at safe) in
    (
      rw (again, rw same at portable) refl,
      again,
      ground (arith, clone_safe_data-prune v, rw same at safe),
    )
