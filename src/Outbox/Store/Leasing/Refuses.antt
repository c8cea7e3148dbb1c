-- ===== src/Outbox/Store/Leasing/Refuses.antt =====
-- src/core/outbox-protocol.ts: an event whose order keys cannot be computed is refused as malformed, by an
-- error that no lost write throws.
use active_ts.Prelude.{
  ◌≡◌, refl, Bool, true, false, Option, none, some, List, [], ◌∷◌, ◌||◌, ◌&&◌, not, leb,
  if◌then◌else◌, Bool-cases, inl, inr, Option-cases,
}
use active_ts.Prelude.Text.{String, is_empty, has_null, byte_length}
use active_ts.SafeKeys.{
  EntityId, assert_safe_entity_id, assert_safe_schema_identifier,
  assert_safe_physical_identifier_length, matches_schema_identifier, is_reserved_field_name,
  is_safe_entity_id, max_schema_identifier_bytes,
}
use active_ts.EntityKey.{entity_id_key}
use active_ts.DatastoreKey.{
  KeyPart, DatastoreKey, SearchScope, normalize_datastore_key_part, normalize_datastore_namespace,
  normalize_parts, normalize_datastore_key, merge_namespace, datastore_key_with_namespace,
  identity_of_parts, datastore_key_identity, normalize_datastore_search_scope, ancestor_key,
  datastore_search_document_identity, option_eq, is_empty_path, is_valid_scope,
}
use active_ts.Outbox.Event.{OutboxEvent, is_some}
use active_ts.Outbox.Protocol.{
  fallback_keys, keys_or, alias_key, add_alias, physical_keys, outbox_entity_order_keys,
  outbox_entity_order_block_keys, is_datastore_identity_only, is_namespace_less_ancestor,
}
use active_ts.Errors.{
  ActiveTsError, Result, ok, throw, validation, configuration, guard, ◌>>=◌, ◌>>◌,
}
use active_ts.Outbox.Store.Leases.{is_lost}

-- The call returns, or its error is no lost write.
unfoldable pub IsRefusal {ℓ} : {A : Type ℓ} → Result A → Type 0
IsRefusal (ok a) = Unit
IsRefusal (throw x) = is_lost x ≡ false

ok-IsRefusal {ℓ} : {A : Type ℓ} (a : A) → IsRefusal (ok a)
unfolding IsRefusal
ok-IsRefusal a = tt

validation-IsRefusal {ℓ} : (A : Type ℓ) → IsRefusal {A = A} (throw validation)
unfolding IsRefusal
validation-IsRefusal A = refl

bind-IsRefusal {ℓ κ} :
    {A : Type ℓ} {B : Type κ} (call : Result A) (next : A → Result B)
    → IsRefusal call
    → ((a : A) → IsRefusal (next a))
    → IsRefusal (call >>= next)
unfolding IsRefusal
bind-IsRefusal (ok a) next h g = g a
bind-IsRefusal (throw x) next h g = h

guard-IsRefusal {κ} :
    {B : Type κ} (b : Bool) (x : ActiveTsError) (m : Result B)
    → is_lost x ≡ false
    → IsRefusal m
    → IsRefusal (guard b x >> m)
unfolding IsRefusal
guard-IsRefusal true x m h g = g
guard-IsRefusal false x m h g = h

if-IsRefusal {ℓ} :
    {A : Type ℓ} (b : Bool) (l r : Result A)
    → IsRefusal l
    → IsRefusal r
    → IsRefusal (if b then l else r)
if-IsRefusal true l r h g = h
if-IsRefusal false l r h g = g

assert_safe_entity_id-IsRefusal : (id : EntityId) → IsRefusal (assert_safe_entity_id id)
unfolding assert_safe_entity_id
assert_safe_entity_id-IsRefusal id =
    if-IsRefusal (is_safe_entity_id id) _ _ (ok-IsRefusal tt) (validation-IsRefusal _)

entity_id_key-IsRefusal : (id : EntityId) → IsRefusal (entity_id_key id)
unfolding entity_id_key
entity_id_key-IsRefusal id =
    bind-IsRefusal (assert_safe_entity_id id) _ (assert_safe_entity_id-IsRefusal id)
      λ _. ok-IsRefusal _

assert_safe_schema_identifier-IsRefusal : (s : String) → IsRefusal (assert_safe_schema_identifier s)
unfolding assert_safe_schema_identifier
assert_safe_schema_identifier-IsRefusal s =
    if-IsRefusal (matches_schema_identifier s && not (is_reserved_field_name s)) _ _
      (ok-IsRefusal s) (validation-IsRefusal _)

physical_length-IsRefusal : (s : String) → IsRefusal (assert_safe_physical_identifier_length s)
unfolding assert_safe_physical_identifier_length
physical_length-IsRefusal s =
    if-IsRefusal (leb (byte_length s) max_schema_identifier_bytes) _ _ (ok-IsRefusal s)
      (validation-IsRefusal _)

normalize_datastore_key_part-IsRefusal : (p : KeyPart) → IsRefusal (normalize_datastore_key_part p)
unfolding normalize_datastore_key_part
normalize_datastore_key_part-IsRefusal p =
    bind-IsRefusal (assert_safe_schema_identifier p.kind) _
      (assert_safe_schema_identifier-IsRefusal p.kind)
      λ i.
        bind-IsRefusal (assert_safe_physical_identifier_length i) _ (physical_length-IsRefusal i)
          λ _.
            bind-IsRefusal (assert_safe_entity_id p.id) _ (assert_safe_entity_id-IsRefusal p.id)
              λ _. ok-IsRefusal _

normalize_datastore_namespace-IsRefusal :
    (n : Option String) → IsRefusal (normalize_datastore_namespace n)
unfolding normalize_datastore_namespace
normalize_datastore_namespace-IsRefusal none = ok-IsRefusal _
normalize_datastore_namespace-IsRefusal (some s) =
    guard-IsRefusal (not (is_empty s) && not (has_null s)) validation _ refl (ok-IsRefusal _)

normalize_parts-IsRefusal : (ps : List KeyPart) → IsRefusal (normalize_parts ps)
unfolding normalize_parts
normalize_parts-IsRefusal [] = ok-IsRefusal _
normalize_parts-IsRefusal (p ∷ ps) =
    bind-IsRefusal (normalize_datastore_key_part p) _ (normalize_datastore_key_part-IsRefusal p)
      λ _. bind-IsRefusal (normalize_parts ps) _ (normalize_parts-IsRefusal ps) λ _. ok-IsRefusal _

normalize_datastore_key-IsRefusal : (k : DatastoreKey) → IsRefusal (normalize_datastore_key k)
unfolding normalize_datastore_key
normalize_datastore_key-IsRefusal k =
    guard-IsRefusal (not (is_empty_path k.path)) validation _ refl (
      bind-IsRefusal (normalize_parts k.path) _ (normalize_parts-IsRefusal k.path) λ _.
        bind-IsRefusal (normalize_datastore_namespace k.namespace) _
          (normalize_datastore_namespace-IsRefusal k.namespace) λ _. ok-IsRefusal _)

merge_namespace-IsRefusal : (k : DatastoreKey) (n : Option String) → IsRefusal (merge_namespace k n)
unfolding merge_namespace
merge_namespace-IsRefusal k none = ok-IsRefusal _
merge_namespace-IsRefusal k (some s) = elim (Bool-cases (option_eq k.namespace (some s))) [
  | inl same ↦ rw same (ok-IsRefusal k)
  | inr differs ↦ elim (Option-cases k.namespace) [
    | inl absent ↦ rw (differs, absent) (ok-IsRefusal (record k { namespace = some s }))
    | inr (other, there) ↦ rw (differs, there) (validation-IsRefusal _)
  ]
]

with_namespace-IsRefusal :
    (k : DatastoreKey) (n : Option String) → IsRefusal (datastore_key_with_namespace k n)
unfolding datastore_key_with_namespace
with_namespace-IsRefusal k n =
    bind-IsRefusal (normalize_datastore_key k) _ (normalize_datastore_key-IsRefusal k) λ safe.
      bind-IsRefusal (normalize_datastore_namespace n) _ (normalize_datastore_namespace-IsRefusal n)
        λ m. merge_namespace-IsRefusal safe m

identity_of_parts-IsRefusal : (ps : List KeyPart) → IsRefusal (identity_of_parts ps)
unfolding identity_of_parts
identity_of_parts-IsRefusal [] = ok-IsRefusal _
identity_of_parts-IsRefusal (p ∷ ps) =
    bind-IsRefusal (entity_id_key p.id) _ (entity_id_key-IsRefusal p.id) λ _.
      bind-IsRefusal (identity_of_parts ps) _ (identity_of_parts-IsRefusal ps) λ _. ok-IsRefusal _

datastore_key_identity-IsRefusal : (k : DatastoreKey) → IsRefusal (datastore_key_identity k)
unfolding datastore_key_identity
datastore_key_identity-IsRefusal k =
    bind-IsRefusal (normalize_datastore_key k) _ (normalize_datastore_key-IsRefusal k) λ safe.
      bind-IsRefusal (identity_of_parts safe.path) _ (identity_of_parts-IsRefusal safe.path)
        λ _. ok-IsRefusal _

search_scope-IsRefusal : (s : Option SearchScope) → IsRefusal (normalize_datastore_search_scope s)
unfolding normalize_datastore_search_scope
search_scope-IsRefusal none = ok-IsRefusal _
search_scope-IsRefusal (some s) =
    guard-IsRefusal (is_valid_scope s) configuration _ refl (ok-IsRefusal _)

ancestor_key-IsRefusal :
    (k : Option DatastoreKey) (n : Option String) → IsRefusal (ancestor_key k n)
unfolding ancestor_key
ancestor_key-IsRefusal none n = ok-IsRefusal _
ancestor_key-IsRefusal (some k) n =
    bind-IsRefusal (datastore_key_with_namespace k n) _ (with_namespace-IsRefusal k n)
      λ _. ok-IsRefusal _

alias_key-IsRefusal :
    (e : OutboxEvent) (id : EntityId) (kind : String) → IsRefusal (alias_key e id kind)
unfolding alias_key
alias_key-IsRefusal e id kind =
    bind-IsRefusal (entity_id_key id) _ (entity_id_key-IsRefusal id) λ _. ok-IsRefusal _

module _ (digest : String → String) where
  document_identity-IsRefusal :
      (name : String) (s : Option SearchScope) (id : EntityId) (k : Option DatastoreKey)
      (n : Option String)
      → IsRefusal (datastore_search_document_identity digest name s id k n)
  unfolding datastore_search_document_identity
  document_identity-IsRefusal name s id k n =
      bind-IsRefusal (normalize_datastore_search_scope s) _ (search_scope-IsRefusal s) λ _.
        bind-IsRefusal (ancestor_key k _) _ (ancestor_key-IsRefusal k _) λ _.
          bind-IsRefusal (datastore_key_identity _) _ (datastore_key_identity-IsRefusal _)
            λ _. ok-IsRefusal _

fallback_keys-IsRefusal : (e : OutboxEvent) → IsRefusal (fallback_keys e)
unfolding fallback_keys
fallback_keys-IsRefusal e = elim (Option-cases e.model_id) [
  | inl absent ↦ rw absent (ok-IsRefusal _)
  | inr (id, there) ↦
      rw there
        (bind-IsRefusal (entity_id_key id) _ (entity_id_key-IsRefusal id) λ _. ok-IsRefusal _)
]

add_alias-IsRefusal :
    (e : OutboxEvent) (applies : Bool) (kind : String) (keys : List String)
    → IsRefusal (add_alias e applies kind keys)
unfolding add_alias
add_alias-IsRefusal e applies kind keys = elim (Option-cases e.model_id) [
  | inl absent ↦ rw absent (ok-IsRefusal _)
  | inr (id, there) ↦ rw there (
      if-IsRefusal applies _ _
        (bind-IsRefusal (alias_key e id kind) _ (alias_key-IsRefusal e id kind) λ _. ok-IsRefusal _)
        (ok-IsRefusal _))
]

keys_or-IsRefusal :
    (ks : List String) (other : Result (List String))
    → IsRefusal other
    → IsRefusal (keys_or ks other)
keys_or-IsRefusal [] other h = h
keys_or-IsRefusal (k ∷ ks) other h = ok-IsRefusal _

module _ (digest : String → String) where
  physical_keys-IsRefusal : (e : OutboxEvent) → IsRefusal (physical_keys digest e)
  unfolding physical_keys
  physical_keys-IsRefusal e = elim (Option-cases e.model_id) [
    | inl absent ↦ rw absent (ok-IsRefusal _)
    | inr (id, there) ↦ rw there (
        if-IsRefusal (is_some e.ancestor || is_some e.scope) _ _
          (bind-IsRefusal
            (datastore_search_document_identity digest e.model e.scope id e.ancestor none) _
            (document_identity-IsRefusal digest e.model e.scope id e.ancestor none)
            λ _. ok-IsRefusal _)
          (ok-IsRefusal _))
  ]

  order_keys-IsRefusal : (e : OutboxEvent) → IsRefusal (outbox_entity_order_keys digest e)
  unfolding outbox_entity_order_keys
  order_keys-IsRefusal e =
      bind-IsRefusal (physical_keys digest e) _ (physical_keys-IsRefusal e)
        λ _. keys_or-IsRefusal _ _ (fallback_keys-IsRefusal e)

  pub block_keys-IsRefusal : (e : OutboxEvent) → IsRefusal (outbox_entity_order_block_keys digest e)
  unfolding outbox_entity_order_block_keys
  block_keys-IsRefusal e =
      bind-IsRefusal (outbox_entity_order_keys digest e) _ (order_keys-IsRefusal e) λ keys.
        bind-IsRefusal (add_alias e (is_datastore_identity_only e) "identity-only" keys) _
          (add_alias-IsRefusal e (is_datastore_identity_only e) "identity-only" keys)
          λ more.
            add_alias-IsRefusal e (is_namespace_less_ancestor e) "namespace-less-ancestor" more

pub IsRefusal-throw {ℓ} :
    {A : Type ℓ} {x : ActiveTsError} (r : Result A) → IsRefusal r → r ≡ throw x → is_lost x ≡ false
unfolding IsRefusal
IsRefusal-throw (ok a) h e = absurd (cc e)
IsRefusal-throw (throw y) h e = cc
