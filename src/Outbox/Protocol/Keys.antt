-- ===== src/Outbox/Protocol/Keys.antt =====
-- src/core/outbox-protocol.ts: the keys by which the delivery of events is kept in order.
use active_ts.Prelude.{
  Bool, true, false, ◌&&◌, ◌||◌, not, Option, none, some, List, [], ◌∷◌, ◌++◌, if◌then◌else◌,
}
use active_ts.Prelude.Text.{String, ◌⧺◌, str_eq, strip_prefix}
use active_ts.SafeKeys.{EntityId}
use active_ts.EntityKey.{entity_id_key}
use active_ts.Json.{stringify}
use active_ts.DatastoreKey.{
  DatastoreKey, SearchScope, scope_text, datastore_search_document_identity,
}
use active_ts.Outbox.Event.{OutboxEvent, is_some}
use active_ts.Errors.{Result, ok, ◌>>=◌}

-- Membership in a list of keys; a `Set` of blocked keys is such a list.
unfoldable pub has : List String → String → Bool
has [] key = false
has (k ∷ ks) key = if str_eq k key then true else has ks key

-- `outboxEntityOrderKeysBlocked`
unfoldable pub outbox_entity_order_keys_blocked : List String → List String → Bool
unfolding has
outbox_entity_order_keys_blocked blocked [] = false
outbox_entity_order_keys_blocked blocked (key ∷ keys) =
    if has blocked key then true else outbox_entity_order_keys_blocked blocked keys

-- `blockOutboxEntityOrderKeys`
unfoldable pub block_outbox_entity_order_keys : List String → List String → List String
block_outbox_entity_order_keys blocked keys = keys ++ blocked

-- `appendOutboxEntityOrderKey`
unfoldable pub append_outbox_entity_order_key : List String → String → List String
unfolding has
append_outbox_entity_order_key keys key = if has keys key then keys else keys ++ key ∷ []

identity_keys : OutboxEvent → List String
identity_keys e = elim e.model_identity [
  | none ↦ []
  | some identity ↦ (e.model ⧺ ":" ⧺ identity) ∷ []
]

-- The key of an event that has neither an identity nor a physical scope.
unfoldable pub fallback_keys : OutboxEvent → Result (List String)
fallback_keys e = elim e.model_id [
  | none ↦ ok (("event:" ⧺ e.id) ∷ [])
  | some id ↦ do key ← entity_id_key id; ok ((e.model ⧺ ":" ⧺ key) ∷ [])
]

abbrev pub keys_or : List String → Result (List String) → Result (List String)
keys_or [] other = other
keys_or (k ∷ ks) other = ok (k ∷ ks)

abbrev null_or : Option SearchScope → Option String
null_or none = none
null_or (some s) = some (scope_text s)

-- `outboxDatastoreAliasKey` at a model id.
unfoldable pub alias_key : OutboxEvent → EntityId → String → Result String
alias_key e id kind = do
  key ← entity_id_key id
  ok (
      e.model
      ⧺ ":datastore-"
      ⧺ kind
      ⧺ "-namespace-alias:"
      ⧺ stringify (null_or e.scope ∷ some key ∷ []))

abbrev starts_with_datastore : Option String → Bool
starts_with_datastore none = false
starts_with_datastore (some s) = is_some (strip_prefix "datastore:" s)

-- `outboxIsDatastoreIdentityOnlyEvent`
unfoldable pub is_datastore_identity_only : OutboxEvent → Bool
is_datastore_identity_only e =
    is_some e.model_id && (not (is_some e.ancestor) && starts_with_datastore e.model_identity)

abbrev has_no_namespace : Option DatastoreKey → Bool
has_no_namespace none = false
has_no_namespace (some key) = not (is_some key.namespace)

-- `outboxIsNamespaceLessDatastoreAncestorEvent`
unfoldable pub is_namespace_less_ancestor : OutboxEvent → Bool
is_namespace_less_ancestor e = is_some e.model_id && has_no_namespace e.ancestor

-- Adds the alias key of the kind, if the event is one that has it.
unfoldable pub add_alias : OutboxEvent → Bool → String → List String → Result (List String)
unfolding alias_key append_outbox_entity_order_key
add_alias e applies kind keys = elim e.model_id [
  | none ↦ ok keys
  | some id ↦
      if applies
      then (alias_key e id kind >>= λ key. ok (append_outbox_entity_order_key keys key))
      else ok keys
]

module _ (digest : String → String) where
  unfoldable pub physical_keys : OutboxEvent → Result (List String)
  physical_keys e = elim e.model_id [
    | none ↦ ok []
    | some id ↦
        if is_some e.ancestor || is_some e.scope
        then (datastore_search_document_identity digest e.model e.scope id e.ancestor none
            >>= λ identity. ok ((e.model ⧺ ":" ⧺ identity) ∷ []))
        else ok []
  ]

  -- `outboxEntityOrderKeys`
  unfoldable pub outbox_entity_order_keys : OutboxEvent → Result (List String)
  unfolding identity_keys physical_keys fallback_keys
  outbox_entity_order_keys e = do
    physical ← physical_keys e
    keys_or (identity_keys e ++ physical) (fallback_keys e)

  -- `outboxEntityOrderCheckKeys`
  unfoldable pub outbox_entity_order_check_keys : OutboxEvent → Result (List String)
  unfolding outbox_entity_order_keys add_alias is_datastore_identity_only is_namespace_less_ancestor
  outbox_entity_order_check_keys e = do
    keys ← outbox_entity_order_keys e
    keys ← add_alias e (is_datastore_identity_only e) "namespace-less-ancestor" keys
    add_alias e (is_namespace_less_ancestor e) "identity-only" keys

  -- `outboxEntityOrderBlockKeys`
  unfoldable pub outbox_entity_order_block_keys : OutboxEvent → Result (List String)
  unfolding outbox_entity_order_keys add_alias is_datastore_identity_only is_namespace_less_ancestor
  outbox_entity_order_block_keys e = do
    keys ← outbox_entity_order_keys e
    keys ← add_alias e (is_datastore_identity_only e) "identity-only" keys
    add_alias e (is_namespace_less_ancestor e) "namespace-less-ancestor" keys
