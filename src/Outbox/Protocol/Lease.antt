-- ===== src/Outbox/Protocol/Lease.antt =====
-- src/core/outbox-protocol.ts: versions, leases and the comparison of an event with a snapshot.
use active_ts.Prelude.{
  ℕ, ◌+◌, Bool, true, false, ◌&&◌, Option, none, some, ltb, leb, ◌==◌, if◌then◌else◌,
}
use active_ts.Prelude.Text.{String, str_eq}
use active_ts.SafeKeys.{EntityId}
use active_ts.EntityKey.{entity_id_key}
use active_ts.DataValue.{DataValue}
use active_ts.DatastoreKey.{DatastoreKey, SearchScope, scope_text, datastore_key_identity}
use active_ts.Outbox.Event.{
  OutboxEvent, Operation, create, update, delete, DataEncoding, public_data, stored_data,
}
use active_ts.Errors.{Result, ok, ◌>>=◌}

-- STORE_OUTBOX_LEASE_TTL_MS
abbrev pub store_outbox_lease_ttl_ms : ℕ
store_outbox_lease_ttl_ms = 300_000

abbrev pub outbox_event_version : OutboxEvent → ℕ
outbox_event_version e = elim e.version [ none ↦ 0 | some v ↦ v ]

unfoldable pub with_outbox_lease : OutboxEvent → String → ℕ → OutboxEvent
with_outbox_lease e token expires_at = record e {
  version = some (outbox_event_version e + 1);
  lease_token = some token;
  lease_expires_at = some expires_at;
}

unfoldable pub without_outbox_lease : OutboxEvent → OutboxEvent
without_outbox_lease e = record e {
  version = some (outbox_event_version e + 1);
  lease_token = none;
  lease_expires_at = none;
}

-- `expectedVersion`, which is absent for an event without a version.
abbrev pub outbox_expected_version : OutboxEvent → Option ℕ
outbox_expected_version e = e.version

unfoldable pub lease_active : Option String → Option ℕ → ℕ → Bool
lease_active none expires_at now = false
lease_active (some token) none now = false
lease_active (some token) (some expires_at) now = ltb now expires_at

unfoldable pub is_outbox_lease_active : OutboxEvent → ℕ → Bool
unfolding lease_active
is_outbox_lease_active e now = lease_active e.lease_token e.lease_expires_at now

abbrev pub text_eq? : Option String → Option String → Bool
text_eq? none none = true
text_eq? none (some b) = false
text_eq? (some a) none = false
text_eq? (some a) (some b) = str_eq a b

unfoldable pub is_outbox_lease_current : OutboxEvent → String → ℕ → Bool
unfolding is_outbox_lease_active
is_outbox_lease_current e token now =
    text_eq? e.lease_token (some token) && is_outbox_lease_active e now

unfoldable pub is_outbox_delivery_available : OutboxEvent → ℕ → Bool
is_outbox_delivery_available e now = elim e.available_at [ none ↦ true | some t ↦ leb t now ]

-- `===` at the types of the fields.
abbrev nat_eq? : Option ℕ → Option ℕ → Bool
nat_eq? none none = true
nat_eq? none (some b) = false
nat_eq? (some a) none = false
nat_eq? (some a) (some b) = a == b

abbrev operation_eq : Operation → Operation → Bool
operation_eq create create = true
operation_eq update update = true
operation_eq delete delete = true
operation_eq _ _ = false

abbrev encoding_eq? : Option DataEncoding → Option DataEncoding → Bool
encoding_eq? none none = true
encoding_eq? (some public_data) (some public_data) = true
encoding_eq? (some stored_data) (some stored_data) = true
encoding_eq? _ _ = false

abbrev bool_eq? : Option Bool → Option Bool → Bool
bool_eq? none none = true
bool_eq? (some true) (some true) = true
bool_eq? (some false) (some false) = true
bool_eq? _ _ = false

-- Two scopes are compared as the texts that the source keeps.
abbrev scope_eq? : Option SearchScope → Option SearchScope → Bool
scope_eq? none none = true
scope_eq? none (some b) = false
scope_eq? (some a) none = false
scope_eq? (some a) (some b) = str_eq (scope_text a) (scope_text b)

-- `outboxEntityIdMatches`
unfoldable pub outbox_entity_id_matches : Option EntityId → Option EntityId → Result Bool
outbox_entity_id_matches none none = ok true
outbox_entity_id_matches none (some b) = ok false
outbox_entity_id_matches (some a) none = ok false
outbox_entity_id_matches (some a) (some b) = do
  left ← entity_id_key a
  right ← entity_id_key b
  ok (str_eq left right)

-- `outboxDatastoreAncestorMatches`
unfoldable pub outbox_datastore_ancestor_matches :
    Option DatastoreKey → Option DatastoreKey → Result Bool
outbox_datastore_ancestor_matches none none = ok true
outbox_datastore_ancestor_matches none (some b) = ok false
outbox_datastore_ancestor_matches (some a) none = ok false
outbox_datastore_ancestor_matches (some a) (some b) = do
  left ← datastore_key_identity a
  right ← datastore_key_identity b
  ok (str_eq left right)

-- The fields that `isOutboxSnapshotCurrent` compares by `===`, in three parts.
unfoldable pub same_write : OutboxEvent → OutboxEvent → Bool
same_write a b =
    str_eq a.id b.id
    && (str_eq a.model b.model
        && (operation_eq a.operation b.operation
            && ((a.created_at == b.created_at)
                && (text_eq? a.sequence b.sequence && nat_eq? a.version b.version))))

unfoldable pub same_lease : OutboxEvent → OutboxEvent → Bool
same_lease a b =
    text_eq? a.lease_token b.lease_token && nat_eq? a.lease_expires_at b.lease_expires_at

unfoldable pub same_delivery : OutboxEvent → OutboxEvent → Bool
same_delivery a b =
    nat_eq? a.delivery_attempts b.delivery_attempts
    && (nat_eq? a.available_at b.available_at
        && (nat_eq? a.dead_lettered_at b.dead_lettered_at
            && (text_eq? a.last_delivery_error b.last_delivery_error
                && (text_eq? a.model_identity b.model_identity
                    && (text_eq? a.project_id b.project_id
                        && (scope_eq? a.scope b.scope
                            && (encoding_eq? a.data_encoding b.data_encoding
                                && bool_eq? a.reconcile_from_store b.reconcile_from_store)))))))

unfoldable pub same_fields : OutboxEvent → OutboxEvent → Bool
same_fields a b = same_write a b && (same_lease a b && same_delivery a b)

-- `left && right()`, where the left side may throw.
abbrev pub and_then : Result Bool → Result Bool → Result Bool
and_then left right = left >>= λ b. if b then right else ok false

-- `isDeepStrictEqual` of node:util is the parameter `deep_equal`.
module _ (deep_equal : DataValue → DataValue → Bool) where
  -- `isOutboxSnapshotCurrent`; `isOutboxRequeueInsertCurrent` has the same body.
  unfoldable pub is_outbox_snapshot_current : OutboxEvent → OutboxEvent → Result Bool
  unfolding same_fields same_write same_lease same_delivery
  is_outbox_snapshot_current current snapshot = and_then (ok (same_fields current snapshot)) (
      and_then (outbox_datastore_ancestor_matches current.ancestor snapshot.ancestor) (
        and_then (outbox_entity_id_matches current.model_id snapshot.model_id)
          (ok (deep_equal current.payload snapshot.payload))))
