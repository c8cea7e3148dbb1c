-- ===== src/Tests/Batches.antt =====
-- The theorem on a batch of leases at a concrete input.
use active_ts.Prelude.{◌≡◌, refl, true, Bool, none, some, List, [], ◌∷◌}
use active_ts.Prelude.Text.{byte_length, has_null, strip_prefix}
use active_ts.Prelude.Assoc.{lookup, insert}
use active_ts.Int64Id.{is_datastore_int64_id, datastore_int64_decimal}
use active_ts.EntityKey.{entity_id_key, encode_entity_id}
use active_ts.DatastoreKey.{
  normalize_datastore_search_scope, normalize_datastore_key, normalize_parts,
  normalize_datastore_key_part, normalize_datastore_namespace,
}
use active_ts.SafeKeys.{
  assert_safe_cache_key, assert_safe_schema_identifier, assert_safe_entity_id, is_safe_entity_id,
  assert_safe_physical_identifier_length, is_reserved_field_name,
}
use active_ts.DataValue.{
  DataValue, clone_safe_data, clone_portable_data, is_safe_data, is_portable_tree, prune,
}
use active_ts.Outbox.Event.{OutboxEvent, sanitize_outbox_event}
use active_ts.Outbox.Protocol.{
  with_outbox_lease, is_outbox_lease_active, is_outbox_delivery_available,
  is_outbox_snapshot_current, outbox_entity_id_matches, outbox_datastore_ancestor_matches,
}
use active_ts.Outbox.Store.{
  Rows, row_get, row_update, portable_row, current_outbox_event, check_row, claim_read, claim_found,
  claim_write, write_lease, is_claimable,
}
use active_ts.Errors.{ok}
use active_ts.Tests.Data.{event}
use active_ts.Prelude.{concat}
use active_ts.Outbox.Protocol.{
  outbox_entity_order_check_keys, outbox_entity_order_block_keys, outbox_entity_order_keys,
  outbox_entity_order_keys_blocked, block_outbox_entity_order_keys, add_alias, physical_keys,
  fallback_keys, has, is_datastore_identity_only, is_namespace_less_ancestor,
}
use active_ts.Outbox.Memory.{normalize_limit}
use active_ts.Outbox.Memory.Delivers.{IsWithin}
use active_ts.Outbox.Store.Leasing.{
  Others, lease, lease_pages, lease_page, lease_one, lease_place, may_claim, lease_try,
  lease_claimed, claim_among, claim_then, claim_finish, block_row, block, leased_of,
}
use active_ts.Outbox.Store.Leasing.Order.{Leasing}
use active_ts.Outbox.Store.Leasing.Grants.{lease-Leasing}
use active_ts.Tests.Data.{same_text}

abbrev all_equal : DataValue → DataValue → Bool
all_equal a b = true

abbrev first_event : OutboxEvent
first_event = event "e" none (some "post") none

-- Another event of the same document.
abbrev second_event : OutboxEvent
second_event = event "f" none (some "post") none

abbrev first_leased : OutboxEvent
first_leased = with_outbox_lease first_event "token-1" 300_100

abbrev rows_before : Rows
rows_before = ("string:e", first_event) ∷ ("string:f", second_event) ∷ []

abbrev rows_after : Rows
rows_after = ("string:e", first_leased) ∷ ("string:f", second_event) ∷ []

abbrev calm : Others
calm = record { before = λ e rows. rows; between = λ e rows. rows; afterwards = λ e rows. rows }

abbrev pages : List (List OutboxEvent)
pages = (first_event ∷ []) ∷ (second_event ∷ []) ∷ []

leased_first :
    lease same_text all_equal calm "token-1" 100 (some 5) pages rows_before
    ≡ (rows_after, ok (first_leased ∷ []))
unfolding lease lease_pages lease_page lease_one lease_place may_claim lease_try lease_claimed
    claim_among claim_then claim_finish block_row block leased_of normalize_limit
    outbox_entity_order_check_keys outbox_entity_order_block_keys outbox_entity_order_keys
    outbox_entity_order_keys_blocked block_outbox_entity_order_keys add_alias physical_keys
    fallback_keys has is_datastore_identity_only is_namespace_less_ancestor claim_read claim_found
    claim_write write_lease is_claimable current_outbox_event check_row row_get row_update
    portable_row with_outbox_lease is_outbox_delivery_available is_outbox_lease_active
    is_outbox_snapshot_current outbox_entity_id_matches outbox_datastore_ancestor_matches lookup
    insert entity_id_key encode_entity_id sanitize_outbox_event clone_portable_data is_portable_tree
    is_reserved_field_name assert_safe_cache_key byte_length has_null assert_safe_schema_identifier
    strip_prefix normalize_datastore_search_scope assert_safe_entity_id is_safe_entity_id
    is_datastore_int64_id datastore_int64_decimal normalize_datastore_key normalize_parts
    normalize_datastore_key_part assert_safe_physical_identifier_length
    normalize_datastore_namespace clone_safe_data is_safe_data prune
leased_first = refl

lease-Leasing_example :
    Leasing same_text "token-1" 100 [] (concat pages) (first_leased ∷ []) × IsWithin (some 5) 1
lease-Leasing_example =
    lease-Leasing same_text all_equal calm "token-1" 100 (some 5) pages rows_before leased_first
