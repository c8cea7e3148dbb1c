-- ===== src/Tests/Leases.antt =====
-- The theorems on the outbox over a store at concrete inputs.
use active_ts.Prelude.{ℕ, ◌≡◌, refl, true, false, Bool, none, some, List, [], ◌∷◌, All, arith}
use active_ts.Prelude.Text.{String, byte_length, has_null, strip_prefix}
use active_ts.Prelude.Assoc.{lookup, insert}
use active_ts.Int64Id.{is_datastore_int64_id, datastore_int64_decimal}
use active_ts.EntityKey.{entity_id_key, encode_entity_id}
use active_ts.DatastoreKey.{
  normalize_datastore_search_scope, normalize_datastore_key, normalize_parts,
  normalize_datastore_key_part, normalize_datastore_namespace,
}
use active_ts.SafeKeys.{
  text, assert_safe_cache_key, assert_safe_schema_identifier, assert_safe_entity_id,
  is_safe_entity_id, assert_safe_physical_identifier_length, is_reserved_field_name,
}
use active_ts.DataValue.{
  DataValue, clone_safe_data, clone_portable_data, is_safe_data, is_portable_tree, prune,
}
use active_ts.Outbox.Event.{OutboxEvent, sanitize_outbox_event}
use active_ts.Outbox.Protocol.{
  with_outbox_lease, is_outbox_lease_active, is_outbox_delivery_available,
  is_outbox_snapshot_current, outbox_entity_id_matches, outbox_datastore_ancestor_matches,
}
use active_ts.Outbox.Store.{
  Rows, row_get, row_update, portable_row, current_outbox_event, check_row, claim, claim_read,
  claim_found, claim_write, write_lease, is_claimable,
}
use active_ts.Outbox.Store.Exclusive.{Call, claims, acks, after_all}
use active_ts.Outbox.Store.Exclusive.Lasting.{IsOutside, after_all-lookup}
use active_ts.Outbox.Store.Exclusive.Claims.{IsEarly, claim-after_all}
use active_ts.Errors.{ok}
use active_ts.Tests.Data.{event}

abbrev all_equal : DataValue → DataValue → Bool
all_equal a b = true

abbrev pending_event : OutboxEvent
pending_event = event "e" none none none

abbrev claimed_event : OutboxEvent
claimed_event = with_outbox_lease pending_event "token-1" 400

abbrev rows_before : Rows
rows_before = ("string:e", pending_event) ∷ []

abbrev rows_claimed : Rows
rows_claimed = ("string:e", claimed_event) ∷ []

claimed_once :
    claim all_equal pending_event "token-1" 400 100 rows_before
    ≡ ok (rows_claimed, some claimed_event)
unfolding claim claim_read claim_found claim_write write_lease is_claimable current_outbox_event
    check_row row_get row_update portable_row with_outbox_lease is_outbox_delivery_available
    is_outbox_lease_active is_outbox_snapshot_current outbox_entity_id_matches
    outbox_datastore_ancestor_matches lookup insert entity_id_key encode_entity_id
    sanitize_outbox_event clone_portable_data is_portable_tree is_reserved_field_name
    assert_safe_cache_key byte_length has_null assert_safe_schema_identifier strip_prefix
    normalize_datastore_search_scope assert_safe_entity_id is_safe_entity_id is_datastore_int64_id
    datastore_int64_decimal normalize_datastore_key normalize_parts normalize_datastore_key_part
    assert_safe_physical_identifier_length normalize_datastore_namespace clone_safe_data
    is_safe_data prune
claimed_once = refl

-- A second worker tries to claim the event, and to acknowledge it with a token of its own.
abbrev others : List (ℕ × Call)
others =
    (200, claims pending_event "token-2" 500)
    ∷ (300, acks (with_outbox_lease pending_event "token-2" 500 ∷ []))
    ∷ []

others-IsEarly : All (IsEarly "token-1" 400) others
unfolding with_outbox_lease
others-IsEarly = ((omega arith, refl), ((omega arith, refl), tt))

others-IsOutside : All (IsOutside "token-1" claimed_event) others
unfolding with_outbox_lease is_outbox_lease_active
others-IsOutside = ((refl, refl), ((refl, refl), tt))

claim-after_all_example :
    (key : String) × (current : OutboxEvent) × (row : OutboxEvent) × (entity_id_key (text "e")
      ≡ ok key)
    × (current_outbox_event "e" rows_before ≡ ok (some current))
    × (is_outbox_lease_active current 100 ≡ false)
    × (claimed_event ≡ with_outbox_lease current "token-1" 400)
    × (row ≡ record claimed_event { payload = row.payload })
    × (lookup key (after_all all_equal others rows_claimed) ≡ some row)
claim-after_all_example =
    claim-after_all all_equal pending_event "token-1" 400 100 rows_before others claimed_once
      others-IsEarly

claimed_event-stored : lookup "string:e" rows_claimed ≡ some claimed_event
unfolding lookup
claimed_event-stored = refl

claimed_event-token : claimed_event.lease_token ≡ some "token-1"
unfolding with_outbox_lease
claimed_event-token = refl

after_all-lookup_example :
    lookup "string:e" (after_all all_equal others rows_claimed) ≡ some claimed_event
after_all-lookup_example =
    after_all-lookup all_equal "string:e" "token-1" claimed_event others rows_claimed
      claimed_event-stored claimed_event-token others-IsOutside
