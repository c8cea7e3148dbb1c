-- ===== src/Tests/Outbox.antt =====
-- The theorems on the outbox at concrete inputs.
use active_ts.Prelude.{◌≡◌, refl, true, false, none, some, List, [], ◌∷◌, All, length}
use active_ts.Prelude.Text.{String, str_eq}
use active_ts.Prelude.Text.{byte_length, has_null, strip_prefix}
use active_ts.Prelude.Text.Decimal.{print_ℤ, digits}
use active_ts.Int64Id.{is_datastore_int64_id, datastore_int64_decimal}
use active_ts.EntityKey.{entity_id_key, encode_entity_id}
use active_ts.DatastoreKey.{
  normalize_datastore_search_scope, normalize_datastore_key, normalize_parts,
  normalize_datastore_key_part, normalize_datastore_namespace, datastore_search_document_identity,
  datastore_key_with_namespace, merge_namespace, datastore_key_identity, identity_of_parts,
  utf16_length,
}
use active_ts.SafeKeys.{
  assert_safe_cache_key, assert_safe_schema_identifier, assert_safe_entity_id, is_safe_entity_id,
  assert_safe_physical_identifier_length,
}
use active_ts.DataValue.{undefined, object, field, end, null, clone_safe_data, is_safe_data, prune}
use active_ts.Outbox.Event.{OutboxEvent, sanitize_outbox_event}
use active_ts.Outbox.Event.Sanitize.{sanitize_outbox_event_idem}
use active_ts.Outbox.Protocol.{
  has, outbox_entity_order_keys, outbox_entity_order_keys_blocked, block_outbox_entity_order_keys,
  outbox_entity_order_check_keys, outbox_entity_order_block_keys, is_outbox_delivery_available,
}
use active_ts.Outbox.Order.{Delivery}
use active_ts.Outbox.Memory.{
  assert_available_ids, drain_loop, drain_one, consider, consider_live, place, MemoryOutbox, append,
  drain, requeue, prepend, list, list_dead_letters, normalize_limit, ids,
}
use active_ts.Outbox.Memory.Drain.{IsSane, HasOneKey}
use active_ts.Outbox.Memory.Delivers.{IsWithin, drain-Delivery}
use active_ts.Outbox.Memory.Invariant.{
  IsValid, start, next, appends, empty, Reachable-IsValid, requeue-drain,
}
use active_ts.Outbox.Memory.Split.{Split}
use active_ts.Outbox.Memory.Overtaking.{IsLive, drain_overtakes}
use active_ts.Errors.{ok}
use active_ts.Tests.Data.{event, child_event, same_text}

abbrev now_event : OutboxEvent
now_event = event "now" none none none

abbrev later_event : OutboxEvent
later_event = event "later" none none (some 100)

abbrev two_events : MemoryOutbox
two_events = record { events = later_event ∷ now_event ∷ []; dead_letters = [] }

two_events-IsSane : All IsSane two_events.events
unfolding sanitize_outbox_event assert_safe_cache_key byte_length has_null
    assert_safe_schema_identifier strip_prefix normalize_datastore_search_scope
    assert_safe_entity_id is_safe_entity_id is_datastore_int64_id datastore_int64_decimal
    normalize_datastore_key normalize_parts normalize_datastore_key_part
    assert_safe_physical_identifier_length normalize_datastore_namespace clone_safe_data
    is_safe_data prune
two_events-IsSane = (refl, (refl, tt))

two_events-one_key : All (HasOneKey same_text) two_events.events
unfolding outbox_entity_order_check_keys outbox_entity_order_block_keys
two_events-one_key = (("event:later", refl, refl), (("event:now", refl, refl), tt))

two_events-limit : normalize_limit (some 5) ≡ ok (some 5)
unfolding normalize_limit
two_events-limit = refl

drain-Delivery_example :
    (m' : MemoryOutbox) × (out : List OutboxEvent) × (drain same_text (some 5) 10 two_events
      ≡ ok (m', out))
    × Delivery same_text 10 [] two_events.events out m'.events
    × IsWithin (some 5) (length out)
    × (m'.dead_letters ≡ [])
drain-Delivery_example =
    drain-Delivery same_text (some 5) 10 two_events two_events-IsSane two_events-one_key
      two_events-limit

two_events-drained :
    drain same_text none 10 two_events
    ≡ ok (record { events = later_event ∷ []; dead_letters = [] }, now_event ∷ [])
unfolding drain normalize_limit drain_loop drain_one consider consider_live place
    outbox_entity_order_keys_blocked block_outbox_entity_order_keys is_outbox_delivery_available
    sanitize_outbox_event assert_safe_cache_key byte_length has_null assert_safe_schema_identifier
    strip_prefix normalize_datastore_search_scope assert_safe_entity_id is_safe_entity_id
    is_datastore_int64_id datastore_int64_decimal normalize_datastore_key normalize_parts
    normalize_datastore_key_part assert_safe_physical_identifier_length
    normalize_datastore_namespace clone_safe_data is_safe_data prune outbox_entity_order_check_keys
    outbox_entity_order_block_keys outbox_entity_order_keys datastore_search_document_identity
    datastore_key_with_namespace merge_namespace datastore_key_identity identity_of_parts
    entity_id_key encode_entity_id utf16_length print_ℤ digits has
two_events-drained = refl

two_events-IsValid : IsValid two_events
unfolding ids has
two_events-IsValid = record {
  events_sane = two_events-IsSane;
  dead_letters_sane = tt;
  events_distinct = (refl, (refl, tt));
  dead_letters_distinct = tt;
}

requeue-drain_example :
    (list two_events ≡ ok two_events.events)
    × (list_dead_letters two_events ≡ ok [])
    × Split two_events.events (now_event ∷ []) (later_event ∷ [])
    × (requeue (now_event ∷ []) (record { events = later_event ∷ []; dead_letters = [] })
        ≡ ok (prepend (now_event ∷ []) (record { events = later_event ∷ []; dead_letters = [] })))
requeue-drain_example =
    requeue-drain same_text none 10 two_events two_events-IsValid two_events-drained

now_event-appended :
    append now_event empty ≡ ok (record { events = now_event ∷ []; dead_letters = [] }, now_event)
unfolding append assert_available_ids sanitize_outbox_event has assert_safe_cache_key byte_length
    has_null assert_safe_schema_identifier strip_prefix normalize_datastore_search_scope
    assert_safe_entity_id is_safe_entity_id is_datastore_int64_id datastore_int64_decimal
    normalize_datastore_key normalize_parts normalize_datastore_key_part
    assert_safe_physical_identifier_length normalize_datastore_namespace clone_safe_data
    is_safe_data prune
now_event-appended = refl

Reachable-IsValid_example : IsValid (record { events = now_event ∷ []; dead_letters = [] })
Reachable-IsValid_example =
    Reachable-IsValid same_text (next start (appends now_event now_event-appended))

abbrev first_event : OutboxEvent
first_event = event "first" none (some "user-1") (some 100)

abbrev second_event : OutboxEvent
second_event = child_event "second" (some "user-1")

abbrev third_event : OutboxEvent
third_event = child_event "third" none

abbrev child_key : String
child_key = "Post:datastore:namespace:1:n:kind:4:Blog:id:8:string:b:kind:4:Post:id:8:string:7:"

first_event-IsLive : IsLive same_text first_event ("Post:user-1" ∷ [])
unfolding sanitize_outbox_event assert_safe_cache_key byte_length has_null
    assert_safe_schema_identifier strip_prefix normalize_datastore_search_scope
    assert_safe_entity_id is_safe_entity_id is_datastore_int64_id datastore_int64_decimal
    normalize_datastore_key normalize_parts normalize_datastore_key_part
    assert_safe_physical_identifier_length normalize_datastore_namespace clone_safe_data
    is_safe_data prune outbox_entity_order_check_keys outbox_entity_order_block_keys
    outbox_entity_order_keys datastore_search_document_identity datastore_key_with_namespace
    merge_namespace datastore_key_identity identity_of_parts entity_id_key encode_entity_id
    utf16_length print_ℤ digits has
first_event-IsLive = record { sane = refl; live = refl; check = refl; block = refl }

second_event-IsLive : IsLive same_text second_event ("Post:user-1" ∷ child_key ∷ [])
unfolding sanitize_outbox_event assert_safe_cache_key byte_length has_null
    assert_safe_schema_identifier strip_prefix normalize_datastore_search_scope
    assert_safe_entity_id is_safe_entity_id is_datastore_int64_id datastore_int64_decimal
    normalize_datastore_key normalize_parts normalize_datastore_key_part
    assert_safe_physical_identifier_length normalize_datastore_namespace clone_safe_data
    is_safe_data prune outbox_entity_order_check_keys outbox_entity_order_block_keys
    outbox_entity_order_keys datastore_search_document_identity datastore_key_with_namespace
    merge_namespace datastore_key_identity identity_of_parts entity_id_key encode_entity_id
    utf16_length print_ℤ digits has
second_event-IsLive = record { sane = refl; live = refl; check = refl; block = refl }

third_event-IsLive : IsLive same_text third_event (child_key ∷ [])
unfolding sanitize_outbox_event assert_safe_cache_key byte_length has_null
    assert_safe_schema_identifier strip_prefix normalize_datastore_search_scope
    assert_safe_entity_id is_safe_entity_id is_datastore_int64_id datastore_int64_decimal
    normalize_datastore_key normalize_parts normalize_datastore_key_part
    assert_safe_physical_identifier_length normalize_datastore_namespace clone_safe_data
    is_safe_data prune outbox_entity_order_check_keys outbox_entity_order_block_keys
    outbox_entity_order_keys datastore_search_document_identity datastore_key_with_namespace
    merge_namespace datastore_key_identity identity_of_parts entity_id_key encode_entity_id
    utf16_length print_ℤ digits has
third_event-IsLive = record { sane = refl; live = refl; check = refl; block = refl }

first_event-later : is_outbox_delivery_available first_event 10 ≡ false
unfolding is_outbox_delivery_available
first_event-later = refl

third_event-available : is_outbox_delivery_available third_event 10 ≡ true
unfolding is_outbox_delivery_available
third_event-available = refl

keys-differ : str_eq "Post:user-1" child_key ≡ false
keys-differ = refl

drain_overtakes_example :
    drain same_text none 10
      (record { events = first_event ∷ second_event ∷ third_event ∷ []; dead_letters = [] })
    ≡ ok (record { events = first_event ∷ second_event ∷ []; dead_letters = [] }, third_event ∷ [])
drain_overtakes_example =
    drain_overtakes same_text 10 first_event second_event third_event "Post:user-1" child_key []
      first_event-IsLive second_event-IsLive third_event-IsLive first_event-later
      third_event-available keys-differ

-- An event whose data has a field that holds undefined, and what sanitizing makes of it.
abbrev loose_event : OutboxEvent
loose_event = record now_event {
  payload = object (field "gone" undefined (field "title" null end));
}

loose_event-sanitized : sanitize_outbox_event false loose_event ≡ ok now_event
unfolding sanitize_outbox_event assert_safe_cache_key byte_length has_null
    assert_safe_schema_identifier strip_prefix normalize_datastore_search_scope
    assert_safe_entity_id is_safe_entity_id is_datastore_int64_id datastore_int64_decimal
    normalize_datastore_key normalize_parts normalize_datastore_key_part
    assert_safe_physical_identifier_length normalize_datastore_namespace clone_safe_data
    is_safe_data prune
loose_event-sanitized = refl

sanitize_outbox_event_idem_example :
    (now_event ≡ record loose_event { payload = now_event.payload })
    × (clone_safe_data loose_event.payload ≡ ok now_event.payload)
    × (sanitize_outbox_event false now_event ≡ ok now_event)
sanitize_outbox_event_idem_example =
    sanitize_outbox_event_idem false loose_event loose_event-sanitized
