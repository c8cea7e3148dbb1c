-- ===== src/EntityKey/Defs.antt =====
-- src/core/query-utils.ts, `entityIdKey` and `entityIdFromKey`.
use active_ts.Prelude.{none, some, if◌then◌else◌}
use active_ts.Prelude.Text.{String, ◌⧺◌, split_colon, str_eq}
use active_ts.Prelude.Text.Decimal.{print_ℤ, read_ℤ}
use active_ts.Int64Id.{datastore_int64_decimal, datastore_int64_id}
use active_ts.SafeKeys.{EntityId, text, number, assert_safe_entity_id}
use active_ts.Errors.{Result, ok, throw, validation, guard, ◌>>=◌, ◌>>◌}

-- The key of an id that passed `assertSafeEntityId`.
unfoldable pub encode_entity_id : EntityId → String
encode_entity_id (text id) = elim (datastore_int64_decimal id) [
  | none ↦ "string:" ⧺ id
  | some decimal ↦ "datastore-int64:" ⧺ decimal
]
encode_entity_id (number z) = "number:" ⧺ print_ℤ z

unfoldable pub entity_id_key : EntityId → Result String
entity_id_key id = do assert_safe_entity_id id; ok (encode_entity_id id)

-- The decoded id, if it encodes to the key that was given.
unfoldable pub check_canonical : String → EntityId → Result EntityId
check_canonical key id = do encoded ← entity_id_key id; guard (str_eq encoded key) validation; ok id

-- `assertSafeEntityId(id); return id`
checked : EntityId → Result EntityId
checked id = do assert_safe_entity_id id; ok id

-- `Number(value)` is read as an integer. A text that is none gives NaN, a fraction or the integer of
-- another spelling; every one of these is refused, as not safe or by the comparison with the key.
unfoldable pub decode_number : String → String → Result EntityId
decode_number key value = elim (read_ℤ value) [
  | none ↦ throw validation
  | some z ↦ do assert_safe_entity_id (number z); check_canonical key (number z)
]

decode_int64 : String → String → Result EntityId
decode_int64 key value = do id ← datastore_int64_id value; check_canonical key (text id)

decode_typed : String → String → String → Result EntityId
unfolding checked decode_int64
decode_typed key kind value =
    if str_eq kind "datastore-int64"
    then decode_int64 key value
    else if str_eq kind "number"
    then decode_number key value
    else if str_eq kind "string"
    then checked (text value)
    else checked (text key)

unfoldable pub entity_id_from_key : String → Result EntityId
unfolding decode_typed
entity_id_from_key key = elim (split_colon key) [
  | none ↦ checked (text key)
  | some (kind, value) ↦ decode_typed key kind value
]

-- `entityIdFromCanonicalKey`
unfoldable pub entity_id_from_canonical_key : String → Result EntityId
entity_id_from_canonical_key key = do id ← entity_id_from_key key; check_canonical key id
