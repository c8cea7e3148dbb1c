-- ===== src/EntityKey/RoundTrip.antt =====
-- src/core/query-utils.ts: a key decodes to the id that it was made of.
use active_ts.Prelude.{◌≡◌, refl, none, some, true, Option-cases, inl, inr, arith}
use active_ts.Prelude.Text.{String, ◌⧺◌, split_colon, str_eq_refl}
use active_ts.Prelude.Text.Decimal.{print_ℤ, read_ℤ-print_ℤ}
use active_ts.Prelude.Int.{ℤ}
use active_ts.Int64Id.{
  datastore_int64_decimal, datastore_int64_id, datastore_int64_id_value, datastore_int64_id_iff,
}
use active_ts.SafeKeys.{EntityId, text, number, is_safe_entity_id, assert_safe_entity_id}
use active_ts.Errors.{ok}
use active_ts.EntityKey.Defs.{
  decode_number, encode_entity_id, entity_id_key, check_canonical, entity_id_from_key,
  entity_id_from_canonical_key,
}

check_canonical_lem :
    (id : EntityId) → is_safe_entity_id id ≡ true → check_canonical (encode_entity_id id) id ≡ ok id
unfolding check_canonical entity_id_key assert_safe_entity_id
check_canonical_lem id h = rw (h, str_eq_refl)

pub key_of_safe :
    (id : EntityId) {key : String}
    → entity_id_key id ≡ ok key
    → (is_safe_entity_id id ≡ true) × (encode_entity_id id ≡ key)
unfolding entity_id_key assert_safe_entity_id
key_of_safe id h = ground arith

int64_of_decimal :
    (id decimal : String)
    → datastore_int64_decimal id ≡ some decimal
    → datastore_int64_id decimal ≡ ok id
int64_of_decimal id decimal h =
    (datastore_int64_id_iff decimal id).1
      (unfold datastore_int64_id_value in rw (h, datastore_int64_id_value))

encode_plain :
    (id : String) → datastore_int64_decimal id ≡ none → encode_entity_id (text id) ≡ "string:" ⧺ id
unfolding encode_entity_id
encode_plain id h = rw (h, encode_entity_id)

encode_int64 :
    (id decimal : String)
    → datastore_int64_decimal id ≡ some decimal
    → encode_entity_id (text id) ≡ "datastore-int64:" ⧺ decimal
unfolding encode_entity_id
encode_int64 id decimal h = rw (h, encode_entity_id)

encode_number : (z : ℤ) → encode_entity_id (number z) ≡ "number:" ⧺ print_ℤ z
unfolding encode_entity_id
encode_number z = refl

from_string_key :
    (id : String)
    → is_safe_entity_id (text id) ≡ true
    → entity_id_from_key ("string:" ⧺ id) ≡ ok (text id)
unfolding entity_id_from_key split_colon assert_safe_entity_id
from_string_key id h = rw h

from_int64_key :
    (id decimal : String)
    → datastore_int64_id decimal ≡ ok id
    → check_canonical ("datastore-int64:" ⧺ decimal) (text id) ≡ ok (text id)
    → entity_id_from_key ("datastore-int64:" ⧺ decimal) ≡ ok (text id)
unfolding entity_id_from_key split_colon
from_int64_key id decimal h c = rw (h, c)

decode_number_lem :
    (key : String) (z : ℤ)
    → is_safe_entity_id (number z) ≡ true
    → check_canonical key (number z) ≡ ok (number z)
    → decode_number key (print_ℤ z) ≡ ok (number z)
unfolding decode_number assert_safe_entity_id
decode_number_lem key z h c = rw (read_ℤ-print_ℤ z, decode_number, h) c

from_number_key :
    (z : ℤ)
    → is_safe_entity_id (number z) ≡ true
    → check_canonical ("number:" ⧺ print_ℤ z) (number z) ≡ ok (number z)
    → entity_id_from_key ("number:" ⧺ print_ℤ z) ≡ ok (number z)
unfolding entity_id_from_key split_colon assert_safe_entity_id
from_number_key z h c = decode_number_lem _ z h c

from_key_of_encode :
    (id : EntityId) → is_safe_entity_id id ≡ true → entity_id_from_key (encode_entity_id id) ≡ ok id
from_key_of_encode (text id) h = elim (Option-cases (datastore_int64_decimal id)) [
  | inl plain ↦ rw (encode_plain id plain) (from_string_key id h)
  | inr (decimal, e) ↦ rw (encode_int64 id decimal e) (
      from_int64_key id decimal (int64_of_decimal id decimal e)
        (rw (encode_int64 id decimal e) at (check_canonical_lem (text id) h)))
]
from_key_of_encode (number z) h =
    rw (encode_number z)
      (from_number_key z h (rw (encode_number z) at (check_canonical_lem (number z) h)))

-- The key of an accepted id decodes to that id, also where the key must be canonical.
pub entity_id_from_key-entity_id_key :
    (id : EntityId) {key : String}
    → entity_id_key id ≡ ok key
    → (entity_id_from_key key ≡ ok id) × (entity_id_from_canonical_key key ≡ ok id)
unfolding entity_id_from_canonical_key
entity_id_from_key-entity_id_key id {key} h =
    let (safe, e) = key_of_safe id h in
    let decoded : entity_id_from_key key ≡ ok id = rw (← e) (from_key_of_encode id safe) in
    (decoded, rw decoded (rw (← e) (check_canonical_lem id safe)))

-- Accepted ids that have one key are equal.
pub entity_id_key_inj :
    (a b : EntityId) {key : String} → entity_id_key a ≡ ok key → entity_id_key b ≡ ok key → a ≡ b
entity_id_key_inj a b h k =
    cc ((entity_id_from_key-entity_id_key a h).0, (entity_id_from_key-entity_id_key b k).0)
