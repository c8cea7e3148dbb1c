-- ===== src/SafeKeys.antt =====
-- src/core/safe-keys.ts: the checks on keys, ids, identifiers and counts. The arguments are typed, so the
-- `typeof` tests hold by their types; a number is an integer, so `-0` and fractions cannot occur.
use active_ts.Prelude.{
  ℕ, ◌^◌, Bool, true, false, ◌&&◌, ◌||◌, not, Option, none, some, List, [], ◌∷◌, ltb, leb, ◌==◌,
  if◌then◌else◌,
}
use active_ts.Prelude.Int.{ℤ, pos, negsuc}
use active_ts.Prelude.Text.{
  String, Char, code, is_empty, has_null, byte_length, strip_prefix, str_eq,
}
use active_ts.Int64Id.{is_datastore_int64_id, is_safe_integer}
use active_ts.Errors.{Result, ok, throw, validation, guard, ◌>>=◌, ◌>>◌}

-- `EntityId`: a text (an int64 id is a marked text) or a number.
pub data EntityId : Type 0 where
  text : String → EntityId
  number : ℤ → EntityId

abbrev pub max_schema_identifier_bytes : ℕ
max_schema_identifier_bytes = 63

abbrev pub max_entity_id_bytes : ℕ
max_entity_id_bytes = 1024

abbrev pub max_cache_key_bytes : ℕ
max_cache_key_bytes = 4096

-- What `assertSafeCacheKey` accepts.
unfoldable pub is_safe_cache_key : String → Bool
is_safe_cache_key key =
    not (is_empty key) && (leb (byte_length key) max_cache_key_bytes && not (has_null key))

unfoldable pub assert_safe_cache_key : String → Result String
unfolding is_safe_cache_key
assert_safe_cache_key key = if is_safe_cache_key key then ok key else throw validation

-- `assertSafeTtl`, in seconds.
unfoldable pub assert_safe_ttl : Option ℤ → Result (Option ℕ)
assert_safe_ttl none = ok none
assert_safe_ttl (some (negsuc n)) = throw validation
assert_safe_ttl (some (pos n)) = if ltb 0 n && ltb n (2 ^ 53) then ok (some n) else throw validation

-- `isReservedFieldName`
unfoldable pub is_reserved_field_name : String → Bool
is_reserved_field_name field =
    (elim (strip_prefix "__" field) [ none ↦ false | some _ ↦ true ])
    || (str_eq field "__proto__" || (str_eq field "constructor" || str_eq field "prototype"))

unfoldable pub is_letter : Char → Bool
is_letter c = (leb b'A' (code c) && leb (code c) b'Z') || (leb b'a' (code c) && leb (code c) b'z')

unfoldable pub is_identifier_char : Char → Bool
unfolding is_letter
is_identifier_char c =
    is_letter c
    || ((leb b'0' (code c) && leb (code c) b'9') || ((code c == b'_') || (code c == b'-')))

unfoldable pub all_identifier_chars : String → Bool
unfolding is_identifier_char
all_identifier_chars String.[] = true
all_identifier_chars (String.◌∷◌ c s) = is_identifier_char c && all_identifier_chars s

-- `/^[A-Za-z][A-Za-z0-9_-]*$/`
unfoldable pub matches_schema_identifier : String → Bool
unfolding is_letter all_identifier_chars
matches_schema_identifier String.[] = false
matches_schema_identifier (String.◌∷◌ c s) = is_letter c && all_identifier_chars s

unfoldable pub assert_safe_schema_identifier : String → Result String
unfolding matches_schema_identifier is_reserved_field_name
assert_safe_schema_identifier name =
    if matches_schema_identifier name && not (is_reserved_field_name name)
    then ok name
    else throw validation

unfoldable pub assert_safe_physical_identifier_length : String → Result String
assert_safe_physical_identifier_length name =
    if leb (byte_length name) max_schema_identifier_bytes then ok name else throw validation

-- What `assertSafeEntityId` accepts.
unfoldable pub is_safe_entity_id : EntityId → Bool
is_safe_entity_id (text id) =
    is_datastore_int64_id id
    || (not (is_empty id) && (leb (byte_length id) max_entity_id_bytes && not (has_null id)))
is_safe_entity_id (number z) = is_safe_integer z

unfoldable pub assert_safe_entity_id : EntityId → Result (Unit {0})
assert_safe_entity_id id = guard (is_safe_entity_id id) validation

-- `assertSafeEntityIdArray`
unfoldable pub assert_safe_entity_id_array : List EntityId → Result (List EntityId)
unfolding assert_safe_entity_id
assert_safe_entity_id_array [] = ok []
assert_safe_entity_id_array (id ∷ ids) = do
  assert_safe_entity_id id
  rest ← assert_safe_entity_id_array ids
  ok (id ∷ rest)
