-- ===== src/DatastoreKey/Defs.antt =====
-- src/core/datastore-key.ts, src/core/datastore-search-scope.ts and src/core/search-utils.ts.
use active_ts.Prelude.{
  ◌+◌, ℕ, Bool, true, false, ◌&&◌, not, Option, none, some, List, [], ◌∷◌, ◌++◌, ltb, if◌then◌else◌,
}
use active_ts.Prelude.Int.{pos}
use active_ts.Prelude.Text.{String, code, ◌⧺◌, is_empty, has_null, str_eq}
use active_ts.Prelude.Text.Decimal.{print_ℤ}
use active_ts.Json.{stringify}
use active_ts.SafeKeys.{
  EntityId, assert_safe_entity_id, assert_safe_schema_identifier,
  assert_safe_physical_identifier_length,
}
use active_ts.EntityKey.{entity_id_key}
use active_ts.Errors.{Result, ok, throw, configuration, validation, guard, ◌>>=◌, ◌>>◌}

pub record KeyPart : Type 0 where
  pub kind : String
  pub id : EntityId

pub record DatastoreKey : Type 0 where
  pub path : List KeyPart
  pub namespace : Option String

-- `normalizeDatastoreKeyPart`, with `normalizeDatastoreKind` and `normalizeDatastoreEntityId`.
unfoldable pub normalize_datastore_key_part : KeyPart → Result KeyPart
normalize_datastore_key_part part = do
  identifier ← assert_safe_schema_identifier part.kind
  kind ← assert_safe_physical_identifier_length identifier
  assert_safe_entity_id part.id
  ok (record { kind = kind; id = part.id })

unfoldable pub normalize_datastore_namespace : Option String → Result (Option String)
normalize_datastore_namespace none = ok none
normalize_datastore_namespace (some s) = do
  guard (not (is_empty s) && not (has_null s)) validation
  ok (some s)

unfoldable pub normalize_parts : List KeyPart → Result (List KeyPart)
normalize_parts [] = ok []
normalize_parts (part ∷ parts) = do
  safe ← normalize_datastore_key_part part
  rest ← normalize_parts parts
  ok (safe ∷ rest)

abbrev pub is_empty_path : List KeyPart → Bool
is_empty_path [] = true
is_empty_path (part ∷ parts) = false

unfoldable pub normalize_datastore_key : DatastoreKey → Result DatastoreKey
normalize_datastore_key key = do
  guard (not (is_empty_path key.path)) validation
  path ← normalize_parts key.path
  namespace ← normalize_datastore_namespace key.namespace
  ok (record { path = path; namespace = namespace })

abbrev pub option_eq : Option String → Option String → Bool
option_eq none none = true
option_eq none (some b) = false
option_eq (some a) none = false
option_eq (some a) (some b) = str_eq a b

unfoldable pub merge_namespace : DatastoreKey → Option String → Result DatastoreKey
merge_namespace key none = ok key
merge_namespace key (some ns) =
    if option_eq key.namespace (some ns) then ok key else elim key.namespace [
      | some other ↦ throw validation
      | none ↦ ok (record key { namespace = some ns })
    ]

unfoldable pub datastore_key_with_namespace : DatastoreKey → Option String → Result DatastoreKey
datastore_key_with_namespace key namespace = do
  safe_key ← normalize_datastore_key key
  safe_namespace ← normalize_datastore_namespace namespace
  merge_namespace safe_key safe_namespace

-- `text.length`: UTF-16 code units.
unfoldable pub utf16_length : String → ℕ
utf16_length String.[] = 0
utf16_length (String.◌∷◌ c s) = (if ltb (code c) 0x10000 then 1 else 2) + utf16_length s

abbrev decimal : ℕ → String
decimal n = print_ℤ (pos n)

-- A text behind its length.
sized : String → String
unfolding utf16_length print_ℤ
sized s = decimal (utf16_length s) ⧺ ":" ⧺ s

unfoldable pub identity_of_parts : List KeyPart → Result String
unfolding sized
identity_of_parts [] = ok ""
identity_of_parts (part ∷ parts) = do
  id ← entity_id_key part.id
  rest ← identity_of_parts parts
  ok ("kind:" ⧺ sized part.kind ⧺ ":id:" ⧺ sized id ⧺ ":" ⧺ rest)

namespace_identity : Option String → String
unfolding sized
namespace_identity none = "namespace:"
namespace_identity (some ns) = "namespace:" ⧺ sized ns ⧺ ":"

unfoldable pub datastore_key_identity : DatastoreKey → Result String
unfolding namespace_identity
datastore_key_identity key = do
  safe ← normalize_datastore_key key
  rest ← identity_of_parts safe.path
  ok (namespace_identity safe.namespace ⧺ rest)

pub data KeyEncoding : Type 0 where
  active_ts_keys native_keys : KeyEncoding

-- A canonical search scope. The source keeps it as JSON text, which it accepts only if parsing and
-- printing it again gives the same text, so a text and these five parts determine one another.
pub record SearchScope : Type 0 where
  pub project : String
  pub database : Option String
  pub namespace : Option String
  pub encoding : KeyEncoding
  pub cache_scope : Option String

abbrev is_valid_name : String → Bool
is_valid_name s = not (is_empty s) && not (has_null s)

abbrev is_valid_name? : Option String → Bool
is_valid_name? none = true
is_valid_name? (some s) = is_valid_name s

unfoldable pub is_valid_scope : SearchScope → Bool
is_valid_scope s =
    is_valid_name s.project
    && (is_valid_name? s.database && (is_valid_name? s.namespace && is_valid_name? s.cache_scope))

unfoldable pub normalize_datastore_search_scope : Option SearchScope → Result (Option SearchScope)
unfolding is_valid_scope
normalize_datastore_search_scope none = ok none
normalize_datastore_search_scope (some s) = do guard (is_valid_scope s) configuration; ok (some s)

abbrev encoding_text : KeyEncoding → String
encoding_text active_ts_keys = "active-ts"
encoding_text native_keys = "native"

unfoldable pub scope_text : SearchScope → String
unfolding stringify
scope_text s = stringify (
    some s.project
    ∷ s.database
    ∷ s.namespace
    ∷ some (encoding_text s.encoding)
    ∷ s.cache_scope
    ∷ [])

abbrev option_or : Option String → Option String → Option String
option_or (some a) b = some a
option_or none b = b

-- The namespace in which a document lives: the scope decides it, where there is one.
abbrev scoped_namespace : Option SearchScope → Option String → Option String
scoped_namespace none namespace = namespace
scoped_namespace (some s) namespace = s.namespace

unfoldable pub ancestor_key : Option DatastoreKey → Option String → Result DatastoreKey
ancestor_key none namespace = ok (record { path = []; namespace = namespace })
ancestor_key (some key) namespace = do
  safe ← datastore_key_with_namespace key namespace
  ok (record safe { namespace = option_or safe.namespace namespace })

digest_input : Option SearchScope → String → String
digest_input none physical = physical
digest_input (some s) physical = stringify (some (scope_text s) ∷ some physical ∷ [])

-- `createHash('sha256').update(text).digest('base64url')` of node:crypto is the parameter `digest`.
module _ (digest : String → String) where
  -- src/core/search-utils.ts, `datastoreSearchDocumentIdentity`.
  unfoldable pub datastore_search_document_identity :
      String → Option SearchScope → EntityId → Option DatastoreKey → Option String → Result String
  unfolding ancestor_key digest_input
  datastore_search_document_identity name scope id ancestor namespace = do
    safe_scope ← normalize_datastore_search_scope scope
    parent ← ancestor_key ancestor (scoped_namespace safe_scope namespace)
    let document = record parent { path = parent.path ++ record { kind = name; id = id } ∷ [] }
    physical ← datastore_key_identity document
    ok ("datastore:" ⧺ digest (digest_input safe_scope physical))
