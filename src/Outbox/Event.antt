-- ===== src/Outbox/Event.antt =====
-- src/core/outbox-types.ts, and the checks of src/core/outbox-validation.ts on events and failures.
-- A timestamp is its time in milliseconds: the source accepts a text only if it is the canonical ISO
-- form of its own time. A field that is absent is `none`, and `data` that is absent is `undefined`.
pub mod Sanitize
use active_ts.Prelude.{
  ℕ, ◌^◌, Bool, true, false, ◌&&◌, ◌||◌, not, Option, none, some, List, [], ◌∷◌, ltb, leb,
  if◌then◌else◌,
}
use active_ts.Prelude.Text.{String, is_empty, has_null}
use active_ts.SafeKeys.{
  EntityId, is_safe_cache_key, assert_safe_cache_key, assert_safe_schema_identifier,
  assert_safe_entity_id,
}
use active_ts.DataValue.{DataValue, is_undefined, clone_safe_data}
use active_ts.DatastoreKey.{
  DatastoreKey, SearchScope, normalize_datastore_key, normalize_datastore_search_scope,
}
use active_ts.Errors.{Result, ok, throw, configuration, validation, guard, ◌>>=◌, ◌>>◌}

pub data Operation : Type 0 where
  create update delete : Operation

pub data DataEncoding : Type 0 where
  public_data stored_data : DataEncoding

pub record OutboxEvent : Type 0 where
  pub id : String
  pub model : String
  pub model_id : Option EntityId
  pub model_identity : Option String
  pub ancestor : Option DatastoreKey
  pub project_id : Option String
  pub scope : Option SearchScope
  pub operation : Operation
  pub payload : DataValue
  pub data_encoding : Option DataEncoding
  pub reconcile_from_store : Option Bool
  pub created_at : ℕ
  pub sequence : Option String
  pub version : Option ℕ
  pub lease_token : Option String
  pub lease_expires_at : Option ℕ
  pub delivery_attempts : Option ℕ
  pub available_at : Option ℕ
  pub dead_lettered_at : Option ℕ
  pub last_delivery_error : Option String

pub record OutboxEventIdentity : Type 0 where
  pub id : Option String
  pub model : Option String
  pub model_id : Option EntityId
  pub model_identity : Option String
  pub lease_token : Option String
  pub lease_expires_at : Option ℕ

pub record OutboxDeliveryFailure : Type 0 where
  pub identity : OutboxEventIdentity
  pub event : Option OutboxEvent
  pub attempt : ℕ
  pub max_attempts : ℕ
  pub failed_at : ℕ
  pub retry_at : Option ℕ
  pub error : String

-- A check of a field that may be absent.
abbrev pub optional {ℓ} : {A : Type ℓ} → (A → Result A) → Option A → Result (Option A)
optional check none = ok none
optional check (some a) = check a >>= λ b. ok (some b)

abbrev pub is_some {ℓ} : {A : Type ℓ} → Option A → Bool
is_some none = false
is_some (some a) = true

unfoldable pub check_entity_id : EntityId → Result EntityId
check_entity_id id = do assert_safe_entity_id id; ok id

unfoldable pub check_project_id : String → Result String
check_project_id s = do guard (not (is_empty s) && not (has_null s)) configuration; ok s

-- Non-negative safe integers; a natural number is none of the others.
unfoldable pub check_count : ℕ → Result ℕ
check_count n = do guard (ltb n (2 ^ 53)) configuration; ok n

-- The lease is a token with an expiry, and a dead letter has none.
abbrev pub has_coherent_lease : OutboxEvent → Bool
has_coherent_lease e =
    (if is_some e.lease_token then is_some e.lease_expires_at else not (is_some e.lease_expires_at))
    && not (is_some e.dead_lettered_at && is_some e.lease_token)

-- An encoding is declared only with data.
abbrev pub has_coherent_data : OutboxEvent → Bool
has_coherent_data e = not (is_undefined e.payload && is_some e.data_encoding)

-- `sanitizeOutboxEvent`, for an event whose fields have their types.
unfoldable pub sanitize_outbox_event : Bool → OutboxEvent → Result OutboxEvent
unfolding check_entity_id check_project_id check_count
sanitize_outbox_event require_model_id e = do
  id ← assert_safe_cache_key e.id
  model ← assert_safe_schema_identifier e.model
  scope ← normalize_datastore_search_scope e.scope
  guard (not require_model_id || is_some e.model_id) configuration
  model_id ← optional check_entity_id e.model_id
  model_identity ← optional assert_safe_cache_key e.model_identity
  project_id ← optional check_project_id e.project_id
  ancestor ← optional normalize_datastore_key e.ancestor
  guard (has_coherent_data e) configuration
  version ← optional check_count e.version
  delivery_attempts ← optional check_count e.delivery_attempts
  guard (has_coherent_lease e) configuration
  payload ← clone_safe_data e.payload
  sequence ← optional assert_safe_cache_key e.sequence
  lease_token ← optional assert_safe_cache_key e.lease_token
  last_delivery_error ← optional assert_safe_cache_key e.last_delivery_error
  ok (record e {
    id = id;
    model = model;
    scope = scope;
    model_id = model_id;
    model_identity = model_identity;
    project_id = project_id;
    ancestor = ancestor;
    version = version;
    delivery_attempts = delivery_attempts;
    payload = payload;
    sequence = sequence;
    lease_token = lease_token;
    last_delivery_error = last_delivery_error;
  })

-- `sanitizeOutboxEventBatch`
unfoldable pub sanitize_all : List OutboxEvent → Result (List OutboxEvent)
sanitize_all [] = ok []
sanitize_all (e ∷ es) = do
  safe ← sanitize_outbox_event false e
  rest ← sanitize_all es
  ok (safe ∷ rest)

-- `sanitizeOutboxEventIdentity`
unfoldable pub sanitize_outbox_event_identity : OutboxEventIdentity → Result OutboxEventIdentity
unfolding check_entity_id
sanitize_outbox_event_identity i = do
  id ← optional assert_safe_cache_key i.id
  model ← optional assert_safe_schema_identifier i.model
  model_id ← optional check_entity_id i.model_id
  model_identity ← optional assert_safe_cache_key i.model_identity
  lease_token ← optional assert_safe_cache_key i.lease_token
  ok (record i {
    id = id;
    model = model;
    model_id = model_id;
    model_identity = model_identity;
    lease_token = lease_token;
  })

-- `assertPositiveSafeInteger`
unfoldable pub check_positive : ℕ → Result ℕ
check_positive n = do guard (ltb 0 n && ltb n (2 ^ 53)) configuration; ok n

-- `sanitizeOutboxDeliveryFailure`
unfoldable pub sanitize_outbox_delivery_failure :
    Bool → OutboxDeliveryFailure → Result OutboxDeliveryFailure
unfolding check_positive
sanitize_outbox_delivery_failure require_event f = do
  guard (not require_event || is_some f.event) configuration
  event ← optional (sanitize_outbox_event false) f.event
  identity ← sanitize_outbox_event_identity f.identity
  attempt ← check_positive f.attempt
  max_attempts ← check_positive f.max_attempts
  guard (leb attempt max_attempts) configuration
  error ← assert_safe_cache_key f.error
  ok (record f {
    event = event;
    identity = identity;
    attempt = attempt;
    max_attempts = max_attempts;
    error = error;
  })

-- `sanitizeOutboxDeliveryFailureBatch`
unfoldable pub sanitize_failures :
    Bool → List OutboxDeliveryFailure → Result (List OutboxDeliveryFailure)
sanitize_failures require_event [] = ok []
sanitize_failures require_event (f ∷ fs) = do
  safe ← sanitize_outbox_delivery_failure require_event f
  rest ← sanitize_failures require_event fs
  ok (safe ∷ rest)
