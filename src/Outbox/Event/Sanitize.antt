-- ===== src/Outbox/Event/Sanitize.antt =====
-- src/core/outbox-validation.ts: a sanitized event is the event itself with its data cloned.
use active_ts.Prelude.{◌≡◌, ◌∙◌, ap, sym, ◌||◌, not, Bool, true, none, some, [], ◌∷◌, arith}
use active_ts.SafeKeys.{
  assert_safe_cache_key, assert_safe_schema_identifier, assert_safe_entity_id,
  assert_safe_physical_identifier_length,
}
use active_ts.DataValue.{
  DataValue, clone_safe_data, clone_safe_data_idem, is_undefined-clone_safe_data,
}
use active_ts.DatastoreKey.{
  normalize_datastore_key, normalize_datastore_search_scope, normalize_parts,
  normalize_datastore_key_part, normalize_datastore_namespace,
}
use active_ts.Errors.{Result, ok, ◌>>=◌, >>=-eq-ok, bind_guard, ok-injective}
use active_ts.Outbox.Event.{
  OutboxEvent, optional, is_some, sanitize_outbox_event, check_entity_id, check_project_id,
  check_count, has_coherent_lease, has_coherent_data,
}

-- A check that returns its argument, when it returns.
abbrev Keeps {ℓ} : {A : Type ℓ} → (A → Result A) → Type ℓ
Keeps {A} check = (a b : A) → check a ≡ ok b → b ≡ a

bind_kept {ℓ κ} :
    {A : Type ℓ} {B : Type κ} (check : A → Result A) (f : A → Result B) (a : A) {c : B}
    → Keeps check
    → (check a >>= f) ≡ ok c
    → (check a ≡ ok a) × (f a ≡ ok c)
bind_kept check f a keeps h =
    let (b, e, r) = >>=-eq-ok (check a) f h in
    (e ∙ ap ok (keeps a b e), ap f (sym (keeps a b e)) ∙ r)

optional-Keeps {ℓ} : {A : Type ℓ} (check : A → Result A) → Keeps check → Keeps (optional check)
optional-Keeps check keeps none b h = ground arith
optional-Keeps check keeps (some a) b h =
    let (e, r) = bind_kept check (λ x. ok (some x)) a keeps h in ground arith

cache_key-Keeps : Keeps assert_safe_cache_key
unfolding assert_safe_cache_key
cache_key-Keeps a b h = ground arith

identifier-Keeps : Keeps assert_safe_schema_identifier
unfolding assert_safe_schema_identifier
identifier-Keeps a b h = ground arith

length-Keeps : Keeps assert_safe_physical_identifier_length
unfolding assert_safe_physical_identifier_length
length-Keeps a b h = ground arith

scope-Keeps : Keeps normalize_datastore_search_scope
unfolding normalize_datastore_search_scope
scope-Keeps none b h = ground arith
scope-Keeps (some s) b h = ground arith

entity_id-Keeps : Keeps check_entity_id
unfolding check_entity_id assert_safe_entity_id
entity_id-Keeps a b h = ground arith

project_id-Keeps : Keeps check_project_id
unfolding check_project_id
project_id-Keeps a b h = ground arith

count-Keeps : Keeps check_count
unfolding check_count
count-Keeps a b h = ground arith

part-Keeps : Keeps normalize_datastore_key_part
unfolding normalize_datastore_key_part assert_safe_entity_id
part-Keeps a b h =
    let (e, r) = bind_kept assert_safe_schema_identifier _ a.kind identifier-Keeps h in
    let (e', r') = bind_kept assert_safe_physical_identifier_length _ a.kind length-Keeps r in
    ground arith

parts-Keeps : Keeps normalize_parts
unfolding normalize_parts
parts-Keeps [] b h = ground arith
parts-Keeps (p ∷ ps) b h =
    let (e, r) = bind_kept normalize_datastore_key_part _ p part-Keeps h in
    let (qs, e', r') = >>=-eq-ok (normalize_parts ps) _ r in ground (arith, parts-Keeps ps qs e')

namespace-Keeps : Keeps normalize_datastore_namespace
unfolding normalize_datastore_namespace
namespace-Keeps none b h = ground arith
namespace-Keeps (some s) b h = ground arith

-- `normalizeDatastoreKey` returns an equal key.
pub key-Keeps : Keeps normalize_datastore_key
unfolding normalize_datastore_key
key-Keeps a b h =
    let (e₁, r₁) = bind_guard _ _ _ h in
    let (e₂, r₂) = bind_kept normalize_parts _ a.path parts-Keeps r₁ in
    let (e₃, r₃) = bind_kept normalize_datastore_namespace _ a.namespace namespace-Keeps r₂ in
    sym (ok-injective r₃)

-- What has passed when a sanitized event comes out.
record Passed (require_model_id : Bool) (e : OutboxEvent) : Type 0 where
  id_ok : assert_safe_cache_key e.id ≡ ok e.id
  model_ok : assert_safe_schema_identifier e.model ≡ ok e.model
  scope_ok : normalize_datastore_search_scope e.scope ≡ ok e.scope
  model_id_there : (not require_model_id || is_some e.model_id) ≡ true
  model_id_ok : optional check_entity_id e.model_id ≡ ok e.model_id
  identity_ok : optional assert_safe_cache_key e.model_identity ≡ ok e.model_identity
  project_ok : optional check_project_id e.project_id ≡ ok e.project_id
  ancestor_ok : optional normalize_datastore_key e.ancestor ≡ ok e.ancestor
  data_coherent : has_coherent_data e ≡ true
  version_ok : optional check_count e.version ≡ ok e.version
  attempts_ok : optional check_count e.delivery_attempts ≡ ok e.delivery_attempts
  lease_coherent : has_coherent_lease e ≡ true
  sequence_ok : optional assert_safe_cache_key e.sequence ≡ ok e.sequence
  token_ok : optional assert_safe_cache_key e.lease_token ≡ ok e.lease_token
  error_ok : optional assert_safe_cache_key e.last_delivery_error ≡ ok e.last_delivery_error

Passed-sanitize :
    (r : Bool) (e : OutboxEvent) {s : OutboxEvent}
    → sanitize_outbox_event r e ≡ ok s
    → Passed r e
      × ((c : DataValue) × (clone_safe_data e.payload ≡ ok c) × (s ≡ record e { payload = c }))
unfolding sanitize_outbox_event
Passed-sanitize r e {s} h =
    let cache_keys = optional-Keeps assert_safe_cache_key cache_key-Keeps in
    let counts = optional-Keeps check_count count-Keeps in
    let (p₁, r₁) = bind_kept assert_safe_cache_key _ e.id cache_key-Keeps h in
    let (p₂, r₂) = bind_kept assert_safe_schema_identifier _ e.model identifier-Keeps r₁ in
    let (p₃, r₃) = bind_kept normalize_datastore_search_scope _ e.scope scope-Keeps r₂ in
    let (p₄, r₄) = bind_guard _ _ _ r₃ in
    let (p₅, r₅) =
      bind_kept (optional check_entity_id) _ e.model_id
        (optional-Keeps check_entity_id entity_id-Keeps) r₄ in
    let (p₆, r₆) = bind_kept (optional assert_safe_cache_key) _ e.model_identity cache_keys r₅ in
    let (p₇, r₇) =
      bind_kept (optional check_project_id) _ e.project_id
        (optional-Keeps check_project_id project_id-Keeps) r₆ in
    let (p₈, r₈) =
      bind_kept (optional normalize_datastore_key) _ e.ancestor
        (optional-Keeps normalize_datastore_key key-Keeps) r₇ in
    let (p₉, r₉) = bind_guard _ _ _ r₈ in
    let (q₁, s₁) = bind_kept (optional check_count) _ e.version counts r₉ in
    let (q₂, s₂) = bind_kept (optional check_count) _ e.delivery_attempts counts s₁ in
    let (q₃, s₃) = bind_guard _ _ _ s₂ in
    let (c, cloned, s₄) = >>=-eq-ok (clone_safe_data e.payload) _ s₃ in
    let (q₄, s₅) = bind_kept (optional assert_safe_cache_key) _ e.sequence cache_keys s₄ in
    let (q₅, s₆) = bind_kept (optional assert_safe_cache_key) _ e.lease_token cache_keys s₅ in
    let (q₆, s₇) =
      bind_kept (optional assert_safe_cache_key) _ e.last_delivery_error cache_keys s₆ in
    (
      record {
        id_ok = p₁;
        model_ok = p₂;
        scope_ok = p₃;
        model_id_there = p₄;
        model_id_ok = p₅;
        identity_ok = p₆;
        project_ok = p₇;
        ancestor_ok = p₈;
        data_coherent = p₉;
        version_ok = q₁;
        attempts_ok = q₂;
        lease_coherent = q₃;
        sequence_ok = q₄;
        token_ok = q₅;
        error_ok = q₆;
      },
      (c, cloned, ground arith),
    )

sanitize-Passed :
    (r : Bool) (e : OutboxEvent) {c : DataValue}
    → Passed r e
    → clone_safe_data e.payload ≡ ok c
    → sanitize_outbox_event r e ≡ ok (record e { payload = c })
unfolding sanitize_outbox_event
sanitize-Passed r e p h = rw (
  p.id_ok, p.model_ok, p.scope_ok, p.model_id_there, p.model_id_ok, p.identity_ok, p.project_ok,
  p.ancestor_ok, p.data_coherent, p.version_ok, p.attempts_ok, p.lease_coherent, h, p.sequence_ok,
  p.token_ok, p.error_ok,
)

Passed-clone :
    (r : Bool) (e : OutboxEvent) {c : DataValue}
    → Passed r e
    → clone_safe_data e.payload ≡ ok c
    → Passed r (record e { payload = c })
Passed-clone r e {c} p h = record {
  id_ok = p.id_ok;
  model_ok = p.model_ok;
  scope_ok = p.scope_ok;
  model_id_there = p.model_id_there;
  model_id_ok = p.model_id_ok;
  identity_ok = p.identity_ok;
  project_ok = p.project_ok;
  ancestor_ok = p.ancestor_ok;
  data_coherent = rw (is_undefined-clone_safe_data e.payload {c = c} h) p.data_coherent;
  version_ok = p.version_ok;
  attempts_ok = p.attempts_ok;
  lease_coherent = p.lease_coherent;
  sequence_ok = p.sequence_ok;
  token_ok = p.token_ok;
  error_ok = p.error_ok;
}

-- Sanitizing keeps every field but the data, which is cloned, and a sanitized event passes again
-- unchanged.
pub sanitize_outbox_event_idem :
    (require_model_id : Bool) (e : OutboxEvent) {s : OutboxEvent}
    → sanitize_outbox_event require_model_id e ≡ ok s
    → (s ≡ record e { payload = s.payload })
      × (clone_safe_data e.payload ≡ ok s.payload)
      × (sanitize_outbox_event require_model_id s ≡ ok s)
sanitize_outbox_event_idem r e {s} h =
    let (p, (c, cloned, same)) = Passed-sanitize r e h in
    let again =
      sanitize-Passed r (record e { payload = c }) (Passed-clone r e p cloned)
        (clone_safe_data_idem e.payload cloned) in
    (ground arith, ground arith, rw same again)
