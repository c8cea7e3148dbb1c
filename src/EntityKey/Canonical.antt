-- ===== src/EntityKey/Canonical.antt =====
-- src/core/query-utils.ts: the ids that are accepted and the keys that are canonical are the same things.
use active_ts.Prelude.{◌≡◌, refl, ◌∙◌, sym, Bool, true, false, inl, inr}
use mathlib.Core.Equiv.{IsEquiv, iso_to_equiv}
use mathlib.Core.HLevel.{Σ_prop_path}
use mathlib.Core.Bool.{Bool-set}
use active_ts.Prelude.Text.{String, str_eq, str_eq_iff}
use active_ts.SafeKeys.{EntityId, is_safe_entity_id, assert_safe_entity_id}
use active_ts.Errors.{
  Result, ok, throw, validation, Result-cases, ok-injective, >>=-eq-ok, bind_guard,
}
use active_ts.EntityKey.Defs.{
  encode_entity_id, entity_id_key, check_canonical, entity_id_from_key,
  entity_id_from_canonical_key,
}
use active_ts.EntityKey.RoundTrip.{entity_id_from_key-entity_id_key, key_of_safe}

abbrev pub is_ok {ℓ} : {A : Type ℓ} → Result A → Bool
is_ok (ok a) = true
is_ok (throw e) = false

-- What `assertSafeEntityId` accepts, and what `entityIdFromCanonicalKey` does.
abbrev pub SafeId : Type 0
SafeId = (id : EntityId) × (is_safe_entity_id id ≡ true)

abbrev pub CanonicalKey : Type 0
CanonicalKey = (key : String) × (is_ok (entity_id_from_canonical_key key) ≡ true)

encode-canonical :
    (id : EntityId)
    → is_safe_entity_id id ≡ true
    → entity_id_from_canonical_key (encode_entity_id id) ≡ ok id
unfolding entity_id_key assert_safe_entity_id
encode-canonical id safe = (entity_id_from_key-entity_id_key id (rw safe refl)).1

-- `entityIdKey` at an id that is accepted.
pub canonical_key : SafeId → CanonicalKey
canonical_key (id, safe) = (encode_entity_id id, rw (encode-canonical id safe) refl)

decoded :
    (key : String)
    → is_ok (entity_id_from_canonical_key key) ≡ true
    → (id : EntityId) × (entity_id_from_canonical_key key ≡ ok id)
decoded key canonical = elim (Result-cases (entity_id_from_canonical_key key)) [
  | inl there ↦ there
  | inr (e, failing) ↦ absurd (cc (rw failing at canonical))
]

-- What a canonical key decodes to is accepted, and has the key.
canonical-encode :
    (key : String) {id : EntityId}
    → entity_id_from_canonical_key key ≡ ok id
    → (is_safe_entity_id id ≡ true) × (encode_entity_id id ≡ key)
unfolding entity_id_from_canonical_key check_canonical
canonical-encode key {id} h =
    let (found, _, h₁) = >>=-eq-ok (entity_id_from_key key) _ h in
    let (encoded, keyed, h₂) = >>=-eq-ok (entity_id_key found) _ h₁ in
    let (same, h₃) = bind_guard (str_eq encoded key) validation (ok found) h₂ in
    let (safe, is) = key_of_safe found keyed in
    (rw (ok-injective h₃) at safe, rw (ok-injective h₃) at (is ∙ (str_eq_iff encoded key).0 same))

safe_id : CanonicalKey → SafeId
safe_id (key, canonical) = let (id, h) = decoded key canonical in (id, (canonical-encode key h).0)

canonical_key-safe_id : (k : CanonicalKey) → canonical_key (safe_id k) ≡ k
unfolding canonical_key safe_id
canonical_key-safe_id (key, canonical) =
    Σ_prop_path (λ k. Bool-set _ _) (canonical-encode key (decoded key canonical).1).1

safe_id-canonical_key : (i : SafeId) → safe_id (canonical_key i) ≡ i
unfolding canonical_key safe_id
safe_id-canonical_key (id, safe) =
    Σ_prop_path (λ k. Bool-set _ _)
      (ok-injective (
        sym (decoded (encode_entity_id id) (canonical_key (id, safe)).1).1
        ∙ encode-canonical id safe))

-- Taking an accepted id to its key is an equivalence with the keys that decode: each of these is the key of
-- one accepted id and of no other.
pub canonical_key-IsEquiv : IsEquiv canonical_key
unfolding canonical_key
canonical_key-IsEquiv =
    (iso_to_equiv (record {
      fun = canonical_key;
      inv = safe_id;
      rinv = canonical_key-safe_id;
      linv = safe_id-canonical_key;
    })).1
