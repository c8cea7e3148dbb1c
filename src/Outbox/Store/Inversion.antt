-- ===== src/Outbox/Store/Inversion.antt =====
-- src/core/outbox-store.ts: what has held when a call to the store went through.
use active_ts.Prelude.{
  &&-eq-true, ℕ, ◌≡◌, refl, ◌∙◌, ap, sym, Bool, true, false, ◌&&◌, Option, none, some, arith,
}
use active_ts.Prelude.Text.{String, str_eq, str_eq_iff}
use active_ts.Prelude.Assoc.{lookup, insert}
use active_ts.SafeKeys.{text}
use active_ts.EntityKey.{entity_id_key}
use active_ts.DataValue.{DataValue}
use active_ts.Outbox.Event.{OutboxEvent, sanitize_outbox_event}
use active_ts.Outbox.Protocol.{
  is_outbox_snapshot_current, same_fields, same_write, same_lease, same_delivery, and_then,
  text_eq?,
}
use active_ts.Errors.{Result, ok, conflict, validation, >>=-eq-ok, bind_guard, ok-injective}
use active_ts.Outbox.Store.Table.{
  Rows, portable_row, version_matches, row_get, row_update, found_row,
}
use active_ts.Outbox.Store.Leases.{check_row, current_outbox_event}

same_fields-token :
    (a b : OutboxEvent) → same_fields a b ≡ true → text_eq? a.lease_token b.lease_token ≡ true
unfolding same_fields same_lease
same_fields-token a b h =
    let (_, rest) = &&-eq-true (same_write a b) (same_lease a b && same_delivery a b) h in
    let (lease, _) = &&-eq-true (same_lease a b) (same_delivery a b) rest in ground (arith, lease)

and_then-left : (b : Bool) (r : Result Bool) → and_then (ok b) r ≡ ok true → b ≡ true
and_then-left true r h = refl
and_then-left false r h = cc

-- A current snapshot has the token of the event that is stored.
pub snapshot-token :
    (deep_equal : DataValue → DataValue → Bool) (a b : OutboxEvent)
    → is_outbox_snapshot_current deep_equal a b ≡ ok true
    → text_eq? a.lease_token b.lease_token ≡ true
unfolding is_outbox_snapshot_current
snapshot-token deep_equal a b h = same_fields-token a b (and_then-left (same_fields a b) _ h)

-- What `currentOutboxEvent` returned is the row of the key, sanitized.
pub record IsCurrent (id key : String) (rows : Rows) (current row : OutboxEvent) : Type 0 where
  pub key_of_id : entity_id_key (text id) ≡ ok key
  pub key_of_current : entity_id_key (text current.id) ≡ ok key
  pub stored : lookup key rows ≡ some row
  pub sanitized : sanitize_outbox_event false row ≡ ok current

found_row-ok : (o : Option OutboxEvent) {row : OutboxEvent} → found_row o ≡ ok row → o ≡ some row
found_row-ok none h = cc
found_row-ok (some row) h = ap some (ok-injective h)

pub some-injective {ℓ} : {A : Type ℓ} {a b : A} → some a ≡ some b → a ≡ b
some-injective h = cc

-- A row that passes is the sanitized one, and its id has the key that was asked for.
check_row-ok :
    (id : String) (row : OutboxEvent) {current : OutboxEvent}
    → check_row id (some row) ≡ ok (some current)
    → (sanitize_outbox_event false row ≡ ok current)
      × (entity_id_key (text current.id) ≡ entity_id_key (text id))
unfolding check_row
check_row-ok id row {current} h =
    let (event, sane, h₁) = >>=-eq-ok (sanitize_outbox_event false row) _ h in
    let (found, has_key, h₂) = >>=-eq-ok (entity_id_key (text event.id)) _ h₁ in
    let (wanted, wants_key, h₃) = >>=-eq-ok (entity_id_key (text id)) _ h₂ in
    let (same, h₄) = bind_guard (str_eq found wanted) validation _ h₃ in
    let event_is : event ≡ current = some-injective (ok-injective h₄) in
    (
      sane ∙ ap ok event_is,
      ap (λ (e : OutboxEvent). entity_id_key (text e.id)) (sym event_is)
          ∙ (has_key ∙ (ap ok ((str_eq_iff found wanted).0 same) ∙ sym wants_key)),
    )

check_row-found :
    (id : String) (o : Option OutboxEvent) {current : OutboxEvent}
    → check_row id o ≡ ok (some current)
    → (row : OutboxEvent) × (o ≡ some row)
unfolding check_row
check_row-found id none h = cc
check_row-found id (some row) h = (row, refl)

pub current_outbox_event-IsCurrent :
    (id : String) (rows : Rows) {current : OutboxEvent}
    → current_outbox_event id rows ≡ ok (some current)
    → (key : String) × (row : OutboxEvent) × IsCurrent id key rows current row
unfolding current_outbox_event row_get
current_outbox_event-IsCurrent id rows {current} h =
    let (found, got, h₁) = >>=-eq-ok (row_get id rows) (check_row id) h in
    let (key, at, h₂) = >>=-eq-ok (entity_id_key (text id)) _ got in
    let (row, something) = check_row-found id found h₁ in
    let (sane, same) = check_row-ok id row (rw something at h₁) in
    (
      key,
      row,
      record {
        key_of_id = at;
        key_of_current = same ∙ at;
        stored = ok-injective h₂ ∙ something;
        sanitized = sane;
      },
    )

-- What has held when a row was updated.
pub record IsUpdate (id key : String) (e : OutboxEvent) (expected : Option ℕ) (rows rows' : Rows)
    (row clean : OutboxEvent) : Type 0 where
  pub key_of_id : entity_id_key (text id) ≡ ok key
  pub cloned : portable_row e ≡ ok clean
  pub stored : lookup key rows ≡ some row
  pub version : version_matches row expected ≡ true
  pub written : rows' ≡ insert key clean rows

pub row_update-IsUpdate :
    (id : String) (e : OutboxEvent) (expected : Option ℕ) (rows : Rows) {rows' : Rows}
    → row_update id e expected rows ≡ ok rows'
    → (key : String) × (row : OutboxEvent) × (clean : OutboxEvent) × IsUpdate id key e expected rows
        rows' row clean
unfolding row_update
row_update-IsUpdate id e expected rows {rows'} h =
    let (key, at, h₁) = >>=-eq-ok (entity_id_key (text id)) _ h in
    let (clean, cloned, h₂) = >>=-eq-ok (portable_row e) _ h₁ in
    let (_, h₃) = bind_guard (str_eq clean.id id) validation _ h₂ in
    let (row, found, h₄) = >>=-eq-ok (found_row (lookup key rows)) _ h₃ in
    let (version, h₅) = bind_guard (version_matches row expected) conflict _ h₄ in
    (
      key,
      row,
      clean,
      record {
        key_of_id = at;
        cloned = cloned;
        stored = found_row-ok (lookup key rows) found;
        version = version;
        written = ok-injective (sym h₅);
      },
    )
