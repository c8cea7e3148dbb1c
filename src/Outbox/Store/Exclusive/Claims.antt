-- ===== src/Outbox/Store/Exclusive/Claims.antt =====
-- src/core/outbox-store.ts: a claim is exclusive until its lease expires.
use active_ts.Prelude.{
  ℕ, ◌<◌, ◌≡◌, ◌∙◌, ap, sym, Bool, true, false, some, List, [], ◌∷◌, All, arith,
}
use active_ts.Prelude.Text.{String}
use active_ts.Prelude.Assoc.{lookup}
use active_ts.SafeKeys.{text}
use active_ts.EntityKey.{entity_id_key}
use active_ts.DataValue.{DataValue}
use active_ts.Outbox.Event.{OutboxEvent}
use active_ts.Outbox.Protocol.{is_outbox_lease_active, lease_active, with_outbox_lease}
use active_ts.Errors.{ok, >>=-eq-ok}
use active_ts.Outbox.Store.Table.{Rows}
use active_ts.Outbox.Store.Leases.{current_outbox_event, claim_read, claim}
use active_ts.Outbox.Store.Protects.{claim_read-true}
use active_ts.Outbox.Store.Exclusive.{Call, presents, after_all}
use active_ts.Outbox.Store.Exclusive.Lasting.{
  IsOutside, after_all-lookup, claim_write-some, write_lease-lookup,
}

-- The call comes before the time, and does not present the token.
abbrev pub IsEarly : String → ℕ → ℕ × Call → Type 0
IsEarly token expires (now, call) = (now < expires) × (presents token call ≡ false)

active_before :
    (row : OutboxEvent) (token : String) (expires now : ℕ)
    → row.lease_token ≡ some token
    → row.lease_expires_at ≡ some expires
    → now < expires
    → is_outbox_lease_active row now ≡ true
unfolding is_outbox_lease_active lease_active
active_before row token expires now has_token until before = rw (has_token, until) (ground arith)

IsOutside-IsEarly :
    (row : OutboxEvent) (token : String) (expires : ℕ) (calls : List (ℕ × Call))
    → row.lease_token ≡ some token
    → row.lease_expires_at ≡ some expires
    → All (IsEarly token expires) calls
    → All (IsOutside token row) calls
IsOutside-IsEarly row token expires [] p q early = tt
IsOutside-IsEarly row token expires ((now, call) ∷ calls) p q early = (
  (active_before row token expires now p q early.0.0, early.0.1),
  IsOutside-IsEarly row token expires calls p q early.1,
)

-- When a claim is granted, the event that is stored had no active lease. From then on until the lease
-- expires, whatever sequence of calls follows, of any workers, returning or throwing, as long as none
-- presents the token of the claim, the row of the event is the claimed event, with its data cloned.
pub claim-after_all :
    (deep_equal : DataValue → DataValue → Bool) (event : OutboxEvent) (token : String)
    (expires now : ℕ) (rows : Rows) (calls : List (ℕ × Call)) {rows' : Rows} {claimed : OutboxEvent}
    → claim deep_equal event token expires now rows ≡ ok (rows', some claimed)
    → All (IsEarly token expires) calls
    → (key : String) × (current : OutboxEvent) × (row : OutboxEvent) × (entity_id_key
          (text event.id)
        ≡ ok key)
      × (current_outbox_event event.id rows ≡ ok (some current))
      × (is_outbox_lease_active current now ≡ false)
      × (claimed ≡ with_outbox_lease current token expires)
      × (row ≡ record claimed { payload = row.payload })
      × (lookup key (after_all deep_equal calls rows') ≡ some row)
unfolding claim with_outbox_lease
claim-after_all deep_equal event token expires now rows calls {rows'} {claimed} h early =
    let (read, tested, h₁) = >>=-eq-ok (claim_read deep_equal event now rows) _ h in
    let (current, fit, wrote) =
      claim_write-some deep_equal read token expires rows {rows' = rows'} {claimed = claimed} h₁ in
    let (at, inactive) =
      claim_read-true deep_equal event now rows {current = current} (tested ∙ ap ok fit) in
    let (key, row, has_key, stored, shape, claimed_is) =
      write_lease-lookup event.id current token expires rows {rows' = rows'} {leased = claimed} at
        wrote in
    let has_token : row.lease_token ≡ some token = ap (λ (e : OutboxEvent). e.lease_token) shape in
    let until : row.lease_expires_at ≡ some expires =
      ap (λ (e : OutboxEvent). e.lease_expires_at) shape in
    (
      key,
      current,
      row,
      has_key,
      at,
      inactive,
      claimed_is,
      shape ∙ ap (λ (e : OutboxEvent). record e { payload = row.payload }) (sym claimed_is),
      after_all-lookup deep_equal key token row calls rows' stored has_token
          (IsOutside-IsEarly row token expires calls has_token until early),
    )
