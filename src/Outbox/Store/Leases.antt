-- ===== src/Outbox/Store/Leases.antt =====
-- src/core/outbox-store.ts: claiming, renewing and releasing the lease of an event. `isDeepStrictEqual`
-- of node:util is the parameter `deep_equal`; tokens of `randomUUID` are arguments.
use active_ts.Prelude.{
  ℕ, ◌+◌, Bool, true, false, ◌&&◌, ◌||◌, not, Option, none, some, List, [], ◌∷◌, if◌then◌else◌,
}
use active_ts.Prelude.Text.{String, str_eq}
use active_ts.SafeKeys.{text}
use active_ts.EntityKey.{entity_id_key}
use active_ts.DataValue.{DataValue}
use active_ts.Outbox.Event.{OutboxEvent, is_some, sanitize_outbox_event, sanitize_all}
use active_ts.Outbox.Protocol.{
  with_outbox_lease, without_outbox_lease, outbox_expected_version, is_outbox_lease_active,
  is_outbox_lease_current, is_outbox_delivery_available, is_outbox_snapshot_current,
  store_outbox_lease_ttl_ms, text_eq?,
}
use active_ts.Errors.{
  ActiveTsError, Result, ok, throw, not_found, conflict, configuration, validation, guard, ◌>>=◌,
  ◌>>◌,
}
use active_ts.Outbox.Store.Table.{Rows, row_get, row_update}

-- The row of `currentOutboxEvent` behind `get`.
unfoldable pub check_row : String → Option OutboxEvent → Result (Option OutboxEvent)
check_row id none = ok none
check_row id (some row) = do
  event ← sanitize_outbox_event false row
  found ← entity_id_key (text event.id)
  wanted ← entity_id_key (text id)
  guard (str_eq found wanted) validation
  ok (some event)

-- `currentOutboxEvent`
unfoldable pub current_outbox_event : String → Rows → Result (Option OutboxEvent)
current_outbox_event id rows = do row ← row_get id rows; check_row id row

-- A write that lost its row to another call: `isStoreOutboxLeaseClaimConflict`.
abbrev pub is_lost : ActiveTsError → Bool
is_lost conflict = true
is_lost not_found = true
is_lost _ = false

-- `withOutboxLease(event, token, …)` written over the version that was read.
unfoldable pub write_lease : OutboxEvent → String → ℕ → Rows → Result (Rows × OutboxEvent)
write_lease current token expires rows = do
  let leased = with_outbox_lease current token expires
  rows' ← row_update current.id leased (outbox_expected_version current) rows
  ok (rows', leased)

module _ (deep_equal : DataValue → DataValue → Bool) where
  -- The tests of `claimOutboxLease` on the row that it read.
  unfoldable pub is_claimable : OutboxEvent → OutboxEvent → ℕ → Result Bool
  is_claimable current event now =
      if is_some current.dead_lettered_at || not (is_outbox_delivery_available current now)
      then ok false
      else (do
        same ← is_outbox_snapshot_current deep_equal current event
        ok (same && not (is_outbox_lease_active current now)))

  unfoldable pub claim_found :
      OutboxEvent → ℕ → Option OutboxEvent → Result (Option OutboxEvent × Bool)
  claim_found event now none = ok (none, false)
  claim_found event now (some current) =
      is_claimable current event now >>= λ fit. ok (some current, fit)

  -- `claimOutboxLease` up to its write: what is stored, and whether it is to be claimed.
  unfoldable pub claim_read : OutboxEvent → ℕ → Rows → Result (Option OutboxEvent × Bool)
  claim_read event now rows = current_outbox_event event.id rows >>= claim_found event now

  unfoldable pub claim_write :
      Option OutboxEvent × Bool → String → ℕ → Rows → Result (Rows × Option OutboxEvent)
  unfolding write_lease
  claim_write (some current, true) token expires rows =
      write_lease current token expires rows >>= λ r. ok (r.0, some r.1)
  claim_write (current, _) token expires rows = ok (rows, none)

  -- `claimOutboxLease`: the event as claimed, if it was.
  unfoldable pub claim : OutboxEvent → String → ℕ → ℕ → Rows → Result (Rows × Option OutboxEvent)
  unfolding claim_write
  claim event token expires now rows = do
    read ← claim_read event now rows
    claim_write read token expires rows

  -- `isOutboxSnapshotCurrent` and `isOutboxLeaseCurrent` on the row that was read.
  unfoldable pub holds_lease : OutboxEvent → OutboxEvent → String → ℕ → Result Bool
  holds_lease current event token now = do
    same ← is_outbox_snapshot_current deep_equal current event
    ok (same && is_outbox_lease_current current token now)

  unfoldable pub renew_row :
      Option OutboxEvent → OutboxEvent → String → ℕ → Rows → Result (Rows × Option OutboxEvent)
  renew_row none event token now rows = ok (rows, none)
  renew_row (some current) event token now rows = holds_lease current event token now >>= λ held.
      if held
      then (write_lease current token (now + store_outbox_lease_ttl_ms) rows >>= λ r.
          ok (r.0, some r.1))
      else ok (rows, none)

  -- A call that lost its row has renewed nothing.
  unfoldable pub or_lost : {A : Type 0} → Rows → Result (Rows × Option A) → Result (Rows × Option A)
  or_lost rows (ok r) = ok r
  or_lost rows (throw e) = if is_lost e then ok (rows, none) else throw e

  -- `renewLease`: the event as renewed, if its lease was current.
  unfoldable pub renew_lease : OutboxEvent → ℕ → Rows → Result (Rows × Option OutboxEvent)
  unfolding renew_row or_lost
  renew_lease event now rows = do
    normalized ← sanitize_outbox_event false event
    elim normalized.lease_token [
      | none ↦ throw configuration
      | some token ↦ or_lost rows (
          current_outbox_event normalized.id rows >>= λ found.
          renew_row found normalized token now rows)
    ]

-- A release that lost its row is passed over.
unfoldable pub or_passed : Rows → Result Rows → Result Rows
or_passed rows (ok rows') = ok rows'
or_passed rows (throw e) = if is_lost e then ok rows else throw e

-- `release`, of one event with a token.
unfoldable pub release_row : Option OutboxEvent → OutboxEvent → String → Rows → Result Rows
unfolding or_passed
release_row none event token rows = ok rows
release_row (some current) event token rows =
    if text_eq? current.lease_token (some token)
    then or_passed rows
        (row_update event.id (without_outbox_lease current) (outbox_expected_version current) rows)
    else ok rows

unfoldable pub release_one : OutboxEvent → Rows → Result Rows
release_one event rows = elim event.lease_token [
  | none ↦ ok rows
  | some token ↦ current_outbox_event event.id rows >>= λ found. release_row found event token rows
]

-- The loop of `release`. The rows that it leaves behind an error are those of the calls before.
unfoldable pub release_all : List OutboxEvent → Rows → Rows × Result (Unit {0})
release_all [] rows = (rows, ok tt)
release_all (e ∷ es) rows = elim (release_one e rows) [
  | ok rows' ↦ release_all es rows'
  | throw x ↦ (rows, throw x)
]

-- `release`
unfoldable pub release : List OutboxEvent → Rows → Rows × Result (Unit {0})
release events rows = elim (sanitize_all events) [
  | throw x ↦ (rows, throw x)
  | ok normalized ↦ release_all normalized rows
]
