-- ===== src/Outbox/Store/Batches.antt =====
-- src/core/outbox-store.ts: appending events, settling failures and acknowledging deliveries. The store
-- has transactions, so a batch that throws leaves the rows as they were.
use active_ts.Prelude.{ℕ, Bool, true, false, Option, none, some, List, [], ◌∷◌, if◌then◌else◌}
use active_ts.Prelude.Text.{String}
use active_ts.DataValue.{DataValue}
use active_ts.Outbox.Event.{
  OutboxEvent, OutboxDeliveryFailure, is_some, sanitize_outbox_event, sanitize_all,
  sanitize_failures,
}
use active_ts.Outbox.Protocol.{
  outbox_expected_version, is_outbox_lease_current, is_outbox_snapshot_current, outbox_retry_event,
  outbox_dead_letter_event,
}
use active_ts.Errors.{Result, ok, throw, configuration, ◌>>=◌}
use active_ts.Outbox.Store.Table.{Rows, row_create, row_update, row_delete}
use active_ts.Outbox.Store.Leases.{current_outbox_event, is_lost}

-- `withStoreOutboxSequence`; `sequence` is `nextStoreOutboxSequence()`.
unfoldable pub with_store_outbox_sequence : String → OutboxEvent → OutboxEvent
with_store_outbox_sequence next e = record e {
  sequence = some (elim e.sequence [ none ↦ next | some s ↦ s ]);
  version = some (elim e.version [ none ↦ 0 | some v ↦ v ]);
}

-- `append`
unfoldable pub append_row : String → OutboxEvent → Rows → Result (Rows × OutboxEvent)
append_row next event rows = do
  normalized ← sanitize_outbox_event false event
  let safe = with_store_outbox_sequence next normalized
  rows' ← row_create safe.id safe rows
  ok (rows', safe)

pub data Disposition : Type 0 where
  retries dead_letters : Disposition

unfoldable pub settled_event : Disposition → OutboxDeliveryFailure → Result OutboxEvent
settled_event retries f = outbox_retry_event f
settled_event dead_letters f = outbox_dead_letter_event f

-- A failure whose event has gone: one that was not leased is stored again.
unfoldable pub settle_gone : Disposition → OutboxDeliveryFailure → OutboxEvent → Rows → Result Rows
settle_gone d f source rows =
    if is_some source.lease_token
    then ok rows
    else (do next ← settled_event d f; row_create next.id next rows)

-- The event as it is stored takes the place of the failure's.
unfoldable pub settle_row : Disposition → OutboxDeliveryFailure → OutboxEvent → Rows → Result Rows
settle_row d f current rows = do
  next ← settled_event d (record f { event = some current })
  row_update current.id next (outbox_expected_version current) rows

module _ (deep_equal : DataValue → DataValue → Bool) where
  -- The snapshot compares the tokens too, so the test of the token that follows it is its last part.
  unfoldable pub settle_found :
      Disposition → OutboxDeliveryFailure → OutboxEvent → Option OutboxEvent → Rows → Result Rows
  settle_found d f source none rows = settle_gone d f source rows
  settle_found d f source (some current) rows =
      is_outbox_snapshot_current deep_equal current source >>= λ same.
      if same then settle_row d f current rows else ok rows

  -- One round of the loop of `settleDeliveryFailures`.
  unfoldable pub settle_one : Disposition → OutboxDeliveryFailure → Rows → Result Rows
  unfolding settle_found
  settle_one d f rows = elim f.event [
    | none ↦ throw configuration
    | some source ↦
        current_outbox_event source.id rows >>= λ found. settle_found d f source found rows
  ]

  unfoldable pub settle_all : Disposition → List OutboxDeliveryFailure → Rows → Result Rows
  settle_all d [] rows = ok rows
  settle_all d (f ∷ fs) rows = settle_one d f rows >>= settle_all d fs

  -- `settleDeliveryFailures`: `retry` and `deadLetter`.
  unfoldable pub settle_failures : Disposition → List OutboxDeliveryFailure → Rows → Result Rows
  settle_failures d failures rows = do
    normalized ← sanitize_failures true failures
    settle_all d normalized rows

  -- The tests of `ack` on the row that it read.
  unfoldable pub ack_found : OutboxEvent → ℕ → Option OutboxEvent → Result (Option OutboxEvent)
  ack_found event now none = ok none
  ack_found event now (some current) = elim event.lease_token [
    | some token ↦
        if is_outbox_lease_current current token now
        then (is_outbox_snapshot_current deep_equal current event >>= λ same.
            ok (if same then some current else none))
        else ok none
    | none ↦
        if is_some current.lease_token
        then ok none
        else (is_outbox_snapshot_current deep_equal current event >>= λ same.
            ok (if same then some current else none))
  ]

  -- The event as it is stored, if it may be acknowledged.
  unfoldable pub ack_check : OutboxEvent → ℕ → Rows → Result (Option OutboxEvent)
  unfolding ack_found
  ack_check event now rows =
      current_outbox_event event.id rows >>= λ found. ack_found event now found

  -- The first loop of `ack`: the versions to delete, if every event may be acknowledged.
  unfoldable pub ack_checks :
      List OutboxEvent → ℕ → Rows → Result (Option (List (String × Option ℕ)))
  ack_checks [] now rows = ok (some [])
  ack_checks (e ∷ es) now rows = ack_check e now rows >>= λ found. elim found [
    | none ↦ ok none
    | some current ↦ ack_checks es now rows >>= λ rest. ok (elim rest [
      | none ↦ none
      | some targets ↦ some ((e.id, outbox_expected_version current) ∷ targets)
    ])
  ]

  -- The second loop.
  unfoldable pub delete_all : List (String × Option ℕ) → Rows → Result Rows
  delete_all [] rows = ok rows
  delete_all ((id, version) ∷ targets) rows = row_delete id version rows >>= delete_all targets

  unfoldable pub ack_run : List OutboxEvent → ℕ → Rows → Result (Rows × Bool)
  ack_run events now rows = ack_checks events now rows >>= λ checked. elim checked [
    | none ↦ ok (rows, false)
    | some targets ↦ delete_all targets rows >>= λ rows'. ok (rows', true)
  ]

  unfoldable pub or_unacknowledged : Rows → Result (Rows × Bool) → Result (Rows × Bool)
  or_unacknowledged rows (ok r) = ok r
  or_unacknowledged rows (throw e) = if is_lost e then ok (rows, false) else throw e

  -- `ack`: whether the events were acknowledged, all of them.
  unfoldable pub ack : List OutboxEvent → ℕ → Rows → Result (Rows × Bool)
  unfolding or_unacknowledged
  ack events now rows = do
    normalized ← sanitize_all events
    or_unacknowledged rows (ack_run normalized now rows)
