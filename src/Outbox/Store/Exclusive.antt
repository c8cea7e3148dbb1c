-- ===== src/Outbox/Store/Exclusive.antt =====
-- src/core/outbox-store.ts: leases under any sequence of calls, of any number of workers.
pub mod Lasting
pub mod Claims
use active_ts.Prelude.{ℕ, Bool, true, false, Option, none, some, List, [], ◌∷◌, if◌then◌else◌}
use active_ts.Prelude.Text.{String}
use active_ts.DataValue.{DataValue}
use active_ts.Outbox.Event.{OutboxEvent, OutboxDeliveryFailure}
use active_ts.Errors.{Result, ok, throw}
use active_ts.Outbox.Store.Table.{Rows}
use active_ts.Outbox.Store.Leases.{claim, renew_lease, release}
use active_ts.Outbox.Store.Batches.{Disposition, append_row, settle_failures, ack}
use active_ts.Outbox.Store.Presents.{presents_token, any_presents}

-- A call of one of the adapter's methods; `lease` claims the events that it lists one by one.
pub data Call : Type 0 where
  appends : String → OutboxEvent → Call
  claims : OutboxEvent → String → ℕ → Call
  renews : OutboxEvent → Call
  releases : List OutboxEvent → Call
  settles : Disposition → List OutboxDeliveryFailure → Call
  acks : List OutboxEvent → Call

abbrev pub event_presents : String → Option OutboxEvent → Bool
event_presents token none = false
event_presents token (some e) = presents_token token e

abbrev pub any_failure_presents : String → List OutboxDeliveryFailure → Bool
any_failure_presents token [] = false
any_failure_presents token (f ∷ fs) =
    if event_presents token f.event then true else any_failure_presents token fs

-- The call presents the token: one of its events carries it. A claim brings a new token.
abbrev pub presents : String → Call → Bool
presents token (appends next e) = false
presents token (claims e t expires) = false
presents token (renews e) = presents_token token e
presents token (releases es) = any_presents token es
presents token (settles d fs) = any_failure_presents token fs
presents token (acks es) = any_presents token es

-- The rows after a call that throws are those before it.
abbrev pub rows_after {ℓ} : {A : Type ℓ} → Rows → Result (Rows × A) → Rows
rows_after rows (ok r) = r.0
rows_after rows (throw e) = rows

abbrev pub or_before : Rows → Result Rows → Rows
or_before rows (ok rows') = rows'
or_before rows (throw e) = rows

module _ (deep_equal : DataValue → DataValue → Bool) where
  -- The rows after a call at a time, whether it returns or throws.
  unfoldable pub after : Call → ℕ → Rows → Rows
  after (appends next e) now rows = rows_after rows (append_row next e rows)
  after (claims e t expires) now rows = rows_after rows (claim deep_equal e t expires now rows)
  after (renews e) now rows = rows_after rows (renew_lease deep_equal e now rows)
  after (releases es) now rows = (release es rows).0
  after (settles d fs) now rows = or_before rows (settle_failures deep_equal d fs rows)
  after (acks es) now rows = rows_after rows (ack deep_equal es now rows)

  -- The rows after calls at their times.
  unfoldable pub after_all : List (ℕ × Call) → Rows → Rows
  after_all [] rows = rows
  after_all ((now, call) ∷ calls) rows = after_all calls (after call now rows)
