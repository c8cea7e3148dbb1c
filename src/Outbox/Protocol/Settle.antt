-- ===== src/Outbox/Protocol/Settle.antt =====
-- src/core/outbox-protocol.ts: the event that a failed delivery leaves.
use active_ts.Prelude.{◌+◌, false, none, some}
use active_ts.Outbox.Event.{OutboxEvent, OutboxDeliveryFailure, sanitize_outbox_event}
use active_ts.Outbox.Protocol.Lease.{outbox_event_version}
use active_ts.Errors.{Result, throw, configuration}

-- `outboxRetryEvent`
unfoldable pub outbox_retry_event : OutboxDeliveryFailure → Result OutboxEvent
outbox_retry_event f = elim f.event [
  | none ↦ throw configuration
  | some e ↦ elim f.retry_at [
    | none ↦ throw configuration
    | some retry_at ↦ sanitize_outbox_event false (record e {
      version = some (outbox_event_version e + 1);
      delivery_attempts = some f.attempt;
      available_at = some retry_at;
      last_delivery_error = some f.error;
      lease_token = none;
      lease_expires_at = none;
      dead_lettered_at = none;
    })
  ]
]

-- `outboxDeadLetterEvent`
unfoldable pub outbox_dead_letter_event : OutboxDeliveryFailure → Result OutboxEvent
outbox_dead_letter_event f = elim f.event [
  | none ↦ throw configuration
  | some e ↦ sanitize_outbox_event false (record e {
    version = some (outbox_event_version e + 1);
    delivery_attempts = some f.attempt;
    dead_lettered_at = some f.failed_at;
    last_delivery_error = some f.error;
    lease_token = none;
    lease_expires_at = none;
    available_at = none;
  })
]
