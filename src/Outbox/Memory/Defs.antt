-- ===== src/Outbox/Memory/Defs.antt =====
-- src/core/outbox-memory.ts: MemoryOutboxAdapter. A call returns the adapter after it, or throws and
-- leaves the adapter as it was: every check stands before the first change.
use active_ts.Prelude.{
  ℕ, ◌^◌, Bool, true, false, ◌&&◌, ◌||◌, not, Option, none, some, List, [], ◌∷◌, ◌++◌, length, ltb,
  leb, if◌then◌else◌,
}
use active_ts.Prelude.Text.{String}
use active_ts.Outbox.Event.{
  OutboxEvent, OutboxDeliveryFailure, is_some, sanitize_outbox_event, sanitize_all,
  sanitize_failures,
}
use active_ts.Outbox.Protocol.{
  has, outbox_entity_order_check_keys, outbox_entity_order_block_keys,
  outbox_entity_order_keys_blocked, block_outbox_entity_order_keys, is_outbox_delivery_available,
  outbox_retry_event, outbox_dead_letter_event,
}
use active_ts.Errors.{Result, ok, conflict, configuration, guard, ◌>>=◌, ◌>>◌}

pub record MemoryOutbox : Type 0 where
  pub events : List OutboxEvent
  pub dead_letters : List OutboxEvent

unfoldable pub ids : List OutboxEvent → List String
ids [] = []
ids (e ∷ es) = e.id ∷ ids es

-- The loop of `assertAvailableIds`: `incoming` holds the ids of the batch so far.
unfoldable pub check_ids : List String → List String → List OutboxEvent → Result (Unit {0})
check_ids existing incoming [] = ok tt
check_ids existing incoming (e ∷ es) = do
  guard (not (has incoming e.id)) conflict
  guard (not (has existing e.id)) conflict
  check_ids existing (e.id ∷ incoming) es

unfoldable pub assert_available_ids : MemoryOutbox → List OutboxEvent → Result (Unit {0})
unfolding check_ids ids
assert_available_ids m es = check_ids (ids m.events) [] es

unfoldable pub append : OutboxEvent → MemoryOutbox → Result (MemoryOutbox × OutboxEvent)
append event m = do
  normalized ← sanitize_outbox_event false event
  assert_available_ids m (normalized ∷ [])
  returned ← sanitize_outbox_event false normalized
  ok (record m { events = m.events ++ normalized ∷ [] }, returned)

unfoldable pub list : MemoryOutbox → Result (List OutboxEvent)
list m = sanitize_all m.events

unfoldable pub list_dead_letters : MemoryOutbox → Result (List OutboxEvent)
list_dead_letters m = sanitize_all m.dead_letters

-- `normalizeOutboxBatchLimit` at `limit`.
unfoldable pub normalize_limit : Option ℕ → Result (Option ℕ)
normalize_limit none = ok none
normalize_limit (some n) = do guard (ltb 0 n && ltb n (2 ^ 53)) configuration; ok (some n)

abbrev pub limit_reached : Option ℕ → ℕ → Bool
limit_reached none drained = false
limit_reached (some limit) drained = leb limit drained

-- `requeue`, `retry`: the events go to the front, in their order.
unfoldable pub prepend : List OutboxEvent → MemoryOutbox → MemoryOutbox
prepend es m = record m { events = es ++ m.events }

unfoldable pub requeue : List OutboxEvent → MemoryOutbox → Result MemoryOutbox
unfolding prepend
requeue events m = do
  normalized ← sanitize_all events
  assert_available_ids m normalized
  ok (prepend normalized m)

unfoldable pub retry_events : List OutboxDeliveryFailure → Result (List OutboxEvent)
retry_events [] = ok []
retry_events (f ∷ fs) = do e ← outbox_retry_event f; es ← retry_events fs; ok (e ∷ es)

unfoldable pub retry : List OutboxDeliveryFailure → MemoryOutbox → Result MemoryOutbox
unfolding prepend
retry failures m = do
  normalized ← sanitize_failures true failures
  events ← retry_events normalized
  assert_available_ids m events
  ok (prepend events m)

-- The loop of `deadLetter`: `existing` holds the ids of the dead letters, old and new.
unfoldable pub dead_letter_events :
    List String → List OutboxDeliveryFailure → Result (List OutboxEvent)
dead_letter_events existing [] = ok []
dead_letter_events existing (f ∷ fs) = do
  e ← outbox_dead_letter_event f
  guard (not (has existing e.id)) conflict
  es ← dead_letter_events (e.id ∷ existing) fs
  ok (e ∷ es)

unfoldable pub dead_letter : List OutboxDeliveryFailure → MemoryOutbox → Result MemoryOutbox
dead_letter failures m = do
  normalized ← sanitize_failures true failures
  events ← dead_letter_events (ids m.dead_letters) normalized
  ok (record m { dead_letters = m.dead_letters ++ events })

-- What the loop of `drain` has so far: `drained` and `retained` grow at the end.
pub record Drain : Type 0 where
  pub drained : List OutboxEvent
  pub retained : List OutboxEvent
  pub blocked : List String

module _ (digest : String → String) (limit : Option ℕ) (now : ℕ) where
  keep : OutboxEvent → Drain → Drain
  keep e d = record d { retained = d.retained ++ e ∷ [] }

  -- The event after the test for a dead letter, with its keys.
  unfoldable pub place : OutboxEvent → List String → List String → Drain → Drain
  unfolding keep
  place e check block d =
      if limit_reached limit (length d.drained) || outbox_entity_order_keys_blocked d.blocked check
      then keep e d
      else if is_outbox_delivery_available e now
      then record d { drained = d.drained ++ e ∷ [] }
      else record d {
        retained = d.retained ++ e ∷ [];
        blocked = block_outbox_entity_order_keys d.blocked block;
      }

  -- A round of the loop at an event that is not a dead letter.
  unfoldable pub consider_live : OutboxEvent → Drain → Result Drain
  consider_live e d = do
    check ← outbox_entity_order_check_keys digest e
    block ← outbox_entity_order_block_keys digest e
    ok (place e check block d)

  -- One round of the loop, behind the sanitizing of the stored event.
  unfoldable pub consider : OutboxEvent → Drain → Result Drain
  unfolding keep
  consider e d = if is_some e.dead_lettered_at then ok (keep e d) else consider_live e d

  unfoldable pub drain_one : OutboxEvent → Drain → Result Drain
  drain_one stored d = sanitize_outbox_event false stored >>= λ e. consider e d

  unfoldable pub drain_loop : List OutboxEvent → Drain → Result Drain
  drain_loop [] d = ok d
  drain_loop (e ∷ es) d = drain_one e d >>= drain_loop es

abbrev pub no_drain : Drain
no_drain = record { drained = []; retained = []; blocked = [] }

unfoldable pub drain :
    (String → String) → Option ℕ → ℕ → MemoryOutbox → Result (MemoryOutbox × List OutboxEvent)
drain digest limit now m = do
  safe_limit ← normalize_limit limit
  d ← drain_loop digest safe_limit now m.events no_drain
  ok (record m { events = d.retained }, d.drained)
