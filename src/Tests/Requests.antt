-- ===== src/Tests/Requests.antt =====
-- The theorems on execution budgets and batches at concrete inputs.
use active_ts.Prelude.{
  concat, ℕ, ◌+◌, ◌≤◌, ◌≡◌, refl, ◌↔◌, true, false, Option, some, List, [], ◌∷◌, map, All, arith,
}
use active_ts.Prelude.Text.{byte_length, has_null, strip_prefix}
use active_ts.Prelude.Assoc.{lookup, insert}
use active_ts.Int64Id.{is_datastore_int64_id, datastore_int64_decimal}
use active_ts.SafeKeys.{EntityId, text, is_safe_entity_id, assert_safe_entity_id}
use active_ts.EntityKey.{entity_id_key, encode_entity_id}
use active_ts.Errors.{Result, ok, throw, deadline}
use active_ts.ExecutionBudget.{
  ExecutionBudget, Moment, active_state, remaining_ms, backoff, tick, waiting, resolved, timer,
  steps, step,
}
use active_ts.ExecutionBudget.Backoff.{
  slept, is_active, is_active_timer, backoff-slept, backoff-resolves, backoff_deadline_iff,
}
use active_ts.BatchLoader.{BatchLoader, load, join, flush, chunk_items, IsChunk, chunk_items_lem}
use active_ts.BatchLoader.Loads.{Inserted, IsValid, waiting_for, load-flush}
use active_ts.BatchLoader.Settles.{waiters, waiters-flush}

abbrev budget : ExecutionBudget
budget = record { signal = true; deadline_at = some 1000 }

abbrev moment : ℕ → Moment
moment now = record { is_aborted = false; now = now }

begun : backoff budget 300 (moment 100) (moment 101) ≡ ok (waiting 0 300)
unfolding backoff active_state remaining_ms tick
begun = refl

settled : steps budget (waiting 0 300) (timer (moment 401) ∷ []) ≡ resolved
unfolding steps step tick active_state remaining_ms
settled = refl

active : is_active budget (moment 101) ≡ true
unfolding active_state remaining_ms
active = refl

timer-active : All (λ h. is_active_timer budget h ≡ true) (timer (moment 401) ∷ [])
unfolding active_state remaining_ms
timer-active = (refl, tt)

backoff-slept_example : slept budget (waiting 0 300) (timer (moment 401) ∷ []) ≡ 300
backoff-slept_example =
    backoff-slept budget 300 (moment 100) (moment 101) (timer (moment 401) ∷ []) begun settled

backoff-resolves_example : steps budget (waiting 0 300) (timer (moment 401) ∷ []) ≡ resolved
backoff-resolves_example =
    backoff-resolves budget 300 (moment 100) (moment 101) (timer (moment 401) ∷ []) begun active
      timer-active (omega arith)

backoff_deadline_iff_example :
    (backoff budget 900 (moment 100) (moment 101) ≡ throw deadline) ↔ (1000 ≤ 100 + 900)
backoff_deadline_iff_example =
    backoff_deadline_iff budget 900 1000 (moment 100) (moment 101) refl refl (omega arith)

abbrev user : EntityId
user = text "u"

abbrev one_pending : BatchLoader
one_pending = record {
  pending = ("string:u", record { id = user; waiters = 1 ∷ [] }) ∷ [];
  scheduled = true;
  max_size = 2;
  distinct_results = false;
}

abbrev two_waiters : BatchLoader
two_waiters = record one_pending {
  pending = ("string:u", record { id = user; waiters = 1 ∷ 2 ∷ [] }) ∷ [];
}

user-key : entity_id_key user ≡ ok "string:u"
unfolding entity_id_key encode_entity_id assert_safe_entity_id is_safe_entity_id
    is_datastore_int64_id datastore_int64_decimal strip_prefix byte_length has_null
user-key = refl

loaded : load user 2 one_pending ≡ ok two_waiters
unfolding load join lookup insert entity_id_key encode_entity_id assert_safe_entity_id
    is_safe_entity_id is_datastore_int64_id datastore_int64_decimal strip_prefix byte_length
    has_null
loaded = refl

abbrev row : EntityId → Option ℕ
row id = some 7

abbrev rows : List EntityId → Result (List (Option ℕ))
rows ids = ok (map row ids)

abbrev three : List ℕ
three = 1 ∷ 2 ∷ 3 ∷ []

chunk_items_lem_example :
    (concat (chunk_items three 2) ≡ three) × All (IsChunk 2) (chunk_items three 2)
chunk_items_lem_example = chunk_items_lem three 2 (omega arith)

load-flush_example :
    Inserted (2, ok (row user)) (flush rows one_pending).1 (flush rows two_waiters).1
    × IsValid two_waiters
    × (two_waiters.scheduled ≡ true)
load-flush_example =
    load-flush row rows user 2 one_pending (λ ids. refl) (omega arith) (user-key, tt) loaded

waiters-flush_example :
    (waiters (flush rows two_waiters).1 ≡ waiters (waiting_for two_waiters.pending))
    × ((flush rows two_waiters).0 ≡ record two_waiters { pending = []; scheduled = false })
waiters-flush_example = waiters-flush rows two_waiters (omega arith)
