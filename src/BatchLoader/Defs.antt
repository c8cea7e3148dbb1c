-- ===== src/BatchLoader/Defs.antt =====
-- src/core/batch-loader.ts: BatchLoader. A waiter is the number of its promise; `load_many` is the
-- function that the constructor is given, and a promise settles with a value, or null, or an error.
use active_ts.Prelude.{
  ℕ, zero, suc, Bool, true, false, Option, none, some, List, [], ◌∷◌, ◌++◌, length, take, drop,
  if◌then◌else◌,
}
use active_ts.Prelude.Text.{String}
use active_ts.Prelude.Assoc.{lookup, insert}
use active_ts.SafeKeys.{EntityId}
use active_ts.EntityKey.{entity_id_key}
use active_ts.Errors.{ActiveTsError, Result, ok, throw, ◌>>=◌}

pub record PendingBatch : Type 0 where
  pub id : EntityId
  pub waiters : List ℕ

pub record BatchLoader : Type 0 where
  pub pending : List (String × PendingBatch)
  pub scheduled : Bool
  pub max_size : ℕ
  pub distinct_results : Bool

-- The entry of a key, with one more waiter.
unfoldable pub join : EntityId → ℕ → Option PendingBatch → PendingBatch
join id waiter none = record { id = id; waiters = waiter ∷ [] }
join id waiter (some p) = record p { waiters = p.waiters ++ waiter ∷ [] }

-- `load`, with `schedule`.
unfoldable pub load : EntityId → ℕ → BatchLoader → Result BatchLoader
load id waiter b = do
  key ← entity_id_key id
  ok (record b {
    pending = insert key (join id waiter (lookup key b.pending)) b.pending;
    scheduled = true;
  })

unfoldable pub one_each : EntityId → List ℕ → List PendingBatch
one_each id [] = []
one_each id (w ∷ ws) = record { id = id; waiters = w ∷ [] } ∷ one_each id ws

-- `pendingBatches`
unfoldable pub pending_batches : List (String × PendingBatch) → Bool → List PendingBatch
unfolding one_each
pending_batches [] distinct = []
pending_batches ((key, p) ∷ m) distinct =
    if distinct
    then one_each p.id p.waiters ++ pending_batches m distinct
    else p ∷ pending_batches m distinct

-- The loop of `chunkItems`, from an index on: the list holds the items from there. The loop does not
-- end at the size 0, so it has fuel.
unfoldable pub chunks_from {ℓ} : {A : Type ℓ} → ℕ → ℕ → List A → List (List A)
chunks_from zero size items = []
chunks_from (suc fuel) size [] = []
chunks_from (suc fuel) size (x ∷ items) =
    take size (x ∷ items) ∷ chunks_from fuel size (drop size (x ∷ items))

-- `chunkItems`
unfoldable pub chunk_items {ℓ} : {A : Type ℓ} → List A → ℕ → List (List A)
unfolding chunks_from
chunk_items items size = chunks_from (length items) size items

-- `chunkIds`
unfoldable pub chunk_ids : List PendingBatch → List EntityId
chunk_ids [] = []
chunk_ids (p ∷ chunk) = p.id ∷ chunk_ids chunk

unfoldable pub settle : {V : Type 0} → List ℕ → Result (Option V) → List (ℕ × Result (Option V))
settle [] outcome = []
settle (w ∷ ws) outcome = (w, outcome) ∷ settle ws outcome

-- `values[index] ?? null`
abbrev pub value_or_null : {V : Type 0} → List (Option V) → Option V
value_or_null [] = none
value_or_null (v ∷ vs) = v

abbrev pub tail : {V : Type 0} → List (Option V) → List (Option V)
tail [] = []
tail (v ∷ vs) = vs

unfoldable pub resolve_all :
    {V : Type 0} → List PendingBatch → List (Option V) → List (ℕ × Result (Option V))
unfolding settle
resolve_all [] values = []
resolve_all (p ∷ chunk) values =
    settle p.waiters (ok (value_or_null values)) ++ resolve_all chunk (tail values)

unfoldable pub reject_all :
    {V : Type 0} → List PendingBatch → ActiveTsError → List (ℕ × Result (Option V))
unfolding settle
reject_all [] error = []
reject_all (p ∷ chunk) error = settle p.waiters (throw error) ++ reject_all chunk error

module _ {V : Type 0} (load_many : List EntityId → Result (List (Option V))) where
  -- One round of the loop of `flush`.
  unfoldable pub flush_chunk : List PendingBatch → List (ℕ × Result (Option V))
  unfolding resolve_all reject_all
  flush_chunk chunk = elim (load_many (chunk_ids chunk)) [
    | ok values ↦ resolve_all chunk values
    | throw error ↦ reject_all chunk error
  ]

  unfoldable pub flush_chunks : List (List PendingBatch) → List (ℕ × Result (Option V))
  flush_chunks [] = []
  flush_chunks (c ∷ cs) = flush_chunk c ++ flush_chunks cs

  -- `flush`: the promises it settles, in order.
  unfoldable pub flush : BatchLoader → BatchLoader × List (ℕ × Result (Option V))
  flush b = (
    record b { pending = []; scheduled = false },
    flush_chunks (chunk_items (pending_batches b.pending b.distinct_results) b.max_size),
  )
