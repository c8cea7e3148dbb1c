-- ===== src/BatchLoader/Settles.antt =====
-- src/core/batch-loader.ts, `flush`: no waiter is left behind, whatever the batches do.
use active_ts.Prelude.{
  concat, ℕ, ◌<◌, ◌≡◌, refl, ◌∙◌, ap, false, Option, List, [], ◌∷◌, ◌++◌, inl, inr,
}
use active_ts.SafeKeys.{EntityId}
use active_ts.Errors.{ActiveTsError, Result, ok, throw, Result-cases}
use active_ts.BatchLoader.Defs.{
  PendingBatch, BatchLoader, pending_batches, chunk_items, chunk_ids, flush_chunk, flush_chunks,
  flush, settle, resolve_all, reject_all, value_or_null, tail,
}
use active_ts.BatchLoader.Loads.{
  each_waits, waiting_in, waiting_for, waiting_in-append, waiting_in-concat,
}

-- The waiters of a list of pairs.
abbrev pub waiters {ℓ} : {B : Type ℓ} → List (ℕ × B) → List ℕ
waiters [] = []
waiters ((w, b) ∷ rest) = w ∷ waiters rest

waiters-append {ℓ} :
    {B : Type ℓ} (xs ys : List (ℕ × B)) → waiters (xs ++ ys) ≡ waiters xs ++ waiters ys
waiters-append [] ys = refl
waiters-append ((w, b) ∷ xs) ys = ap (λ zs. w ∷ zs) (waiters-append xs ys)

module _ (V : Type 0) where
  waiters-settle :
      (id : EntityId) (ws : List ℕ) (outcome : Result (Option V))
      → waiters (settle ws outcome) ≡ waiters (each_waits id ws)
  unfolding settle
  waiters-settle id [] outcome = refl
  waiters-settle id (w ∷ ws) outcome = ap (λ ks. w ∷ ks) (waiters-settle id ws outcome)

  waiters-resolve_all :
      (chunk : List PendingBatch) (values : List (Option V))
      → waiters (resolve_all chunk values) ≡ waiters (waiting_in chunk)
  unfolding resolve_all
  waiters-resolve_all [] values = refl
  waiters-resolve_all (p ∷ chunk) values =
      rw
        (
          waiters-append (settle p.waiters (ok (value_or_null values)))
              (resolve_all chunk (tail values)),
          waiters-append (each_waits p.id p.waiters) (waiting_in chunk),
        )
        (cc (
          waiters-settle p.id p.waiters (ok (value_or_null values)),
          waiters-resolve_all chunk (tail values),
        ))

  waiters-reject_all :
      (chunk : List PendingBatch) (error : ActiveTsError)
      → waiters (reject_all {V = V} chunk error) ≡ waiters (waiting_in chunk)
  unfolding reject_all
  waiters-reject_all [] error = refl
  waiters-reject_all (p ∷ chunk) error =
      rw
        (
          waiters-append (settle {V = V} p.waiters (throw error)) (reject_all chunk error),
          waiters-append (each_waits p.id p.waiters) (waiting_in chunk),
        )
        (cc (waiters-settle p.id p.waiters (throw error), waiters-reject_all chunk error))

  module _ (load_many : List EntityId → Result (List (Option V))) where
    waiters-flush_chunk :
        (chunk : List PendingBatch)
        → waiters (flush_chunk load_many chunk) ≡ waiters (waiting_in chunk)
    unfolding flush_chunk
    waiters-flush_chunk chunk = elim (Result-cases (load_many (chunk_ids chunk))) [
      | inl (values, e) ↦ rw (e, flush_chunk) (waiters-resolve_all chunk values)
      | inr (error, e) ↦ rw (e, flush_chunk) (waiters-reject_all chunk error)
    ]

    waiters-flush_chunks :
        (cs : List (List PendingBatch))
        → waiters (flush_chunks load_many cs) ≡ waiters (waiting_in (concat cs))
    unfolding flush_chunks
    waiters-flush_chunks [] = refl
    waiters-flush_chunks (c ∷ cs) =
        rw
          (
            waiters-append (flush_chunk load_many c) (flush_chunks load_many cs),
            waiting_in-append c (concat cs),
            waiters-append (waiting_in c) (waiting_in (concat cs)),
          )
          (cc (waiters-flush_chunk c, waiters-flush_chunks cs))

-- If a chunk has room for an id, a flush settles every waiter of the pending entries, each as often as
-- it waits and in the order of the entries, whether the batches are loaded, come short or fail, and
-- nothing is pending or scheduled afterwards.
pub waiters-flush :
    {V : Type 0} (load_many : List EntityId → Result (List (Option V))) (b : BatchLoader)
    → 0 < b.max_size
    → (waiters (flush load_many b).1 ≡ waiters (waiting_for b.pending))
      × ((flush load_many b).0 ≡ record b { pending = []; scheduled = false })
unfolding flush
waiters-flush {V} load_many b pos = (
  waiters-flush_chunks V load_many
        (chunk_items (pending_batches b.pending b.distinct_results) b.max_size)
      ∙ ap waiters (waiting_in-concat b pos),
  refl,
)
