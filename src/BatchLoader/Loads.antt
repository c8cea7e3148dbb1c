-- ===== src/BatchLoader/Loads.antt =====
-- src/core/batch-loader.ts: each load is answered once, with the row of its own id.
use active_ts.Prelude.{
  concat, ℕ, ◌<◌, ◌≡◌, refl, ◌∙◌, ap, sym, Bool, true, false, Option, some, List, [], ◌∷◌, ◌++◌,
  map, Bool-cases, inl, inr,
}
use mathlib.Core.List.{append_assoc}
use active_ts.Prelude.Text.{String, str_eq, str_eq_iff}
use active_ts.Prelude.Assoc.{lookup, insert}
use active_ts.SafeKeys.{EntityId}
use active_ts.EntityKey.{entity_id_key, entity_id_key_inj}
use active_ts.Errors.{Result, ok, >>=-eq-ok, ok-injective}
use active_ts.BatchLoader.Defs.{
  PendingBatch, BatchLoader, join, load, pending_batches, chunk_items, chunk_ids, flush_chunk,
  flush_chunks, flush, one_each, settle, resolve_all,
}
use active_ts.BatchLoader.Chunks.{chunk_items_lem}

-- The second list is the first with the element put in somewhere.
pub data Inserted {ℓ} {A : Type ℓ} (x : A) : List A → List A → Type ℓ where
  here : {xs : List A} → Inserted x xs (x ∷ xs)
  there : {y : A} {xs ys : List A} → Inserted x xs ys → Inserted x (y ∷ xs) (y ∷ ys)

module _ {ℓ} {A : Type ℓ} where
  Inserted-right :
      {x : A} (zs : List A) {xs ys : List A} → Inserted x xs ys → Inserted x (zs ++ xs) (zs ++ ys)
  Inserted-right [] i = i
  Inserted-right (z ∷ zs) i = there (Inserted-right zs i)

  Inserted-left :
      {x : A} {xs ys : List A} (zs : List A) → Inserted x xs ys → Inserted x (xs ++ zs) (ys ++ zs)
  Inserted-left zs here = here
  Inserted-left zs (there i) = there (Inserted-left zs i)

  Inserted-last : (x : A) (xs : List A) → Inserted x xs (xs ++ x ∷ [])
  Inserted-last x [] = here
  Inserted-last x (y ∷ xs) = there (Inserted-last x xs)

Inserted-map {ℓ κ} :
    {A : Type ℓ} {B : Type κ} (f : A → B) {x : A} {xs ys : List A}
    → Inserted x xs ys
    → Inserted (f x) (map f xs) (map f ys)
Inserted-map f here = here
Inserted-map f (there i) = there (Inserted-map f i)

-- The waiters of an entry, each with the entry's id.
abbrev pub each_waits : EntityId → List ℕ → List (ℕ × EntityId)
each_waits id [] = []
each_waits id (w ∷ ws) = (w, id) ∷ each_waits id ws

abbrev pub waiting_in : List PendingBatch → List (ℕ × EntityId)
waiting_in [] = []
waiting_in (p ∷ ps) = each_waits p.id p.waiters ++ waiting_in ps

abbrev pub waiting_for : List (String × PendingBatch) → List (ℕ × EntityId)
waiting_for [] = []
waiting_for ((key, p) ∷ m) = each_waits p.id p.waiters ++ waiting_for m

-- Every entry stands under the key of its id.
abbrev HasKeys : List (String × PendingBatch) → Type 0
HasKeys [] = Unit
HasKeys ((key, p) ∷ m) = (entity_id_key p.id ≡ ok key) × HasKeys m

each_waits-append :
    (id : EntityId) (ws vs : List ℕ)
    → each_waits id (ws ++ vs) ≡ each_waits id ws ++ each_waits id vs
each_waits-append id [] vs = refl
each_waits-append id (w ∷ ws) vs = ap (λ ks. (w, id) ∷ ks) (each_waits-append id ws vs)

Inserted-join :
    (id : EntityId) (waiter : ℕ) (p : PendingBatch)
    → p.id ≡ id
    → Inserted (waiter, id) (each_waits p.id p.waiters) (each_waits p.id (p.waiters ++ waiter ∷ []))
Inserted-join id waiter p same =
    rw (each_waits-append p.id p.waiters (waiter ∷ []), sym same)
      (Inserted-last (waiter, p.id) (each_waits p.id p.waiters))

Inserted-load :
    (id : EntityId) (key : String) (waiter : ℕ) (m : List (String × PendingBatch))
    (found : Option PendingBatch)
    → HasKeys m
    → entity_id_key id ≡ ok key
    → lookup key m ≡ found
    → Inserted (waiter, id) (waiting_for m) (waiting_for (insert key (join id waiter found) m))
      × HasKeys (insert key (join id waiter found) m)
unfolding insert lookup join
Inserted-load id key waiter [] found k h l = rw (sym l) (here, (h, tt))
Inserted-load id key waiter ((j, p) ∷ m) found k h l = elim (Bool-cases (str_eq j key)) [
  | inl same ↦
      let at : entity_id_key p.id ≡ ok key = k.0 ∙ ap ok ((str_eq_iff j key).0 same) in
      let there_already : some p ≡ found = rw same at l in
      rw (same, sym there_already)
        (
          Inserted-left (waiting_for m)
              (Inserted-join id waiter p (entity_id_key_inj p.id id at h)),
          k,
        )
  | inr other ↦
      let (rest, keys) = Inserted-load id key waiter m found k.1 h (rw other at l) in
      rw other (Inserted-right (each_waits p.id p.waiters) rest, (k.0, keys))
]

waiting_in-one_each : (id : EntityId) (ws : List ℕ) → waiting_in (one_each id ws) ≡ each_waits id ws
unfolding one_each
waiting_in-one_each id [] = refl
waiting_in-one_each id (w ∷ ws) = ap (λ ks. (w, id) ∷ ks) (waiting_in-one_each id ws)

pub waiting_in-append :
    (ps qs : List PendingBatch) → waiting_in (ps ++ qs) ≡ waiting_in ps ++ waiting_in qs
waiting_in-append [] qs = refl
waiting_in-append (p ∷ ps) qs =
    ap (λ ks. each_waits p.id p.waiters ++ ks) (waiting_in-append ps qs)
    ∙ sym (append_assoc (each_waits p.id p.waiters) (waiting_in ps) (waiting_in qs))

-- However the entries are split, the same waiters wait.
waiting_in-pending_batches :
    (m : List (String × PendingBatch)) (distinct : Bool)
    → waiting_in (pending_batches m distinct) ≡ waiting_for m
unfolding pending_batches
waiting_in-pending_batches [] distinct = refl
waiting_in-pending_batches ((key, p) ∷ m) true =
    waiting_in-append (one_each p.id p.waiters) (pending_batches m true)
    ∙ cc (waiting_in-one_each p.id p.waiters, waiting_in-pending_batches m true)
waiting_in-pending_batches ((key, p) ∷ m) false =
    ap (λ ks. each_waits p.id p.waiters ++ ks) (waiting_in-pending_batches m false)

pub waiting_in-concat :
    (b : BatchLoader)
    → 0 < b.max_size
    → waiting_in (concat (chunk_items (pending_batches b.pending b.distinct_results) b.max_size))
      ≡ waiting_for b.pending
waiting_in-concat b pos =
    ap waiting_in (chunk_items_lem (pending_batches b.pending b.distinct_results) b.max_size pos).0
    ∙ waiting_in-pending_batches b.pending b.distinct_results

pub map-append {ℓ κ} :
    {A : Type ℓ} {B : Type κ} (f : A → B) (xs ys : List A) → map f (xs ++ ys) ≡ map f xs ++ map f ys
map-append f [] ys = refl
map-append f (x ∷ xs) ys = ap (λ zs. f x ∷ zs) (map-append f xs ys)

module _ {V : Type 0} (row : EntityId → Option V) where
  -- The answer of a load: the row of its id.
  abbrev pub answer : ℕ × EntityId → ℕ × Result (Option V)
  answer (w, id) = (w, ok (row id))

  settle-answer :
      (id : EntityId) (ws : List ℕ) → settle ws (ok (row id)) ≡ map answer (each_waits id ws)
  unfolding settle
  settle-answer id [] = refl
  settle-answer id (w ∷ ws) = ap (λ ks. (w, ok (row id)) ∷ ks) (settle-answer id ws)

  resolve_all-answer :
      (chunk : List PendingBatch)
      → resolve_all chunk (map row (chunk_ids chunk)) ≡ map answer (waiting_in chunk)
  unfolding resolve_all chunk_ids
  resolve_all-answer [] = refl
  resolve_all-answer (p ∷ chunk) =
      cc (settle-answer p.id p.waiters, resolve_all-answer chunk)
      ∙ sym (map-append answer (each_waits p.id p.waiters) (waiting_in chunk))

  module _ (load_many : List EntityId → Result (List (Option V)))
      (loads : (ids : List EntityId) → load_many ids ≡ ok (map row ids)) where
    flush_chunk-answer :
        (c : List PendingBatch) → flush_chunk load_many c ≡ map answer (waiting_in c)
    unfolding flush_chunk
    flush_chunk-answer c = rw (loads (chunk_ids c), flush_chunk) (resolve_all-answer c)

    flush_chunks-answer :
        (cs : List (List PendingBatch))
        → flush_chunks load_many cs ≡ map answer (waiting_in (concat cs))
    unfolding flush_chunks
    flush_chunks-answer [] = refl
    flush_chunks-answer (c ∷ cs) =
        cc (flush_chunk-answer c, flush_chunks-answer cs)
        ∙ (sym (map-append answer (waiting_in c) (waiting_in (concat cs)))
            ∙ ap (map answer) (sym (waiting_in-append c (concat cs))))

    flush-answer :
        (b : BatchLoader)
        → 0 < b.max_size
        → (flush load_many b).1 ≡ map answer (waiting_for b.pending)
    unfolding flush
    flush-answer b pos =
        flush_chunks-answer (chunk_items (pending_batches b.pending b.distinct_results) b.max_size)
        ∙ ap (map answer) (waiting_in-concat b pos)

-- What a loader is in: each entry stands under the key of its id.
abbrev pub IsValid : BatchLoader → Type 0
IsValid b = HasKeys b.pending

-- If the source of rows answers every batch with the rows of its ids, a chunk has room for an id and
-- every pending entry stands under the key of its id, a load that is accepted adds one answer to those
-- of the next flush, the row of the loaded id for its waiter, and a flush is scheduled. The entries
-- still stand under the keys of their ids.
pub load-flush :
    {V : Type 0} (row : EntityId → Option V) (load_many : List EntityId → Result (List (Option V)))
    (id : EntityId) (waiter : ℕ) (b : BatchLoader) {b' : BatchLoader}
    → ((ids : List EntityId) → load_many ids ≡ ok (map row ids))
    → 0 < b.max_size
    → IsValid b
    → load id waiter b ≡ ok b'
    → Inserted (waiter, ok (row id)) (flush load_many b).1 (flush load_many b').1
      × IsValid b'
      × (b'.scheduled ≡ true)
unfolding load
load-flush row load_many id waiter b {b'} loads pos v h =
    let (key, k, r) = >>=-eq-ok (entity_id_key id) _ h in
    let at = ok-injective (sym r) in
    let (i, keys) = Inserted-load id key waiter b.pending (lookup key b.pending) v k refl in
    let pending = ap (λ x. x.pending) at in
    let size : b'.max_size ≡ b.max_size = ap (λ x. x.max_size) at in
    (
      rw
          (
            flush-answer row load_many loads b pos,
            flush-answer row load_many loads b' (rw size pos),
            pending,
          )
          (Inserted-map (answer row) i),
      rw pending keys,
      ap (λ x. x.scheduled) at,
    )
