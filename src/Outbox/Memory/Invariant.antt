-- ===== src/Outbox/Memory/Invariant.antt =====
-- src/core/outbox-memory.ts: what holds of the adapter after any sequence of calls.
use active_ts.Prelude.{ℕ, ◌≡◌, ap, sym, true, false, Option, List, [], ◌∷◌, ◌++◌, All}
use active_ts.Prelude.Text.{String}
use active_ts.Outbox.Event.{
  OutboxEvent, OutboxDeliveryFailure, sanitize_outbox_event, sanitize_all, sanitize_failures,
}
use active_ts.Outbox.Protocol.{has}
use active_ts.Errors.{ok, >>=-eq-ok, ok-injective}
use active_ts.Outbox.Memory.Defs.{
  MemoryOutbox, ids, check_ids, assert_available_ids, append, list, list_dead_letters,
  normalize_limit, prepend, requeue, retry_events, retry, dead_letter_events, dead_letter,
  drain_loop, no_drain, drain,
}
use active_ts.Outbox.Memory.Drain.{IsSane}
use active_ts.Outbox.Memory.Ids.{
  IsDistinct, IsDistinct-swap, ids-append, check_ids-IsDistinct, check_ids-ok,
}
use active_ts.Outbox.Memory.Split.{
  Split, Split-All, IsDistinct-Split, IsDistinct-right, drain_loop-Split,
}
use active_ts.Outbox.Memory.Sane.{
  All-append, sanitize-IsSane, sanitize_all-IsSane, sanitize_all-ok, retry_events-IsSane,
  dead_letter_events-new,
}

-- Every event is stored as sanitizing leaves it, and ids are distinct among the events and among the
-- dead letters.
pub record IsValid (m : MemoryOutbox) : Type 0 where
  pub events_sane : All IsSane m.events
  pub dead_letters_sane : All IsSane m.dead_letters
  pub events_distinct : IsDistinct (ids m.events)
  pub dead_letters_distinct : IsDistinct (ids m.dead_letters)

prepend-IsValid :
    (m : MemoryOutbox) (es : List OutboxEvent)
    → IsValid m
    → All IsSane es
    → IsDistinct (ids es ++ ids m.events)
    → IsValid (prepend es m)
unfolding prepend
prepend-IsValid m es v sane d = record {
  events_sane = All-append IsSane es m.events sane v.events_sane;
  dead_letters_sane = v.dead_letters_sane;
  events_distinct = rw (ids-append es m.events) d;
  dead_letters_distinct = v.dead_letters_distinct;
}

append_one-IsValid :
    (m : MemoryOutbox) (e : OutboxEvent)
    → IsValid m
    → IsSane e
    → IsDistinct (ids (e ∷ []) ++ ids m.events)
    → IsValid (record m { events = m.events ++ e ∷ [] })
append_one-IsValid m e v sane d = record {
  events_sane = All-append IsSane m.events (e ∷ []) v.events_sane (sane, tt);
  dead_letters_sane = v.dead_letters_sane;
  events_distinct =
      rw (ids-append m.events (e ∷ [])) (IsDistinct-swap (ids (e ∷ [])) (ids m.events) d);
  dead_letters_distinct = v.dead_letters_distinct;
}

append-IsValid :
    (e : OutboxEvent) (m : MemoryOutbox) {m' : MemoryOutbox} {r : OutboxEvent}
    → IsValid m
    → append e m ≡ ok (m', r)
    → IsValid m'
unfolding append assert_available_ids
append-IsValid e m {m'} {r} v h =
    let (s, first, h₁) = >>=-eq-ok (sanitize_outbox_event false e) _ h in
    let (u, free, h₂) = >>=-eq-ok (check_ids (ids m.events) [] (s ∷ [])) _ h₁ in
    let (r', again, h₃) = >>=-eq-ok (sanitize_outbox_event false s) _ h₂ in
    rw (sym (ap (λ x. x.0) (ok-injective h₃))) (
      append_one-IsValid m s v (sanitize-IsSane e first)
        (check_ids-IsDistinct (ids m.events) [] (s ∷ []) free v.events_distinct).0)

requeue-IsValid :
    (es : List OutboxEvent) (m : MemoryOutbox) {m' : MemoryOutbox}
    → IsValid m
    → requeue es m ≡ ok m'
    → IsValid m'
unfolding requeue assert_available_ids
requeue-IsValid es m v h =
    let (ss, first, h₁) = >>=-eq-ok (sanitize_all es) _ h in
    let (u, free, h₂) = >>=-eq-ok (check_ids (ids m.events) [] ss) _ h₁ in
    rw (ok-injective (sym h₂)) (
      prepend-IsValid m ss v (sanitize_all-IsSane es first)
        (check_ids-IsDistinct (ids m.events) [] ss free v.events_distinct).0)

retry-IsValid :
    (fs : List OutboxDeliveryFailure) (m : MemoryOutbox) {m' : MemoryOutbox}
    → IsValid m
    → retry fs m ≡ ok m'
    → IsValid m'
unfolding retry assert_available_ids
retry-IsValid fs m v h =
    let (gs, first, h₁) = >>=-eq-ok (sanitize_failures true fs) _ h in
    let (es, events, h₂) = >>=-eq-ok (retry_events gs) _ h₁ in
    let (u, free, h₃) = >>=-eq-ok (check_ids (ids m.events) [] es) _ h₂ in
    rw (ok-injective (sym h₃)) (
      prepend-IsValid m es v (retry_events-IsSane gs events)
        (check_ids-IsDistinct (ids m.events) [] es free v.events_distinct).0)

dead_letter-IsValid :
    (fs : List OutboxDeliveryFailure) (m : MemoryOutbox) {m' : MemoryOutbox}
    → IsValid m
    → dead_letter fs m ≡ ok m'
    → IsValid m'
unfolding dead_letter
dead_letter-IsValid fs m v h =
    let (gs, first, h₁) = >>=-eq-ok (sanitize_failures true fs) _ h in
    let (es, events, h₂) = >>=-eq-ok (dead_letter_events (ids m.dead_letters) gs) _ h₁ in
    let (sane, distinct) =
      dead_letter_events-new (ids m.dead_letters) gs v.dead_letters_distinct events in
    rw (ok-injective (sym h₂)) (record {
      events_sane = v.events_sane;
      dead_letters_sane = All-append IsSane m.dead_letters es v.dead_letters_sane sane;
      events_distinct = v.events_distinct;
      dead_letters_distinct =
          rw (ids-append m.dead_letters es)
            (IsDistinct-swap (ids es) (ids m.dead_letters) distinct);
    })

drain_inv :
    (digest : String → String) (limit : Option ℕ) (now : ℕ) (m : MemoryOutbox) {m' : MemoryOutbox}
    {r : List OutboxEvent}
    → IsValid m
    → drain digest limit now m ≡ ok (m', r)
    → Split m.events r m'.events × (m'.dead_letters ≡ m.dead_letters)
unfolding drain
drain_inv digest limit now m {m'} {r} v h =
    let (l, good, h₁) = >>=-eq-ok (normalize_limit limit) _ h in
    let (d, loop, h₂) = >>=-eq-ok (drain_loop digest l now m.events no_drain) _ h₁ in
    let at = ok-injective h₂ in
    (
      rw (ap (λ x. x.1) (sym at), ap (λ x. x.0.events) (sym at))
          (drain_loop-Split digest l now m.events v.events_sane loop),
      ap (λ x. x.0.dead_letters) (sym at),
    )

drain-IsValid :
    (digest : String → String) (limit : Option ℕ) (now : ℕ) (m : MemoryOutbox) {m' : MemoryOutbox}
    {r : List OutboxEvent}
    → IsValid m
    → drain digest limit now m ≡ ok (m', r)
    → IsValid m'
drain-IsValid digest limit now m {m'} {r} v h =
    let (parts, same) = drain_inv digest limit now m v h in
    record {
      events_sane = (Split-All IsSane parts v.events_sane).1;
      dead_letters_sane = rw same v.dead_letters_sane;
      events_distinct =
          IsDistinct-right (ids r) (ids m'.events) (IsDistinct-Split parts v.events_distinct);
      dead_letters_distinct = rw same v.dead_letters_distinct;
    }

-- A call that returns.
pub data Step (digest : String → String) (m : MemoryOutbox) : MemoryOutbox → Type 0 where
  appends :
      (e : OutboxEvent) {m' : MemoryOutbox} {r : OutboxEvent}
      → append e m ≡ ok (m', r)
      → Step digest m m'
  drains :
      (limit : Option ℕ) (now : ℕ) {m' : MemoryOutbox} {r : List OutboxEvent}
      → drain digest limit now m ≡ ok (m', r)
      → Step digest m m'
  requeues : (es : List OutboxEvent) {m' : MemoryOutbox} → requeue es m ≡ ok m' → Step digest m m'
  retries :
      (fs : List OutboxDeliveryFailure) {m' : MemoryOutbox} → retry fs m ≡ ok m' → Step digest m m'
  buries :
      (fs : List OutboxDeliveryFailure) {m' : MemoryOutbox}
      → dead_letter fs m ≡ ok m'
      → Step digest m m'

abbrev pub empty : MemoryOutbox
empty = record { events = []; dead_letters = [] }

-- The adapters that calls lead to.
pub data Reachable (digest : String → String) : MemoryOutbox → Type 0 where
  start : Reachable digest empty
  next : {m m' : MemoryOutbox} → Reachable digest m → Step digest m m' → Reachable digest m'

Step-IsValid :
    (digest : String → String) {m m' : MemoryOutbox} → IsValid m → Step digest m m' → IsValid m'
Step-IsValid digest {m} v (appends e h) = append-IsValid e m v h
Step-IsValid digest {m} v (drains limit now h) = drain-IsValid digest limit now m v h
Step-IsValid digest {m} v (requeues es h) = requeue-IsValid es m v h
Step-IsValid digest {m} v (retries fs h) = retry-IsValid fs m v h
Step-IsValid digest {m} v (buries fs h) = dead_letter-IsValid fs m v h

-- After any sequence of calls on a new adapter, every stored event and dead letter is as sanitizing
-- leaves it, and the ids are distinct among the events and among the dead letters.
pub Reachable-IsValid :
    (digest : String → String) {m : MemoryOutbox} → Reachable digest m → IsValid m
unfolding ids
Reachable-IsValid digest start = record {
  events_sane = tt;
  dead_letters_sane = tt;
  events_distinct = tt;
  dead_letters_distinct = tt;
}
Reachable-IsValid digest (next r s) = Step-IsValid digest (Reachable-IsValid digest r) s

-- On a valid adapter, `list` and `list_dead_letters` return what is stored; what a drain returns and
-- what it keeps are the stored events, each in their order; and giving what it returned back is never
-- refused, and puts it in front of what was kept.
pub requeue-drain :
    (digest : String → String) (limit : Option ℕ) (now : ℕ) (m : MemoryOutbox) {m' : MemoryOutbox}
    {r : List OutboxEvent}
    → IsValid m
    → drain digest limit now m ≡ ok (m', r)
    → (list m ≡ ok m.events)
      × (list_dead_letters m ≡ ok m.dead_letters)
      × Split m.events r m'.events
      × (requeue r m' ≡ ok (prepend r m'))
unfolding list list_dead_letters requeue assert_available_ids has
requeue-drain digest limit now m {m'} {r} v h =
    let (parts, same) = drain_inv digest limit now m v h in
    let sane = (Split-All IsSane parts v.events_sane).0 in
    (
      sanitize_all-ok m.events v.events_sane,
      sanitize_all-ok m.dead_letters v.dead_letters_sane,
      parts,
      rw (
        sanitize_all-ok r sane,
        check_ids-ok (ids m'.events) [] r (IsDistinct-Split parts v.events_distinct) (λ k a. cc),
      ),
    )
