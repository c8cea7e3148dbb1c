-- ===== src/Outbox/Memory/Sane.antt =====
-- src/core/outbox-memory.ts: what the calls make of their arguments is sane, and ids are new.
use active_ts.Prelude.{
  ◌≡◌, refl, sym, false, not, List, [], ◌∷◌, ◌++◌, All, arith, Option-cases, inl, inr,
}
use active_ts.Prelude.Text.{String}
use active_ts.Outbox.Event.{OutboxEvent, OutboxDeliveryFailure, sanitize_outbox_event, sanitize_all}
use active_ts.Outbox.Event.Sanitize.{sanitize_outbox_event_idem}
use active_ts.Outbox.Protocol.{has, outbox_retry_event, outbox_dead_letter_event}
use active_ts.Errors.{ok, conflict, >>=-eq-ok, bind_guard, ok-injective}
use active_ts.Outbox.Memory.Defs.{ids, retry_events, dead_letter_events}
use active_ts.Outbox.Memory.Drain.{IsSane}
use active_ts.Outbox.Memory.Ids.{IsDistinct, IsDistinct-move}

pub All-append {ℓ κ} :
    {A : Type ℓ} (P : A → Type κ) (xs ys : List A) → All P xs → All P ys → All P (xs ++ ys)
All-append P [] ys p q = q
All-append P (x ∷ xs) ys p q = (p.0, All-append P xs ys p.1 q)

pub sanitize-IsSane :
    (e : OutboxEvent) {s : OutboxEvent} → sanitize_outbox_event false e ≡ ok s → IsSane s
sanitize-IsSane e h = (sanitize_outbox_event_idem false e h).2

retry_event-IsSane :
    (f : OutboxDeliveryFailure) {e : OutboxEvent} → outbox_retry_event f ≡ ok e → IsSane e
unfolding outbox_retry_event
retry_event-IsSane f {e} h = elim (Option-cases f.event) [
  | inl no_event ↦ cc
  | inr (old, at) ↦ elim (Option-cases f.retry_at) [
    | inl no_time ↦ cc
    | inr (time, at') ↦ sanitize-IsSane _ {s = e} (rw (at, at') at h)
  ]
]

dead_letter_event-IsSane :
    (f : OutboxDeliveryFailure) {e : OutboxEvent} → outbox_dead_letter_event f ≡ ok e → IsSane e
unfolding outbox_dead_letter_event
dead_letter_event-IsSane f {e} h = elim (Option-cases f.event) [
  | inl no_event ↦ cc
  | inr (old, at) ↦ sanitize-IsSane _ {s = e} (rw at at h)
]

pub sanitize_all-IsSane :
    (es : List OutboxEvent) {ss : List OutboxEvent} → sanitize_all es ≡ ok ss → All IsSane ss
unfolding sanitize_all
sanitize_all-IsSane [] h = rw (ok-injective (sym h)) tt
sanitize_all-IsSane (e ∷ es) h =
    let (s, first, r) = >>=-eq-ok (sanitize_outbox_event false e) _ h in
    let (rest, others, r') = >>=-eq-ok (sanitize_all es) _ r in
    rw (ok-injective (sym r')) (sanitize-IsSane e first, sanitize_all-IsSane es others)

pub sanitize_all-ok : (es : List OutboxEvent) → All IsSane es → sanitize_all es ≡ ok es
unfolding sanitize_all
sanitize_all-ok [] sane = refl
sanitize_all-ok (e ∷ es) sane = rw (sane.0, sanitize_all-ok es sane.1)

pub retry_events-IsSane :
    (fs : List OutboxDeliveryFailure) {es : List OutboxEvent}
    → retry_events fs ≡ ok es
    → All IsSane es
unfolding retry_events
retry_events-IsSane [] h = rw (ok-injective (sym h)) tt
retry_events-IsSane (f ∷ fs) h =
    let (s, first, r) = >>=-eq-ok (outbox_retry_event f) _ h in
    let (rest, others, r') = >>=-eq-ok (retry_events fs) _ r in
    rw (ok-injective (sym r')) (retry_event-IsSane f first, retry_events-IsSane fs others)

-- A batch of dead letters is sane, and its ids are new.
pub dead_letter_events-new :
    (existing : List String) (fs : List OutboxDeliveryFailure) {es : List OutboxEvent}
    → IsDistinct existing
    → dead_letter_events existing fs ≡ ok es
    → All IsSane es × IsDistinct (ids es ++ existing)
unfolding dead_letter_events ids
dead_letter_events-new existing [] d h = rw (ok-injective (sym h)) (tt, d)
dead_letter_events-new existing (f ∷ fs) d h =
    let (e, first, r) = >>=-eq-ok (outbox_dead_letter_event f) _ h in
    let (new, r₁) = bind_guard (not (has existing e.id)) conflict _ r in
    let (rest, others, r₂) = >>=-eq-ok (dead_letter_events (e.id ∷ existing) fs) _ r₁ in
    let (sane, distinct) =
      dead_letter_events-new (e.id ∷ existing) fs (ground (arith, new, d), d) others in
    rw (ok-injective (sym r₂))
      ((dead_letter_event-IsSane f first, sane), IsDistinct-move (ids rest) existing e.id distinct)
