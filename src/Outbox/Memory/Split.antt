-- ===== src/Outbox/Memory/Split.antt =====
-- src/core/outbox-memory.ts, `drain`: a drain parts the stored events into those it returns and those it
-- keeps, for events with any number of keys.
use active_ts.Prelude.{
  ℕ, ◌≡◌, refl, ◌∙◌, ap, true, Option, List, [], ◌∷◌, ◌++◌, All, arith, if◌then◌else◌,
}
use mathlib.Core.List.{append-nil, append_assoc}
use active_ts.Prelude.Text.{String, str_eq}
use active_ts.Outbox.Event.{OutboxEvent}
use active_ts.Outbox.Protocol.{has}
use active_ts.Outbox.Order.{has-append}
use active_ts.Errors.{ok, >>=-eq-ok}
use active_ts.Outbox.Memory.Defs.{Drain, ids, drain_one, drain_loop, no_drain}
use active_ts.Outbox.Memory.Drain.{IsSane, dead, drained, held_back, postponed, drain_one-Outcome}
use active_ts.Outbox.Memory.Ids.{IsDistinct, IsDistinct-insert}

-- `es` is `ds` and `rs`, each in its order.
pub data Split : List OutboxEvent → List OutboxEvent → List OutboxEvent → Type 0 where
  nothing : Split [] [] []
  out :
      {e : OutboxEvent} {es ds rs : List OutboxEvent} → Split es ds rs → Split (e ∷ es) (e ∷ ds) rs
  kept :
      {e : OutboxEvent} {es ds rs : List OutboxEvent} → Split es ds rs → Split (e ∷ es) ds (e ∷ rs)

pub Split-All {κ} :
    (P : OutboxEvent → Type κ) {es ds rs : List OutboxEvent}
    → Split es ds rs
    → All P es
    → All P ds × All P rs
Split-All P nothing a = (tt, tt)
Split-All P (out s) a = let (p, q) = Split-All P s a.1 in ((a.0, p), q)
Split-All P (kept s) a = let (p, q) = Split-All P s a.1 in (p, (a.0, q))

has-Split :
    {es ds rs : List OutboxEvent} (k : String)
    → Split es ds rs
    → has (ids ds ++ ids rs) k ≡ has (ids es) k
unfolding has ids
has-Split k nothing = refl
has-Split k (out {e = e} s) = ap (λ b. if str_eq e.id k then true else b) (has-Split k s)
has-Split k (kept {e = e} {ds = ds} {rs = rs} s) =
    ground
      (arith, has-Split k s, has-append (ids ds) (ids rs) k, has-append (ids ds) (e.id ∷ ids rs) k)

pub IsDistinct-Split :
    {es ds rs : List OutboxEvent}
    → Split es ds rs
    → IsDistinct (ids es)
    → IsDistinct (ids ds ++ ids rs)
unfolding ids
IsDistinct-Split nothing d = tt
IsDistinct-Split (out {e = e} s) d = (has-Split e.id s ∙ d.0, IsDistinct-Split s d.1)
IsDistinct-Split (kept {e = e} {ds = ds} {rs = rs} s) d =
    IsDistinct-insert (ids ds) (ids rs) e.id (IsDistinct-Split s d.1) (has-Split e.id s ∙ d.0)

pub IsDistinct-right : (xs ys : List String) → IsDistinct (xs ++ ys) → IsDistinct ys
IsDistinct-right [] ys d = d
IsDistinct-right (x ∷ xs) ys d = IsDistinct-right xs ys d.1

module _ (digest : String → String) (limit : Option ℕ) (now : ℕ) where
  -- What is added from `d` to `d'`.
  abbrev Adds : List OutboxEvent → Drain → Drain → Type 0
  Adds es d d' =
      (ds rs : List OutboxEvent) × (d'.drained ≡ d.drained ++ ds)
      × (d'.retained ≡ d.retained ++ rs)
      × Split es ds rs

  Adds-kept :
      (e : OutboxEvent) (es : List OutboxEvent) (d d₁ d' : Drain)
      → d₁.drained ≡ d.drained
      → d₁.retained ≡ d.retained ++ e ∷ []
      → Adds es d₁ d'
      → Adds (e ∷ es) d d'
  Adds-kept e es d d₁ d' p q (ds, rs, p', q', s) = (
    ds,
    e ∷ rs,
    p' ∙ ap (λ xs. xs ++ ds) p,
    q' ∙ (ap (λ xs. xs ++ rs) q ∙ append_assoc d.retained (e ∷ []) rs),
    kept s,
  )

  Adds-out :
      (e : OutboxEvent) (es : List OutboxEvent) (d d₁ d' : Drain)
      → d₁.drained ≡ d.drained ++ e ∷ []
      → d₁.retained ≡ d.retained
      → Adds es d₁ d'
      → Adds (e ∷ es) d d'
  Adds-out e es d d₁ d' p q (ds, rs, p', q', s) = (
    e ∷ ds,
    rs,
    p' ∙ (ap (λ xs. xs ++ ds) p ∙ append_assoc d.drained (e ∷ []) ds),
    q' ∙ ap (λ xs. xs ++ rs) q,
    out s,
  )

  drain_loop-Adds :
      (es : List OutboxEvent) (d : Drain) {d' : Drain}
      → All IsSane es
      → drain_loop digest limit now es d ≡ ok d'
      → Adds es d d'
  unfolding drain_loop
  drain_loop-Adds [] d sane h =
      ([], [], ground (arith, append-nil d.drained), ground (arith, append-nil d.retained), nothing)
  drain_loop-Adds (e ∷ es) d {d'} sane h =
      let (d₁, first, rest) = >>=-eq-ok (drain_one digest limit now e d) _ h in
      let adds = drain_loop-Adds es d₁ {d' = d'} sane.1 rest in
      elim (drain_one-Outcome digest limit now e d sane.0 first) [
        | dead gone at ↦
            Adds-kept e es d d₁ d' (ap (λ x. x.drained) at) (ap (λ x. x.retained) at) adds
        | drained check live ck room free available at ↦
            Adds-out e es d d₁ d' (ap (λ x. x.drained) at) (ap (λ x. x.retained) at) adds
        | held_back check block live ck bk why at ↦
            Adds-kept e es d d₁ d' (ap (λ x. x.drained) at) (ap (λ x. x.retained) at) adds
        | postponed block live bk later at ↦
            Adds-kept e es d d₁ d' (ap (λ x. x.drained) at) (ap (λ x. x.retained) at) adds
      ]

  pub drain_loop-Split :
      (es : List OutboxEvent) {d : Drain}
      → All IsSane es
      → drain_loop digest limit now es no_drain ≡ ok d
      → Split es d.drained d.retained
  drain_loop-Split es {d} sane h =
      let (ds, rs, p, q, s) = drain_loop-Adds es no_drain {d' = d} sane h in rw (p, q) s
