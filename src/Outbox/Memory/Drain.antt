-- ===== src/Outbox/Memory/Drain.antt =====
-- src/core/outbox-memory.ts, `drain`: the events come out in the order that each entity needs.
use active_ts.Prelude.{
  ℕ, ◌≡◌, refl, ◌∙◌, ap, sym, true, false, Option, none, some, List, [], ◌∷◌, ◌++◌, All, arith,
  length, Bool-cases, inl, inr, ◌⊎◌,
}
use mathlib.Core.List.{append-nil, append_assoc}
use active_ts.Prelude.Text.{String}
use active_ts.Outbox.Event.{OutboxEvent, is_some, sanitize_outbox_event}
use active_ts.Outbox.Protocol.{
  outbox_entity_order_check_keys, outbox_entity_order_block_keys, outbox_entity_order_keys_blocked,
  block_outbox_entity_order_keys, is_outbox_delivery_available,
}
use active_ts.Errors.{ok, >>=-eq-ok, ok-injective}
use active_ts.Outbox.Order.{
  Delivery, done, deliver, skip_dead, leave, Within, not_blocked-Within, Within-append,
  Within-blocked,
}
use active_ts.Outbox.Memory.Defs.{
  Drain, place, consider, consider_live, drain_one, drain_loop, limit_reached, no_drain,
}

-- The event is stored as sanitizing leaves it.
abbrev pub IsSane : OutboxEvent → Type 0
IsSane e = sanitize_outbox_event false e ≡ ok e

not_some {ℓ} : {A : Type ℓ} {o : Option A} → is_some o ≡ false → o ≡ none
not_some {o = none} h = refl
not_some {o = some a} h = cc

module _ (digest : String → String) where
  -- The entity of the event goes by one key, for checking and for blocking.
  abbrev pub HasOneKey : OutboxEvent → Type 0
  HasOneKey e =
      (k : String) × (outbox_entity_order_check_keys digest e ≡ ok (k ∷ []))
      × (outbox_entity_order_block_keys digest e ≡ ok (k ∷ []))

  module _ (limit : Option ℕ) (now : ℕ) where
    -- What one round does with an event.
    pub data Outcome (e : OutboxEvent) (d d' : Drain) : Type 0 where
      dead :
          is_some e.dead_lettered_at ≡ true
          → d' ≡ record d { retained = d.retained ++ e ∷ [] }
          → Outcome e d d'
      drained :
          (check : List String)
          → e.dead_lettered_at ≡ none
          → outbox_entity_order_check_keys digest e ≡ ok check
          → limit_reached limit (length d.drained) ≡ false
          → outbox_entity_order_keys_blocked d.blocked check ≡ false
          → is_outbox_delivery_available e now ≡ true
          → d' ≡ record d { drained = d.drained ++ e ∷ [] }
          → Outcome e d d'
      held_back :
          (check block : List String)
          → e.dead_lettered_at ≡ none
          → outbox_entity_order_check_keys digest e ≡ ok check
          → outbox_entity_order_block_keys digest e ≡ ok block
          → (limit_reached limit (length d.drained) ≡ true)
            ⊎ (outbox_entity_order_keys_blocked d.blocked check ≡ true)
          → d' ≡ record d { retained = d.retained ++ e ∷ [] }
          → Outcome e d d'
      postponed :
          (block : List String)
          → e.dead_lettered_at ≡ none
          → outbox_entity_order_block_keys digest e ≡ ok block
          → is_outbox_delivery_available e now ≡ false
          → d' ≡ record d { retained = d.retained ++ e ∷ []; blocked = block ++ d.blocked }
          → Outcome e d d'

    place-Outcome :
        (e : OutboxEvent) (d : Drain) (check block : List String) {d' : Drain}
        → e.dead_lettered_at ≡ none
        → outbox_entity_order_check_keys digest e ≡ ok check
        → outbox_entity_order_block_keys digest e ≡ ok block
        → place digest limit now e check block d ≡ d'
        → Outcome e d d'
    unfolding place block_outbox_entity_order_keys
    place-Outcome e d check block live c b h =
        elim (Bool-cases (limit_reached limit (length d.drained))) [
          | inl full ↦ held_back check block live c b (inl full) (ground arith)
          | inr room ↦ elim (Bool-cases (outbox_entity_order_keys_blocked d.blocked check)) [
            | inl stopped ↦ held_back check block live c b (inr stopped) (ground arith)
            | inr free ↦ elim (Bool-cases (is_outbox_delivery_available e now)) [
              | inl available ↦ drained check live c room free available (ground arith)
              | inr later ↦ postponed block live b later (ground arith)
            ]
          ]
        ]

    consider_live-Outcome :
        (e : OutboxEvent) (d : Drain) {d' : Drain}
        → e.dead_lettered_at ≡ none
        → consider_live digest limit now e d ≡ ok d'
        → Outcome e d d'
    unfolding consider_live
    consider_live-Outcome e d live h =
        let (check, c, r) = >>=-eq-ok (outbox_entity_order_check_keys digest e) _ h in
        let (block, b, r') = >>=-eq-ok (outbox_entity_order_block_keys digest e) _ r in
        place-Outcome e d check block live c b (ok-injective r')

    consider-Outcome :
        (e : OutboxEvent) (d : Drain) {d' : Drain}
        → consider digest limit now e d ≡ ok d'
        → Outcome e d d'
    unfolding consider
    consider-Outcome e d {d'} h = elim (Bool-cases (is_some e.dead_lettered_at)) [
      | inl gone ↦ dead gone (ground arith)
      | inr live ↦ consider_live-Outcome e d (not_some live) (rw (live, consider) at h)
    ]

    pub drain_one-Outcome :
        (e : OutboxEvent) (d : Drain) {d' : Drain}
        → IsSane e
        → drain_one digest limit now e d ≡ ok d'
        → Outcome e d d'
    unfolding drain_one
    drain_one-Outcome e d sane h = consider-Outcome e d (rw (sane, drain_one) at h)

    -- All live events left behind are blocked, or nothing more is drained.
    abbrev Covers : List String → Drain → Type 0
    Covers held d = (limit_reached limit (length d.drained) ≡ true) ⊎ Within held d.blocked

    -- What is added from `d` to `d'` is delivered and left behind as the order demands.
    abbrev Extends : List String → List OutboxEvent → Drain → Drain → Type 0
    Extends held es d d' =
        (ds rs : List OutboxEvent) × (d'.drained ≡ d.drained ++ ds)
        × (d'.retained ≡ d.retained ++ rs)
        × Delivery digest now held es ds rs

    Extends-retained :
        {held held' : List String} (e : OutboxEvent) (es : List OutboxEvent) (d d₁ d' : Drain)
        → d₁.drained ≡ d.drained
        → d₁.retained ≡ d.retained ++ e ∷ []
        → ((ds rs : List OutboxEvent)
            → Delivery digest now held' es ds rs
            → Delivery digest now held (e ∷ es) ds (e ∷ rs))
        → Extends held' es d₁ d'
        → Extends held (e ∷ es) d d'
    Extends-retained e es d d₁ d' p q step (ds, rs, p', q', order) = (
      ds,
      e ∷ rs,
      p' ∙ ap (λ xs. xs ++ ds) p,
      q' ∙ (ap (λ xs. xs ++ rs) q ∙ append_assoc d.retained (e ∷ []) rs),
      step ds rs order,
    )

    Extends-drained :
        {held : List String} (e : OutboxEvent) (es : List OutboxEvent) (d d₁ d' : Drain)
        → d₁.drained ≡ d.drained ++ e ∷ []
        → d₁.retained ≡ d.retained
        → ((ds rs : List OutboxEvent)
            → Delivery digest now held es ds rs
            → Delivery digest now held (e ∷ es) (e ∷ ds) rs)
        → Extends held es d₁ d'
        → Extends held (e ∷ es) d d'
    Extends-drained e es d d₁ d' p q step (ds, rs, p', q', order) = (
      e ∷ ds,
      rs,
      p' ∙ (ap (λ xs. xs ++ ds) p ∙ append_assoc d.drained (e ∷ []) ds),
      q' ∙ ap (λ xs. xs ++ rs) q,
      step ds rs order,
    )

    Covers-same :
        (held : List String) (d d₁ : Drain)
        → d₁.drained ≡ d.drained
        → d₁.blocked ≡ d.blocked
        → Covers held d
        → Covers held d₁
    Covers-same held d d₁ p q (inl full) = inl (rw p full)
    Covers-same held d d₁ p q (inr w) = inr (rw q w)

    Covers-room :
        (held : List String) (d : Drain)
        → limit_reached limit (length d.drained) ≡ false
        → Covers held d
        → Within held d.blocked
    Covers-room held d room (inl full) = cc
    Covers-room held d room (inr w) = w

    -- An event that is blocked has its one key among the blocked ones.
    Covers-held :
        (held : List String) (e : OutboxEvent) (d : Drain) {check block : List String}
        → HasOneKey e
        → outbox_entity_order_check_keys digest e ≡ ok check
        → outbox_entity_order_block_keys digest e ≡ ok block
        → (limit_reached limit (length d.drained) ≡ true)
          ⊎ (outbox_entity_order_keys_blocked d.blocked check ≡ true)
        → Covers held d
        → Covers (block ++ held) d
    Covers-held held e d one ck bk (inl full) c = inl full
    Covers-held held e d one ck bk (inr stopped) (inl full) = inl full
    Covers-held held e d (k, one_check, one_block) ck bk (inr stopped) (inr w) =
        let check_is = ok-injective (sym ck ∙ one_check) in
        let block_is = ok-injective (sym bk ∙ one_block) in
        inr (rw block_is (Within-blocked held d.blocked k w (rw check_is at stopped)))

    Covers-postponed :
        (held block : List String) (d d₁ : Drain)
        → d₁.drained ≡ d.drained
        → d₁.blocked ≡ block ++ d.blocked
        → Covers held d
        → Covers (block ++ held) d₁
    Covers-postponed held block d d₁ p q (inl full) = inl (rw p full)
    Covers-postponed held block d d₁ p q (inr w) = inr (rw q (Within-append block held d.blocked w))

    -- What the loop adds is delivered and left behind as the order demands.
    drain_loop-Extends :
        (held : List String) (es : List OutboxEvent) (d : Drain) {d' : Drain}
        → All IsSane es
        → All HasOneKey es
        → Covers held d
        → drain_loop digest limit now es d ≡ ok d'
        → Extends held es d d'
    unfolding drain_loop
    drain_loop-Extends held [] d sane one c h =
        ([], [], ground (arith, append-nil d.drained), ground (arith, append-nil d.retained), done)
    drain_loop-Extends held (e ∷ es) d {d'} sane one c h =
        let (d₁, first, rest) = >>=-eq-ok (drain_one digest limit now e d) _ h in
        elim (drain_one-Outcome e d sane.0 first) [
          | dead gone at ↦
              Extends-retained e es d d₁ d' (ap (λ x. x.drained) at) (ap (λ x. x.retained) at)
                (λ ds rs. skip_dead gone)
                (drain_loop-Extends held es d₁ sane.1 one.1
                  (Covers-same held d d₁ (ap (λ x. x.drained) at) (ap (λ x. x.blocked) at) c) rest)
          | drained check live ck room free available at ↦
              let w = Covers-room held d room c in
              Extends-drained e es d d₁ d' (ap (λ x. x.drained) at) (ap (λ x. x.retained) at)
                (λ ds rs.
                  deliver check live available ck (not_blocked-Within held d.blocked check w free))
                (drain_loop-Extends held es d₁ sane.1 one.1 (inr (rw (ap (λ x. x.blocked) at) w))
                  rest)
          | held_back check block live ck bk why at ↦
              Extends-retained e es d d₁ d' (ap (λ x. x.drained) at) (ap (λ x. x.retained) at)
                (λ ds rs. leave block live bk)
                (drain_loop-Extends (block ++ held) es d₁ sane.1 one.1
                  (Covers-same (block ++ held) d d₁ (ap (λ x. x.drained) at)
                    (ap (λ x. x.blocked) at) (Covers-held held e d one.0 ck bk why c))
                  rest)
          | postponed block live bk later at ↦
              Extends-retained e es d d₁ d' (ap (λ x. x.drained) at) (ap (λ x. x.retained) at)
                (λ ds rs. leave block live bk)
                (drain_loop-Extends (block ++ held) es d₁ sane.1 one.1
                  (Covers-postponed held block d d₁ (ap (λ x. x.drained) at)
                    (ap (λ x. x.blocked) at) c)
                  rest)
        ]

    -- Draining events that go by one key each, as stored, delivers and leaves behind as the order demands,
    -- and every event is either delivered or left.
    pub drain_loop-Delivery :
        (es : List OutboxEvent) {d : Drain}
        → All IsSane es
        → All HasOneKey es
        → drain_loop digest limit now es no_drain ≡ ok d
        → Delivery digest now [] es d.drained d.retained
    drain_loop-Delivery es {d} sane one h =
        let (ds, rs, p, q, order) =
          drain_loop-Extends [] es no_drain sane one (inr (λ k a. cc)) h in
        rw (p, q) order
