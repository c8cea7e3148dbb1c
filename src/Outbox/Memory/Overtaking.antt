-- ===== src/Outbox/Memory/Overtaking.antt =====
-- src/core/outbox-memory.ts, `drain`: an event that is held back because its keys are blocked does not
-- block its other keys.
use active_ts.Prelude.{ℕ, ◌≡◌, true, false, none, List, [], ◌∷◌}
use active_ts.Prelude.Text.{String, str_eq, str_eq_refl}
use active_ts.Outbox.Event.{OutboxEvent, is_some}
use active_ts.Outbox.Protocol.{
  has, outbox_entity_order_check_keys, outbox_entity_order_block_keys,
  outbox_entity_order_keys_blocked, block_outbox_entity_order_keys, is_outbox_delivery_available,
}
use active_ts.Errors.{ok}
use active_ts.Outbox.Memory.Defs.{
  place, consider, consider_live, drain_one, drain_loop, normalize_limit, drain,
}
use active_ts.Outbox.Memory.Drain.{IsSane}

-- A live event with its keys for checking and for blocking.
pub record IsLive (digest : String → String) (e : OutboxEvent) (keys : List String) : Type 0 where
  pub sane : IsSane e
  pub live : is_some e.dead_lettered_at ≡ false
  pub check : outbox_entity_order_check_keys digest e ≡ ok keys
  pub block : outbox_entity_order_block_keys digest e ≡ ok keys

-- If a live event is not available yet and has one key, a second live event has this key and another,
-- and a third, available live event has only that other key, a drain without a limit delivers the
-- third, though the second, which shares its key and comes before it, is left behind.
pub drain_overtakes :
    (digest : String → String) (now : ℕ) (first second third : OutboxEvent) (k₁ k₂ : String)
    (dead : List OutboxEvent)
    → IsLive digest first (k₁ ∷ [])
    → IsLive digest second (k₁ ∷ k₂ ∷ [])
    → IsLive digest third (k₂ ∷ [])
    → is_outbox_delivery_available first now ≡ false
    → is_outbox_delivery_available third now ≡ true
    → str_eq k₁ k₂ ≡ false
    → drain digest none now (record { events = first ∷ second ∷ third ∷ []; dead_letters = dead })
      ≡ ok (record { events = first ∷ second ∷ []; dead_letters = dead }, third ∷ [])
unfolding drain normalize_limit drain_loop drain_one consider consider_live place has
    outbox_entity_order_keys_blocked block_outbox_entity_order_keys
drain_overtakes digest now first second third k₁ k₂ dead a b c later available apart = rw (
  a.sane,
  a.live,
  a.check,
  a.block,
  later,
  b.sane,
  b.live,
  b.check,
  b.block,
  str_eq_refl k₁,
  c.sane,
  c.live,
  c.check,
  c.block,
  apart,
  available,
)
