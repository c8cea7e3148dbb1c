-- ===== src/Outbox/Order.antt =====
-- What the deliveries of src/core/outbox-memory.ts and src/core/outbox-store.ts promise about order: an event
-- may be delivered only if it is available, and if no live event before it that shares a key with it
-- was left behind.
use active_ts.Prelude.{ℕ, ◌≡◌, refl, true, false, none, List, [], ◌∷◌, ◌++◌, arith, if◌then◌else◌}
use active_ts.Prelude.Text.{String, str_eq_iff}
use active_ts.Outbox.Event.{OutboxEvent, is_some}
use active_ts.Outbox.Protocol.{
  has, outbox_entity_order_check_keys, outbox_entity_order_block_keys,
  outbox_entity_order_keys_blocked, is_outbox_delivery_available,
}
use active_ts.Errors.{ok}

module _ (digest : String → String) (now : ℕ) where
  -- `Delivery held es ds rs`: of the events `es`, in their order, `ds` are delivered and `rs` are left,
  -- where `held` are the block keys of the live events left behind before.
  pub data Delivery
      : List String → List OutboxEvent → List OutboxEvent → List OutboxEvent → Type 0 where
    done : {held : List String} → Delivery held [] [] []
    deliver :
        {held : List String} {e : OutboxEvent} {es ds rs : List OutboxEvent} (check : List String)
        → e.dead_lettered_at ≡ none
        → is_outbox_delivery_available e now ≡ true
        → outbox_entity_order_check_keys digest e ≡ ok check
        → outbox_entity_order_keys_blocked held check ≡ false
        → Delivery held es ds rs
        → Delivery held (e ∷ es) (e ∷ ds) rs
    skip_dead :
        {held : List String} {e : OutboxEvent} {es ds rs : List OutboxEvent}
        → is_some e.dead_lettered_at ≡ true
        → Delivery held es ds rs
        → Delivery held (e ∷ es) ds (e ∷ rs)
    leave :
        {held : List String} {e : OutboxEvent} {es ds rs : List OutboxEvent} (block : List String)
        → e.dead_lettered_at ≡ none
        → outbox_entity_order_block_keys digest e ≡ ok block
        → Delivery (block ++ held) es ds rs
        → Delivery held (e ∷ es) ds (e ∷ rs)

pub has-append :
    (xs ys : List String) (k : String) → has (xs ++ ys) k ≡ (if has xs k then true else has ys k)
unfolding has
has-append [] ys k = refl
has-append (x ∷ xs) ys k = ground (arith, has-append xs ys k)

-- Every key of the first set is in the second.
abbrev pub Within : List String → List String → Type 0
Within xs ys = (k : String) → has xs k ≡ true → has ys k ≡ true

-- What no larger set blocks, the smaller does not block.
pub not_blocked-Within :
    (xs ys ks : List String)
    → Within xs ys
    → outbox_entity_order_keys_blocked ys ks ≡ false
    → outbox_entity_order_keys_blocked xs ks ≡ false
unfolding outbox_entity_order_keys_blocked
not_blocked-Within xs ys [] w h = refl
not_blocked-Within xs ys (k ∷ ks) w h = ground (arith, w k, not_blocked-Within xs ys ks w)

pub Within-append : (zs xs ys : List String) → Within xs ys → Within (zs ++ xs) (zs ++ ys)
Within-append zs xs ys w k h = ground (arith, has-append zs xs k, has-append zs ys k, w k)

pub Within-blocked :
    (xs ys : List String) (key : String)
    → Within xs ys
    → outbox_entity_order_keys_blocked ys (key ∷ []) ≡ true
    → Within (key ∷ xs) ys
unfolding outbox_entity_order_keys_blocked has
Within-blocked xs ys key w h k m = ground (arith, w k, str_eq_iff key k)
