-- ===== src/Outbox/Store/Leasing/Order.antt =====
-- src/core/outbox-store.ts, `lease`: what it promises of the events that it leases.
use active_ts.Prelude.{ℕ, ◌≡◌, true, false, none, some, List, [], ◌∷◌, ◌++◌}
use active_ts.Prelude.Text.{String}
use active_ts.Outbox.Event.{OutboxEvent, is_some}
use active_ts.Outbox.Protocol.{
  with_outbox_lease, is_outbox_lease_active, is_outbox_delivery_available,
  outbox_entity_order_check_keys, outbox_entity_order_block_keys, outbox_entity_order_keys_blocked,
}
use active_ts.Errors.{ok}
use active_ts.Outbox.Store.Table.{Rows}
use active_ts.Outbox.Store.Inversion.{IsUpdate}
use active_ts.Outbox.Protocol.{outbox_expected_version}
use active_ts.Outbox.Store.Leases.{current_outbox_event}
use active_ts.Outbox.Store.Leasing.{expires_at}

module _ (token : String) (now : ℕ) where
  -- A claim of `e` read a row without an active lease, and `won` is that row with the lease added. It was
  -- written over a row of the version that was read, though others may have written since.
  pub record IsClaimed (e won : OutboxEvent) : Type 0 where
    pub read_at : Rows
    pub current : OutboxEvent
    pub found : current_outbox_event e.id read_at ≡ ok (some current)
    pub inactive : is_outbox_lease_active current now ≡ false
    pub leased : won ≡ with_outbox_lease current token (expires_at now)
    pub write_at : Rows
    pub written : Rows
    pub key : String
    pub row : OutboxEvent
    pub clean : OutboxEvent
    pub update :
        IsUpdate current.id key won (outbox_expected_version current) write_at written row clean

module _ (digest : String → String) (token : String) (now : ℕ) where
  -- `Leasing held es ds`: of the events `es`, in their order, `ds` are leased, where `held` are the block
  -- keys of the live events leased or left behind before, and those after the last one are left.
  pub data Leasing : List String → List OutboxEvent → List OutboxEvent → Type 0 where
    finish : {held : List String} {es : List OutboxEvent} → Leasing held es []
    grant :
        {held : List String} {e won : OutboxEvent} {es ds : List OutboxEvent}
        (check keys : List String)
        → e.dead_lettered_at ≡ none
        → is_outbox_delivery_available e now ≡ true
        → is_outbox_lease_active e now ≡ false
        → outbox_entity_order_check_keys digest e ≡ ok check
        → outbox_entity_order_keys_blocked held check ≡ false
        → IsClaimed token now e won
        → outbox_entity_order_block_keys digest won ≡ ok keys
        → Leasing (keys ++ held) es ds
        → Leasing held (e ∷ es) (won ∷ ds)
    skip_dead :
        {held : List String} {e : OutboxEvent} {es ds : List OutboxEvent}
        → is_some e.dead_lettered_at ≡ true
        → Leasing held es ds
        → Leasing held (e ∷ es) ds
    -- The keys of the event are blocked, and those of what is stored, if it differs.
    leave :
        {held : List String} {e : OutboxEvent} {es ds : List OutboxEvent} (keys more : List String)
        → outbox_entity_order_block_keys digest e ≡ ok keys
        → Leasing (more ++ (keys ++ held)) es ds
        → Leasing held (e ∷ es) ds
