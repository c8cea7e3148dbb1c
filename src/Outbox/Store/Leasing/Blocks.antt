-- ===== src/Outbox/Store/Leasing/Blocks.antt =====
-- src/core/outbox-store.ts, `lease`: how a round extends the batch.
use active_ts.Prelude.{ℕ, ◌≡◌, ◌∙◌, ap, sym, false, Option, none, some, List, [], ◌++◌, inl, inr}
use active_ts.Prelude.Text.{String}
use active_ts.Outbox.Event.{OutboxEvent}
use active_ts.Outbox.Protocol.{
  with_outbox_lease, outbox_entity_order_block_keys, block_outbox_entity_order_keys,
  outbox_expected_version,
}
use active_ts.Errors.{ActiveTsError, Result-cases, ok, throw, >>=-eq-ok, ok-injective}
use active_ts.Outbox.Store.Table.{Rows, row_update}
use active_ts.Outbox.Store.Leases.{write_lease, is_lost}
use active_ts.Outbox.Store.Leasing.Refuses.{block_keys-IsRefusal, IsRefusal-throw}
use active_ts.Outbox.Store.Leasing.{Batch, block, block_row}

pub write_lease-is :
    (current : OutboxEvent) (token : String) (expires : ℕ) (rows : Rows) {rows' : Rows}
    {won : OutboxEvent}
    → write_lease current token expires rows ≡ ok (rows', won)
    → (won ≡ with_outbox_lease current token expires)
      × (row_update current.id won (outbox_expected_version current) rows ≡ ok rows')
unfolding write_lease
write_lease-is current token expires rows h =
    let (rows₁, updated, h₁) =
      >>=-eq-ok
        (row_update current.id (with_outbox_lease current token expires)
          (outbox_expected_version current) rows)
        _ h in
    let is_won = ap (λ y. y.1) (ok-injective (sym h₁)) in
    (is_won, rw is_won (updated ∙ ap (λ y. ok y.0) (ok-injective h₁)))

pub block_row-lem :
    (digest : String → String) (o : Option OutboxEvent) (b : Batch) {b' : Batch}
    → block_row digest o b ≡ ok b'
    → (more : List String) × (b'.leased ≡ b.leased) × (b'.blocked ≡ more ++ b.blocked)
unfolding block_row block block_outbox_entity_order_keys
block_row-lem digest none b h =
    let same = ok-injective (sym h) in
    ([], ap (λ (x : Batch). x.leased) same, ap (λ (x : Batch). x.blocked) same)
block_row-lem digest (some e) b h =
    let (keys, has_keys, h₁) = >>=-eq-ok (outbox_entity_order_block_keys digest e) _ h in
    let same = ok-injective (sym h₁) in
    (keys, ap (λ (x : Batch). x.leased) same, ap (λ (x : Batch). x.blocked) same)

pub block_row-throw :
    (digest : String → String) (o : Option OutboxEvent) (b : Batch) {x : ActiveTsError}
    → block_row digest o b ≡ throw x
    → is_lost x ≡ false
unfolding block_row
block_row-throw digest none b h = absurd (cc h)
block_row-throw digest (some e) b h =
    elim (Result-cases (outbox_entity_order_block_keys digest e)) [
      | inl (keys, has_keys) ↦ absurd (cc (rw (has_keys, block_row) at h))
      | inr (y, failing) ↦
          IsRefusal-throw (outbox_entity_order_block_keys digest e) (block_keys-IsRefusal digest e)
            (failing ∙ cc (rw (failing, block_row) at h))
    ]

pub block_row-some :
    (digest : String → String) (e : OutboxEvent) (b : Batch) {b' : Batch}
    → block_row digest (some e) b ≡ ok b'
    → (keys : List String) × (outbox_entity_order_block_keys digest e ≡ ok keys)
      × (b'.leased ≡ b.leased)
      × (b'.blocked ≡ keys ++ b.blocked)
unfolding block_row block block_outbox_entity_order_keys
block_row-some digest e b h =
    let (keys, has_keys, h₁) = >>=-eq-ok (outbox_entity_order_block_keys digest e) _ h in
    let same = ok-injective (sym h₁) in
    (keys, has_keys, ap (λ (x : Batch). x.leased) same, ap (λ (x : Batch). x.blocked) same)
