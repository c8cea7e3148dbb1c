-- ===== src/Outbox/Store/Leasing.antt =====
-- src/core/outbox-store.ts: `lease` of StoreOutboxAdapter, among the calls of other workers. The pages
-- are those that the listing answers, up to the first that no other follows.
mod Refuses
pub mod Order
mod Blocks
mod Rounds
pub mod Grants
use active_ts.Prelude.{
  ℕ, ◌+◌, Bool, true, false, ◌&&◌, not, Option, none, some, List, [], ◌∷◌, ◌++◌, length,
  if◌then◌else◌,
}
use active_ts.Prelude.Text.{String}
use active_ts.DataValue.{DataValue}
use active_ts.Outbox.Event.{OutboxEvent, is_some}
use active_ts.Outbox.Protocol.{
  with_outbox_lease, is_outbox_lease_active, is_outbox_delivery_available,
  outbox_entity_order_check_keys, outbox_entity_order_block_keys, outbox_entity_order_keys_blocked,
  block_outbox_entity_order_keys, store_outbox_lease_ttl_ms,
}
use active_ts.Outbox.Memory.{normalize_limit, limit_reached}
use active_ts.Errors.{ActiveTsError, Result, ok, throw, ◌>>=◌}
use active_ts.Outbox.Store.Table.{Rows}
use active_ts.Outbox.Store.Leases.{current_outbox_event, claim_read, claim_write, is_lost, release}

-- What other workers do to the rows around the claim of an event: before its read, between its read and
-- its write, and before the row is read again.
pub record Others : Type 0 where
  pub before : OutboxEvent → Rows → Rows
  pub between : OutboxEvent → Rows → Rows
  pub afterwards : OutboxEvent → Rows → Rows

-- What the loop has so far.
pub record Batch : Type 0 where
  pub rows : Rows
  pub leased : List OutboxEvent
  pub blocked : List String

-- What a round comes to: `lost` is an error that is thrown as it is, `failed` one for which the batch
-- is released first.
pub data Round : Type 0 where
  passed claimed : Batch → Round
  lost : Rows → ActiveTsError → Round
  failed : Batch → ActiveTsError → Round

-- What a claim found and what it claimed.
abbrev pub Claim : Type 0
Claim = Option OutboxEvent × Option OutboxEvent

abbrev pub expires_at : ℕ → ℕ
expires_at now = now + store_outbox_lease_ttl_ms

unfoldable pub block : List String → Batch → Batch
block keys b = record b { blocked = block_outbox_entity_order_keys b.blocked keys }

unfoldable pub claim_finish :
    Rows → Option OutboxEvent × Bool → Result (Rows × Option OutboxEvent) → Rows × Result Claim
claim_finish rows read (throw e) = (rows, throw e)
claim_finish rows read (ok (rows', won)) = (rows', ok (read.0, won))

-- The keys of a row, if there is one.
unfoldable pub block_row : (String → String) → Option OutboxEvent → Batch → Result Batch
unfolding block
block_row digest none b = ok b
block_row digest (some e) b = do keys ← outbox_entity_order_block_keys digest e; ok (block keys b)

unfoldable pub leased_of : Rows × Result Batch → Rows × Result (List OutboxEvent)
leased_of (rows, throw x) = (rows, throw x)
leased_of (rows, ok b) = (rows, ok b.leased)

-- The tests before the claim.
unfoldable pub may_claim : ℕ → OutboxEvent → List String → Batch → Bool
may_claim now e check b =
    not (outbox_entity_order_keys_blocked b.blocked check)
    && (is_outbox_delivery_available e now && not (is_outbox_lease_active e now))

module _ (digest : String → String) (deep_equal : DataValue → DataValue → Bool) (others : Others)
    (token : String) (now : ℕ) where
  -- What follows the read of `claimOutboxLease`, with the calls of others before the write.
  unfoldable pub claim_then :
      OutboxEvent → Rows → Result (Option OutboxEvent × Bool) → Rows × Result Claim
  unfolding claim_finish
  claim_then e rows (throw x) = (rows, throw x)
  claim_then e rows (ok read) =
      let rows₂ = others.between e rows in
      claim_finish rows₂ read (claim_write deep_equal read token (expires_at now) rows₂)

  -- `claimOutboxLease`
  unfoldable pub claim_among : OutboxEvent → Rows → Rows × Result Claim
  unfolding claim_then
  claim_among e rows =
      let rows₁ = others.before e rows in claim_then e rows₁ (claim_read deep_equal e now rows₁)

  -- The `catch`: a claim that lost its row blocks the keys of what is stored now.
  unfoldable pub lease_caught : OutboxEvent → List String → ActiveTsError → Batch → Round
  unfolding block_row block
  lease_caught e keys x b =
      if is_lost x
      then (let rows₃ = others.afterwards e b.rows in
          elim (current_outbox_event e.id rows₃ >>= λ next.
          block_row digest next (block keys (record b { rows = rows₃ }))) [
            | ok b' ↦ passed b'
            | throw y ↦ lost rows₃ y
          ])
      else failed b x

  -- The `try` behind the claim.
  unfoldable pub lease_claimed : OutboxEvent → List String → Result Claim → Batch → Round
  unfolding block_row block lease_caught
  lease_claimed e keys (throw x) b = lease_caught e keys x b
  lease_claimed e keys (ok (current, none)) b = elim (block_row digest current (block keys b)) [
    | ok b' ↦ passed b'
    | throw x ↦ lease_caught e keys x (block keys b)
  ]
  lease_claimed e keys (ok (current, some won)) b =
      let b₁ = record b { leased = b.leased ++ won ∷ [] } in
      elim (block_row digest (some won) b₁) [
        | ok b' ↦ claimed b'
        | throw x ↦ lease_caught e keys x b₁
      ]

  unfoldable pub lease_try : OutboxEvent → List String → Batch → Round
  unfolding lease_claimed claim_among
  lease_try e keys b =
      let r = claim_among e b.rows in lease_claimed e keys r.1 (record b { rows = r.0 })

  unfoldable pub lease_place : OutboxEvent → List String → List String → Batch → Round
  unfolding lease_try block may_claim
  lease_place e check keys b =
      if is_some e.dead_lettered_at
      then passed b
      else if may_claim now e check b
      then lease_try e keys b
      else passed (block keys b)

  -- A round of the loop.
  unfoldable pub lease_one : OutboxEvent → Batch → Round
  unfolding lease_place
  lease_one e b = elim (outbox_entity_order_check_keys digest e) [
    | throw x ↦ lost b.rows x
    | ok check ↦ elim (outbox_entity_order_block_keys digest e) [
      | throw x ↦ lost b.rows x
      | ok keys ↦ lease_place e check keys b
    ]
  ]

  -- The batch, with the event as it would have been claimed, is released; an AggregateError stands for
  -- its first error.
  unfoldable pub release_claimed : OutboxEvent → Batch → ActiveTsError → Rows × Result Batch
  release_claimed e b x =
      ((release (b.leased ++ with_outbox_lease e token (expires_at now) ∷ []) b.rows).0, throw x)

  -- The loop over a page.
  unfoldable pub lease_page : Option ℕ → List OutboxEvent → Batch → Rows × Result Batch
  unfolding lease_one release_claimed
  lease_page limit [] b = (b.rows, ok b)
  lease_page limit (e ∷ es) b = elim (lease_one e b) [
    | passed b' ↦ lease_page limit es b'
    | lost rows x ↦ (rows, throw x)
    | failed b' x ↦ release_claimed e b' x
    | claimed b' ↦ elim (limit_reached limit (length b'.leased)) [
      | true ↦ (b'.rows, ok b')
      | false ↦ lease_page limit es b'
    ]
  ]

  -- The loop over the pages.
  unfoldable pub lease_pages : Option ℕ → List (List OutboxEvent) → Batch → Rows × Result Batch
  unfolding lease_page
  lease_pages limit [] b = (b.rows, ok b)
  lease_pages limit (page ∷ pages) b = elim (limit_reached limit (length b.leased)) [
    | true ↦ (b.rows, ok b)
    | false ↦
        let r = lease_page limit page b in
        elim r.1 [ throw x ↦ (r.0, throw x) | ok b' ↦ lease_pages limit pages b' ]
  ]

  -- `lease`
  unfoldable pub lease :
      Option ℕ → List (List OutboxEvent) → Rows → Rows × Result (List OutboxEvent)
  unfolding leased_of lease_pages
  lease limit pages rows = elim (normalize_limit limit) [
    | throw x ↦ (rows, throw x)
    | ok safe_limit ↦
        leased_of (lease_pages safe_limit pages (record { rows = rows; leased = []; blocked = [] }))
  ]
