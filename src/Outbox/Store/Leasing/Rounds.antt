-- ===== src/Outbox/Store/Leasing/Rounds.antt =====
-- src/core/outbox-store.ts, `lease`: a round of its loop keeps the order of the leases.
use active_ts.Prelude.{
  ℕ, ◌≡◌, refl, ◌∙◌, ap, Bool, true, false, Option, none, some, List, [], ◌∷◌, ◌++◌, Bool-cases,
  inl, inr, arith,
}
use active_ts.Prelude.Text.{String}
use active_ts.DataValue.{DataValue}
use active_ts.Outbox.Event.{OutboxEvent, is_some}
use active_ts.Outbox.Protocol.{
  is_outbox_lease_active, is_outbox_delivery_available, outbox_expected_version,
  outbox_entity_order_check_keys, outbox_entity_order_block_keys, outbox_entity_order_keys_blocked,
  block_outbox_entity_order_keys,
}
use active_ts.Errors.{
  ActiveTsError, Result, Result-cases, ok, throw, ◌>>=◌, >>=-eq-ok, ok-injective,
}
use active_ts.Outbox.Store.Table.{Rows}
use active_ts.Outbox.Store.Leases.{current_outbox_event, claim_read, claim_write, is_lost}
use active_ts.Outbox.Store.Inversion.{row_update-IsUpdate}
use active_ts.Outbox.Store.Protects.{claim_read-true}
use active_ts.Outbox.Store.Exclusive.Lasting.{claim_write-some}
use active_ts.Outbox.Store.Leasing.{
  Others, Batch, Round, passed, claimed, lost, failed, Claim, expires_at, block, claim_finish,
  claim_then, claim_among, block_row, lease_caught, lease_claimed, lease_try, may_claim,
  lease_place, lease_one,
}
use active_ts.Outbox.Store.Leasing.Order.{IsClaimed, Leasing, grant, skip_dead, leave}
use active_ts.Outbox.Store.Leasing.Blocks.{
  block_row-lem, block_row-throw, block_row-some, write_lease-is,
}

module _ (digest : String → String) (deep_equal : DataValue → DataValue → Bool) (token : String)
    (now : ℕ) where
  -- What a round of the loop comes to, for the rounds before it.
  abbrev pub IsRound : OutboxEvent → Batch → Round → Type 0
  IsRound e b (passed b') =
      (b'.leased ≡ b.leased)
      × ((es ds : List OutboxEvent)
          → Leasing digest token now b'.blocked es ds
          → Leasing digest token now b.blocked (e ∷ es) ds)
  IsRound e b (claimed b') =
      (won : OutboxEvent) × (b'.leased ≡ b.leased ++ won ∷ [])
      × ((es ds : List OutboxEvent)
          → Leasing digest token now b'.blocked es ds
          → Leasing digest token now b.blocked (e ∷ es) (won ∷ ds))
  IsRound e b (lost rows x) = Unit
  IsRound e b (failed b' x) = Unit

  leave_at :
      (e : OutboxEvent) {blocked held₁ held : List String} (keys more : List String)
      → outbox_entity_order_block_keys digest e ≡ ok keys
      → blocked ≡ more ++ held₁
      → held₁ ≡ keys ++ held
      → (es ds : List OutboxEvent) → Leasing digest token now blocked es ds
      → Leasing digest token now held (e ∷ es) ds
  leave_at e {held = held} keys more has_keys p q es ds rest =
      leave {held = held} keys more has_keys (rw (p, q) at rest)

  grant_at :
      (e won : OutboxEvent) {blocked held : List String} (check keys : List String)
      → e.dead_lettered_at ≡ none
      → is_outbox_delivery_available e now ≡ true
      → is_outbox_lease_active e now ≡ false
      → outbox_entity_order_check_keys digest e ≡ ok check
      → outbox_entity_order_keys_blocked held check ≡ false
      → IsClaimed token now e won
      → outbox_entity_order_block_keys digest won ≡ ok keys
      → blocked ≡ keys ++ held
      → (es ds : List OutboxEvent) → Leasing digest token now blocked es ds
      → Leasing digest token now held (e ∷ es) (won ∷ ds)
  grant_at e won check keys live ready inactive ck free claim has_keys p es ds rest =
      grant check keys live ready inactive ck free claim has_keys (rw p at rest)

  -- A live event that is left behind.
  block_row-IsRound :
      (e : OutboxEvent) (b b₁ : Batch) (keys : List String) (o : Option OutboxEvent) {b' : Batch}
      → outbox_entity_order_block_keys digest e ≡ ok keys
      → b₁.leased ≡ b.leased
      → b₁.blocked ≡ keys ++ b.blocked
      → block_row digest o b₁ ≡ ok b'
      → IsRound e b (passed b')
  block_row-IsRound e b b₁ keys o has_keys same held h =
      let (more, leased, blocked) = block_row-lem digest o b₁ h in
      (leased ∙ same, leave_at e keys more has_keys blocked held)

  may_claim-true :
      (e : OutboxEvent) (check : List String) (b : Batch)
      → may_claim now e check b ≡ true
      → (outbox_entity_order_keys_blocked b.blocked check ≡ false)
        × (is_outbox_delivery_available e now ≡ true)
        × (is_outbox_lease_active e now ≡ false)
  unfolding may_claim
  may_claim-true e check b h = (ground (arith, h), ground (arith, h), ground (arith, h))

  is_some-false : (o : Option ℕ) → is_some o ≡ false → o ≡ none
  is_some-false none h = refl
  is_some-false (some n) h = absurd (cc h)

  module _ (others : Others) where
    lease_caught-IsRound :
        (e : OutboxEvent) (b b₁ : Batch) (keys : List String) (x : ActiveTsError)
        → outbox_entity_order_block_keys digest e ≡ ok keys
        → b₁.leased ≡ b.leased
        → b₁.blocked ≡ b.blocked
        → IsRound e b (lease_caught digest deep_equal others token now e keys x b₁)
    unfolding lease_caught block block_outbox_entity_order_keys
    lease_caught-IsRound e b b₁ keys x has_keys same held = elim (Bool-cases (is_lost x)) [
      | inr broken ↦ rw broken tt
      | inl gone ↦
          let rows₃ : Rows = others.afterwards e b₁.rows in
          let kept : Batch = record b₁ { rows = rows₃; blocked = keys ++ b₁.blocked } in
          elim (Result-cases
            (current_outbox_event e.id rows₃ >>= λ next. block_row digest next kept)) [
              | inr (y, failing) ↦ rw (gone, failing) tt
              | inl (b', read) ↦
                  let (next, found, h) = >>=-eq-ok (current_outbox_event e.id rows₃) _ read in
                  rw (gone, read)
                    (block_row-IsRound e b kept keys next has_keys same (ap (λ ks. keys ++ ks) held)
                      h)
            ]
    ]

    is_lost-IsRound :
        (e : OutboxEvent) (b b₁ : Batch) (keys : List String) (x : ActiveTsError)
        → is_lost x ≡ false
        → IsRound e b (lease_caught digest deep_equal others token now e keys x b₁)
    unfolding lease_caught
    is_lost-IsRound e b b₁ keys x refused = rw refused tt

    claim_finish-IsClaimed :
        (e : OutboxEvent) (rows : Rows) (read : Option OutboxEvent × Bool) {c : Option OutboxEvent}
        {won : OutboxEvent}
        → claim_read deep_equal e now rows ≡ ok read
        → (rows₂ : Rows)
        → (claim_finish rows₂ read (claim_write deep_equal read token (expires_at now) rows₂)).1
          ≡ ok (c, some won)
        → IsClaimed token now e won
    unfolding claim_finish
    claim_finish-IsClaimed e rows read {c} {won} was_read rows₂ h =
        elim (Result-cases (claim_write deep_equal read token (expires_at now) rows₂)) [
          | inr (x, failing) ↦ absurd (cc (rw failing at h))
          | inl ((rows', w), wrote) ↦
              let is_won : w ≡ some won = ap (λ y. y.1) (ok-injective (rw wrote at h)) in
              let (current, fit, written) =
                claim_write-some deep_equal read token (expires_at now) rows₂ {rows' = rows'}
                  {claimed = won} (wrote ∙ ap (λ y. ok (rows', y)) is_won) in
              let (found, inactive) =
                claim_read-true deep_equal e now rows {current = current} (was_read ∙ ap ok fit) in
              let (is_leased, updated) =
                write_lease-is current token (expires_at now) rows₂ written in
              let (key, row, clean, update) =
                row_update-IsUpdate current.id won (outbox_expected_version current) rows₂
                  updated in
              record {
                read_at = rows;
                current = current;
                found = found;
                inactive = inactive;
                leased = is_leased;
                write_at = rows₂;
                written = rows';
                key = key;
                row = row;
                clean = clean;
                update = update;
              }
        ]

    claim_then-IsClaimed :
        (e : OutboxEvent) (rows : Rows) (r : Result (Option OutboxEvent × Bool))
        {c : Option OutboxEvent} {won : OutboxEvent}
        → claim_read deep_equal e now rows ≡ r
        → (claim_then digest deep_equal others token now e rows r).1 ≡ ok (c, some won)
        → IsClaimed token now e won
    unfolding claim_then
    claim_then-IsClaimed e rows (throw x) was h = absurd (cc h)
    claim_then-IsClaimed e rows (ok read) was h =
        claim_finish-IsClaimed e rows read was (others.between e rows) h

    lease_claimed-IsRound :
        (e : OutboxEvent) (b b₁ : Batch) (check keys : List String) (r : Result Claim)
        → e.dead_lettered_at ≡ none
        → is_outbox_delivery_available e now ≡ true
        → is_outbox_lease_active e now ≡ false
        → outbox_entity_order_check_keys digest e ≡ ok check
        → outbox_entity_order_keys_blocked b.blocked check ≡ false
        → outbox_entity_order_block_keys digest e ≡ ok keys
        → b₁.leased ≡ b.leased
        → b₁.blocked ≡ b.blocked
        → ((c : Option OutboxEvent) (won : OutboxEvent)
            → r ≡ ok (c, some won)
            → IsClaimed token now e won)
        → IsRound e b (lease_claimed digest deep_equal others token now e keys r b₁)
    unfolding lease_claimed block block_outbox_entity_order_keys
    lease_claimed-IsRound e b b₁ check keys (throw x) live ready inactive ck free bk same held
          claims =
        lease_caught-IsRound e b b₁ keys x bk same held
    lease_claimed-IsRound e b b₁ check keys (ok (c, none)) live ready inactive ck free bk same held
          claims =
        let b₂ : Batch = record b₁ { blocked = keys ++ b₁.blocked } in
        elim (Result-cases (block_row digest c b₂)) [
          | inl (b', at) ↦
              rw (at, lease_claimed)
                (block_row-IsRound e b b₂ keys c bk same (ap (λ ks. keys ++ ks) held) at)
          | inr (x, at) ↦
              rw (at, lease_claimed)
                (is_lost-IsRound e b b₂ keys x (block_row-throw digest c b₂ at))
        ]
    lease_claimed-IsRound e b b₁ check keys (ok (c, some won)) live ready inactive ck free bk same
          held claims =
        let b₂ : Batch = record b₁ { leased = b₁.leased ++ won ∷ [] } in
        elim (Result-cases (block_row digest (some won) b₂)) [
          | inl (b', at) ↦
              let (ks, has_ks, leased, blocked) = block_row-some digest won b₂ at in
              rw (at, lease_claimed)
                (
                  won,
                  leased ∙ ap (λ ls. ls ++ won ∷ []) same,
                  λ es ds rest.
                      grant_at e won check ks live ready inactive ck free (claims c won refl) has_ks
                        (blocked ∙ ap (λ xs. ks ++ xs) held) es ds rest,
                )
          | inr (x, at) ↦
              rw (at, lease_claimed)
                (is_lost-IsRound e b b₂ keys x (block_row-throw digest (some won) b₂ at))
        ]

    lease_try-IsRound :
        (e : OutboxEvent) (b : Batch) (check keys : List String)
        → e.dead_lettered_at ≡ none
        → outbox_entity_order_check_keys digest e ≡ ok check
        → outbox_entity_order_block_keys digest e ≡ ok keys
        → may_claim now e check b ≡ true
        → IsRound e b (lease_try digest deep_equal others token now e keys b)
    unfolding lease_try claim_among
    lease_try-IsRound e b check keys live ck bk fit =
        let rows₁ : Rows = others.before e b.rows in
        let r =
          claim_then digest deep_equal others token now e rows₁
            (claim_read deep_equal e now rows₁) in
        lease_claimed-IsRound e b (record b { rows = r.0 }) check keys r.1 live
          (may_claim-true e check b fit).1 (may_claim-true e check b fit).2 ck
          (may_claim-true e check b fit).0 bk refl refl
          (λ c won h. claim_then-IsClaimed e rows₁ _ refl h)

    lease_place-IsRound :
        (e : OutboxEvent) (b : Batch) (check keys : List String)
        → outbox_entity_order_check_keys digest e ≡ ok check
        → outbox_entity_order_block_keys digest e ≡ ok keys
        → IsRound e b (lease_place digest deep_equal others token now e check keys b)
    unfolding lease_place block block_outbox_entity_order_keys
    lease_place-IsRound e b check keys ck bk = elim (Bool-cases (is_some e.dead_lettered_at)) [
      | inl dead ↦ rw (dead, lease_place) (refl, λ es ds rest. skip_dead dead rest)
      | inr live ↦ elim (Bool-cases (may_claim now e check b)) [
        | inl fit ↦
            rw (live, fit, lease_place)
              (lease_try-IsRound e b check keys (is_some-false e.dead_lettered_at live) ck bk fit)
        | inr unfit ↦ rw (live, unfit, lease_place) (refl, leave_at e keys [] bk refl refl)
      ]
    ]

    pub lease_one-IsRound :
        (e : OutboxEvent) (b : Batch)
        → IsRound e b (lease_one digest deep_equal others token now e b)
    unfolding lease_one
    lease_one-IsRound e b = elim (Result-cases (outbox_entity_order_check_keys digest e)) [
      | inr (x, failing) ↦ rw (failing, lease_one) tt
      | inl (check, ck) ↦ elim (Result-cases (outbox_entity_order_block_keys digest e)) [
        | inr (x, failing) ↦ rw (ck, failing, lease_one) tt
        | inl (keys, bk) ↦ rw (ck, bk, lease_one) (lease_place-IsRound e b check keys ck bk)
      ]
    ]
