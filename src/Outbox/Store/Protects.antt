-- ===== src/Outbox/Store/Protects.antt =====
-- src/core/outbox-store.ts: a lease that is active keeps the row of its event from every call that does
-- not present its token.
use active_ts.Prelude.{
  &&-eq-true, ℕ, ◌≡◌, refl, ◌∙◌, ap, sym, Bool, true, false, ◌||◌, not, Option, none, some, arith,
  Bool-cases, inl, inr, ◌⊎◌,
}
use active_ts.Prelude.Text.{String, str_eq, str_eq_iff, str_eq_refl}
use active_ts.Prelude.Assoc.{lookup, lookup-insert}
use active_ts.SafeKeys.{text}
use active_ts.EntityKey.{entity_id_key}
use active_ts.DataValue.{DataValue}
use active_ts.Outbox.Event.{OutboxEvent, is_some}
use active_ts.Outbox.Event.Sanitize.{sanitize_outbox_event_idem}
use active_ts.Outbox.Protocol.{
  is_outbox_snapshot_current, is_outbox_lease_active, is_outbox_lease_current, text_eq?,
  with_outbox_lease, outbox_expected_version, is_outbox_delivery_available,
}
use active_ts.Errors.{ok, >>=-eq-ok, ok-injective}
use active_ts.Outbox.Store.Table.{Rows, row_update}
use active_ts.Outbox.Store.Leases.{
  current_outbox_event, write_lease, is_claimable, claim_found, claim_read, claim_write, claim,
  holds_lease,
}
use active_ts.Outbox.Store.Inversion.{
  IsCurrent, current_outbox_event-IsCurrent, row_update-IsUpdate, some-injective,
}

-- The row of the key is leased with the token, and the lease is active.
pub record IsLeased (key token : String) (now : ℕ) (rows : Rows) (row : OutboxEvent) : Type 0 where
  pub stored : lookup key rows ≡ some row
  pub token_is : row.lease_token ≡ some token
  pub active : is_outbox_lease_active row now ≡ true

lease_active_same :
    (a b : OutboxEvent) (now : ℕ)
    → a.lease_token ≡ b.lease_token
    → a.lease_expires_at ≡ b.lease_expires_at
    → is_outbox_lease_active a now ≡ is_outbox_lease_active b now
unfolding is_outbox_lease_active
lease_active_same a b now p q = cc (p, q)

text_eq?_refl : (o : Option String) → text_eq? o o ≡ true
text_eq?_refl none = refl
text_eq?_refl (some s) = str_eq_refl s

module _ (key token : String) (now : ℕ) (rows : Rows) (row : OutboxEvent)
    (leased : IsLeased key token now rows row) where
  -- What was read under the key is the leased row, with its token and its active lease.
  pub read_leased :
      (id key' : String) (current raw : OutboxEvent)
      → IsCurrent id key' rows current raw
      → str_eq key' key ≡ true
      → (text_eq? current.lease_token (some token) ≡ true)
        × (is_outbox_lease_active current now ≡ true)
  read_leased id key' current raw c same =
      let at : key' ≡ key = (str_eq_iff key' key).0 same in
      let raw_is : some raw ≡ some row =
        sym c.stored ∙ (ap (λ k. lookup k rows) at ∙ leased.stored) in
      let (shape, _, _) = sanitize_outbox_event_idem false raw c.sanitized in
      let token_same : current.lease_token ≡ row.lease_token =
        ap (λ (e : OutboxEvent). e.lease_token) shape ∙ cc raw_is in
      let expiry_same : current.lease_expires_at ≡ row.lease_expires_at =
        ap (λ (e : OutboxEvent). e.lease_expires_at) shape ∙ cc raw_is in
      (
        rw (token_same, leased.token_is) (str_eq_refl token),
        lease_active_same current row now token_same expiry_same ∙ leased.active,
      )

  -- An update elsewhere leaves the leased row.
  pub update_elsewhere :
      (id key' : String) (e : OutboxEvent) (expected : Option ℕ) {rows' : Rows}
      → entity_id_key (text id) ≡ ok key'
      → str_eq key' key ≡ false
      → row_update id e expected rows ≡ ok rows'
      → lookup key rows' ≡ some row
  update_elsewhere id key' e expected {rows'} at other h =
      let (k, old, clean, u) = row_update-IsUpdate id e expected rows h in
      let same : k ≡ key' = ok-injective (sym u.key_of_id ∙ at) in
      rw (u.written, lookup-insert k key clean rows, same, other) leased.stored

  -- An update over a row that was read, and that does not hold the lease.
  pub update_unleased :
      (id id' : String) (current e : OutboxEvent) (expected : Option ℕ) {rows' : Rows}
      → current_outbox_event id rows ≡ ok (some current)
      → (entity_id_key (text id') ≡ entity_id_key (text id)) ⊎ (id' ≡ current.id)
      → (text_eq? current.lease_token (some token) ≡ false)
        ⊎ (is_outbox_lease_active current now ≡ false)
      → row_update id' e expected rows ≡ ok rows'
      → lookup key rows' ≡ some row
  update_unleased id id' current e expected {rows'} read where_to unleased h =
      let (key', raw, c) = current_outbox_event-IsCurrent id rows read in
      let at : entity_id_key (text id') ≡ ok key' = elim where_to [
        | inl same ↦ same ∙ c.key_of_id
        | inr same ↦ ap (λ k. entity_id_key (text k)) same ∙ c.key_of_current
      ] in
      elim (Bool-cases (str_eq key' key)) [
        | inr other ↦ update_elsewhere id' key' e expected at other h
        | inl same ↦
            let (has_token, is_active) = read_leased id key' current raw c same in
            elim unleased [
              | inl no_token ↦ cc (has_token, no_token)
              | inr inactive ↦ cc (is_active, inactive)
            ]
      ]

  pub write_lease-protects :
      (id : String) (current : OutboxEvent) (t : String) (x : ℕ) {rows' : Rows} {r : OutboxEvent}
      → current_outbox_event id rows ≡ ok (some current)
      → (text_eq? current.lease_token (some token) ≡ false)
        ⊎ (is_outbox_lease_active current now ≡ false)
      → write_lease current t x rows ≡ ok (rows', r)
      → lookup key rows' ≡ some row
  unfolding write_lease
  write_lease-protects id current t x {rows'} read unleased h =
      let (rows₁, wrote, h₁) =
        >>=-eq-ok
          (row_update current.id (with_outbox_lease current t x) (outbox_expected_version current)
            rows)
          _ h in
      update_unleased id current.id current (with_outbox_lease current t x)
        (outbox_expected_version current) {rows' = rows'} read (inr refl) unleased
        (wrote ∙ ap (λ y. ok y.0) (ok-injective h₁))

claimable-inactive :
    (deep_equal : DataValue → DataValue → Bool) (current event : OutboxEvent) (now : ℕ)
    → is_claimable deep_equal current event now ≡ ok true
    → is_outbox_lease_active current now ≡ false
unfolding is_claimable
claimable-inactive deep_equal current event now h =
    elim (Bool-cases
      (is_some current.dead_lettered_at || not (is_outbox_delivery_available current now))) [
        | inl unfit ↦ absurd (cc (rw unfit at h))
        | inr fit ↦
            let (same, compared, h₁) =
              >>=-eq-ok (is_outbox_snapshot_current deep_equal current event) _ (rw fit at h) in
            ground (arith, ok-injective h₁)
      ]

claim_found-true :
    (deep_equal : DataValue → DataValue → Bool) (event : OutboxEvent) (now : ℕ)
    (found : Option OutboxEvent) {current : OutboxEvent}
    → claim_found deep_equal event now found ≡ ok (some current, true)
    → (found ≡ some current) × (is_outbox_lease_active current now ≡ false)
unfolding claim_found
claim_found-true deep_equal event now none h = cc
claim_found-true deep_equal event now (some c) {current} h =
    let (fit, tested, h₁) = >>=-eq-ok (is_claimable deep_equal c event now) _ h in
    let pair = ok-injective h₁ in
    let same : some c ≡ some current = ap (λ y. y.0) pair in
    let inactive = claimable-inactive deep_equal c event now (tested ∙ ap (λ y. ok y.1) pair) in
    (same, ap (λ e. is_outbox_lease_active e now) (some-injective (sym same)) ∙ inactive)

pub claim_read-true :
    (deep_equal : DataValue → DataValue → Bool) (event : OutboxEvent) (now : ℕ) (rows : Rows)
    {current : OutboxEvent}
    → claim_read deep_equal event now rows ≡ ok (some current, true)
    → (current_outbox_event event.id rows ≡ ok (some current))
      × (is_outbox_lease_active current now ≡ false)
unfolding claim_read
claim_read-true deep_equal event now rows h =
    let (found, read, h₁) = >>=-eq-ok (current_outbox_event event.id rows) _ h in
    let (same, inactive) = claim_found-true deep_equal event now found h₁ in
    (read ∙ ap ok same, inactive)

pub holds_lease-token :
    (deep_equal : DataValue → DataValue → Bool) (current event : OutboxEvent) (t : String) (now : ℕ)
    → holds_lease deep_equal current event t now ≡ ok true
    → text_eq? current.lease_token (some t) ≡ true
unfolding holds_lease is_outbox_lease_current
holds_lease-token deep_equal current event t now h =
    let (same, compared, h₁) =
      >>=-eq-ok (is_outbox_snapshot_current deep_equal current event) _ h in
    let (_, held) = &&-eq-true same (is_outbox_lease_current current t now) (ok-injective h₁) in
    (&&-eq-true (text_eq? current.lease_token (some t)) (is_outbox_lease_active current now) held).0

-- Tokens that are both the token of one event are equal.
pub token_differs :
    (o : Option String) (t token : String)
    → text_eq? o (some t) ≡ true
    → str_eq t token ≡ false
    → text_eq? o (some token) ≡ false
token_differs none t token h other = cc
token_differs (some s) t token h other =
    ground (arith, h, other, str_eq_iff s t, str_eq_iff s token, str_eq_iff t token)

module _ (deep_equal : DataValue → DataValue → Bool) (key token : String) (now : ℕ) (rows : Rows)
    (row : OutboxEvent) (leased : IsLeased key token now rows row) where
  claim_write-protects :
      (id : String) (read : Option OutboxEvent × Bool) (t : String) (x : ℕ) {rows' : Rows}
      {r : Option OutboxEvent}
      → ((current : OutboxEvent)
          → read ≡ (some current, true)
          → (current_outbox_event id rows ≡ ok (some current))
            × (is_outbox_lease_active current now ≡ false))
      → claim_write deep_equal read t x rows ≡ ok (rows', r)
      → lookup key rows' ≡ some row
  unfolding claim_write
  claim_write-protects id (some current, true) t x {rows'} fit h =
      let (at, inactive) = fit current refl in
      let (w, wrote, h₁) = >>=-eq-ok (write_lease current t x rows) _ h in
      write_lease-protects key token now rows row leased id current t x {rows' = rows'} {r = w.1} at
        (inr inactive) (wrote ∙ ap (λ y. ok (y.0, w.1)) (ok-injective h₁))
  claim_write-protects id (some current, false) t x fit h =
      rw (ap (λ y. y.0) (ok-injective (sym h))) leased.stored
  claim_write-protects id (none, fits) t x fit h =
      rw (ap (λ y. y.0) (ok-injective (sym h))) leased.stored

  -- A claim at a time when the lease is active leaves the row.
  pub claim-protects :
      (event : OutboxEvent) (t : String) (x : ℕ) {rows' : Rows} {r : Option OutboxEvent}
      → claim deep_equal event t x now rows ≡ ok (rows', r)
      → lookup key rows' ≡ some row
  unfolding claim
  claim-protects event t x {rows'} {r} h =
      let (read, tested, h₁) = >>=-eq-ok (claim_read deep_equal event now rows) _ h in
      claim_write-protects event.id read t x {r = r}
        (λ current at.
          claim_read-true deep_equal event now rows {current = current} (tested ∙ ap ok at))
        h₁
