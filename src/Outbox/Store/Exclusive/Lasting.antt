-- ===== src/Outbox/Store/Exclusive/Lasting.antt =====
-- src/core/outbox-store.ts: what a claim promises while its lease lasts.
use active_ts.Prelude.{
  ℕ, ◌≡◌, refl, ◌∙◌, ap, sym, Bool, true, false, Option, none, some, List, [], ◌∷◌, All, arith, inl,
  inr, leb,
}
use active_ts.Prelude.Text.{String, str_eq_refl}
use active_ts.Prelude.Assoc.{lookup, lookup-insert}
use active_ts.SafeKeys.{text, assert_safe_cache_key}
use active_ts.EntityKey.{entity_id_key}
use active_ts.DataValue.{DataValue, clone_portable_data}
use active_ts.Outbox.Event.{
  OutboxEvent, OutboxDeliveryFailure, optional, is_some, sanitize_all, sanitize_failures,
  sanitize_outbox_delivery_failure, sanitize_outbox_event, sanitize_outbox_event_identity,
  check_positive,
}
use active_ts.Outbox.Protocol.{is_outbox_lease_active, with_outbox_lease, outbox_expected_version}
use active_ts.Errors.{
  Result, ok, throw, configuration, >>=-eq-ok, bind_guard, ok-injective, Result-cases,
}
use active_ts.Outbox.Store.Table.{Rows, portable_row, row_update}
use active_ts.Outbox.Store.Leases.{
  current_outbox_event, write_lease, claim_write, claim, renew_lease, release, release_one,
  release_all,
}
use active_ts.Outbox.Store.Batches.{
  Disposition, append_row, settle_one, settle_all, settle_failures, ack,
}
use active_ts.Outbox.Store.Inversion.{
  current_outbox_event-IsCurrent, row_update-IsUpdate, some-injective,
}
use active_ts.Outbox.Store.Protects.{IsLeased, claim-protects}
use active_ts.Outbox.Store.Presents.{
  presents_token, any_presents, presents-sanitize, any_presents-sanitize_all, renew_lease-protects,
  release_one-protects,
}
use active_ts.Outbox.Store.Settles.{append_row-protects, settle_one-protects}
use active_ts.Outbox.Store.Acks.{ack-protects}
use active_ts.Outbox.Store.Exclusive.{
  Call, appends, claims, renews, releases, settles, acks, event_presents, any_failure_presents,
  presents, rows_after, or_before, after, after_all,
}

-- The lease goes on in rows that hold the same row.
IsLeased-lookup :
    (key token : String) (now : ℕ) (rows rows' : Rows) (row : OutboxEvent)
    → IsLeased key token now rows row
    → lookup key rows' ≡ some row
    → IsLeased key token now rows' row
IsLeased-lookup key token now rows rows' row l h = record {
  stored = h;
  token_is = l.token_is;
  active = l.active;
}

rows_after-protects {ℓ} :
    {A : Type ℓ} (key : String) (row : OutboxEvent) (rows : Rows) (m : Result (Rows × A))
    → lookup key rows ≡ some row
    → ((rows' : Rows) (r : A) → m ≡ ok (rows', r) → lookup key rows' ≡ some row)
    → lookup key (rows_after rows m) ≡ some row
rows_after-protects key row rows (ok r) before keeps = keeps r.0 r.1 refl
rows_after-protects key row rows (throw e) before keeps = before

or_before-protects :
    (key : String) (row : OutboxEvent) (rows : Rows) (m : Result Rows)
    → lookup key rows ≡ some row
    → ((rows' : Rows) → m ≡ ok rows' → lookup key rows' ≡ some row)
    → lookup key (or_before rows m) ≡ some row
or_before-protects key row rows (ok rows') before keeps = keeps rows' refl
or_before-protects key row rows (throw e) before keeps = before

event_presents-sanitize :
    (token : String) (o : Option OutboxEvent) {s : Option OutboxEvent}
    → optional (sanitize_outbox_event false) o ≡ ok s
    → event_presents token s ≡ event_presents token o
event_presents-sanitize token none h = ap (event_presents token) (sym (ok-injective h))
event_presents-sanitize token (some e) h =
    let (s, sane, h₁) = >>=-eq-ok (sanitize_outbox_event false e) _ h in
    ap (event_presents token) (sym (ok-injective h₁)) ∙ presents-sanitize token e sane

failure-sanitize :
    (token : String) (f : OutboxDeliveryFailure) {g : OutboxDeliveryFailure}
    → sanitize_outbox_delivery_failure true f ≡ ok g
    → event_presents token g.event ≡ event_presents token f.event
unfolding sanitize_outbox_delivery_failure
failure-sanitize token f {g} h =
    let (_, h₁) = bind_guard (is_some f.event) configuration _ h in
    let (event, sane, h₂) = >>=-eq-ok (optional (sanitize_outbox_event false) f.event) _ h₁ in
    let (_, _, h₃) = >>=-eq-ok (sanitize_outbox_event_identity f.identity) _ h₂ in
    let (a, _, h₄) = >>=-eq-ok (check_positive f.attempt) _ h₃ in
    let (m, _, h₅) = >>=-eq-ok (check_positive f.max_attempts) _ h₄ in
    let (_, h₆) = bind_guard (leb a m) configuration _ h₅ in
    let (_, _, h₇) = >>=-eq-ok (assert_safe_cache_key f.error) _ h₆ in
    ap (λ (x : OutboxDeliveryFailure). event_presents token x.event) (sym (ok-injective h₇))
    ∙ event_presents-sanitize token f.event sane

any_failure-sanitize :
    (token : String) (fs : List OutboxDeliveryFailure) {gs : List OutboxDeliveryFailure}
    → sanitize_failures true fs ≡ ok gs
    → any_failure_presents token gs ≡ any_failure_presents token fs
unfolding sanitize_failures
any_failure-sanitize token [] h = ap (any_failure_presents token) (sym (ok-injective h))
any_failure-sanitize token (f ∷ fs) h =
    let (g, first, h₁) = >>=-eq-ok (sanitize_outbox_delivery_failure true f) _ h in
    let (gs, others, h₂) = >>=-eq-ok (sanitize_failures true fs) _ h₁ in
    ap (any_failure_presents token) (sym (ok-injective h₂))
    ∙ cc (failure-sanitize token f first, any_failure-sanitize token fs others)

module _ (deep_equal : DataValue → DataValue → Bool) (key token : String) (now : ℕ)
    (row : OutboxEvent) where
  release_all-protects :
      (es : List OutboxEvent) (rows : Rows)
      → IsLeased key token now rows row
      → any_presents token es ≡ false
      → lookup key (release_all es rows).0 ≡ some row
  unfolding release_all
  release_all-protects [] rows leased other = leased.stored
  release_all-protects (e ∷ es) rows leased other =
      let other_first : presents_token token e ≡ false = ground (arith, other) in
      let other_rest : any_presents token es ≡ false = ground (arith, other) in
      elim (Result-cases (release_one e rows)) [
        | inr (x, at) ↦ rw (at, release_all) leased.stored
        | inl (rows₁, at) ↦
            let kept =
              release_one-protects deep_equal key token now rows row leased e {rows' = rows₁}
                other_first at in
            rw (at, release_all)
              (release_all-protects es rows₁
                (IsLeased-lookup key token now rows rows₁ row leased kept) other_rest)
      ]

  settle_all-protects :
      (d : Disposition) (fs : List OutboxDeliveryFailure) (rows : Rows) {rows' : Rows}
      → IsLeased key token now rows row
      → any_failure_presents token fs ≡ false
      → settle_all deep_equal d fs rows ≡ ok rows'
      → lookup key rows' ≡ some row
  unfolding settle_all
  settle_all-protects d [] rows leased other h = rw (ok-injective (sym h)) leased.stored
  settle_all-protects d (f ∷ fs) rows leased other h =
      let other_first : event_presents token f.event ≡ false = ground (arith, other) in
      let other_rest : any_failure_presents token fs ≡ false = ground (arith, other) in
      let (rows₁, first, rest) = >>=-eq-ok (settle_one deep_equal d f rows) _ h in
      let kept =
        settle_one-protects key token now rows row leased deep_equal d f {rows' = rows₁}
          (λ e at. rw at at other_first) first in
      settle_all-protects d fs rows₁ (IsLeased-lookup key token now rows rows₁ row leased kept)
        other_rest rest

  release-protects :
      (es : List OutboxEvent) (rows : Rows)
      → IsLeased key token now rows row
      → any_presents token es ≡ false
      → lookup key (release es rows).0 ≡ some row
  unfolding release
  release-protects es rows leased other = elim (Result-cases (sanitize_all es)) [
    | inr (x, at) ↦ rw (at, release) leased.stored
    | inl (ss, at) ↦
        rw (at, release)
          (release_all-protects ss rows leased (any_presents-sanitize_all token es at ∙ other))
  ]

  after-protects :
      (call : Call) (rows : Rows)
      → IsLeased key token now rows row
      → presents token call ≡ false
      → lookup key (after deep_equal call now rows) ≡ some row
  unfolding after settle_failures
  after-protects (appends next e) rows leased other =
      rows_after-protects key row rows (append_row next e rows) leased.stored
        (λ rows' r h. append_row-protects key token now rows row leased next e {r = r} h)
  after-protects (claims e t expires) rows leased other =
      rows_after-protects key row rows (claim deep_equal e t expires now rows) leased.stored
        (λ rows' r h. claim-protects deep_equal key token now rows row leased e t expires {r = r} h)
  after-protects (renews e) rows leased other =
      rows_after-protects key row rows (renew_lease deep_equal e now rows) leased.stored
        (λ rows' r h.
          renew_lease-protects deep_equal key token now rows row leased e {r = r} other h)
  after-protects (releases es) rows leased other = release-protects es rows leased other
  after-protects (settles d fs) rows leased other =
      or_before-protects key row rows (settle_failures deep_equal d fs rows) leased.stored
        (λ rows' h.
          let (gs, sane, h₁) = >>=-eq-ok (sanitize_failures true fs) _ h in
          settle_all-protects d gs rows leased (any_failure-sanitize token fs sane ∙ other) h₁)
  after-protects (acks es) rows leased other =
      rows_after-protects key row rows (ack deep_equal es now rows) leased.stored
        (λ rows' b h. ack-protects deep_equal key token now rows row leased es {b = b} other h)

-- A call made while the lease of the row is active, and that does not present its token.
abbrev pub IsOutside : String → OutboxEvent → ℕ × Call → Type 0
IsOutside token row (now, call) =
    (is_outbox_lease_active row now ≡ true) × (presents token call ≡ false)

-- While the lease of a row lasts, no sequence of calls that do not present its token changes the row,
-- whether they return or throw.
pub after_all-lookup :
    (deep_equal : DataValue → DataValue → Bool) (key token : String) (row : OutboxEvent)
    (calls : List (ℕ × Call)) (rows : Rows)
    → lookup key rows ≡ some row
    → row.lease_token ≡ some token
    → All (IsOutside token row) calls
    → lookup key (after_all deep_equal calls rows) ≡ some row
unfolding after_all
after_all-lookup deep_equal key token row [] rows stored token_is outside = stored
after_all-lookup deep_equal key token row ((now, call) ∷ calls) rows stored token_is outside =
    let leased : IsLeased key token now rows row = record {
      stored = stored;
      token_is = token_is;
      active = outside.0.0;
    } in
    after_all-lookup deep_equal key token row calls (after deep_equal call now rows)
      (after-protects deep_equal key token now row call rows leased outside.0.1) token_is outside.1

pub claim_write-some :
    (deep_equal : DataValue → DataValue → Bool) (read : Option OutboxEvent × Bool) (token : String)
    (expires : ℕ) (rows : Rows) {rows' : Rows} {claimed : OutboxEvent}
    → claim_write deep_equal read token expires rows ≡ ok (rows', some claimed)
    → (current : OutboxEvent) × (read ≡ (some current, true))
      × (write_lease current token expires rows ≡ ok (rows', claimed))
unfolding claim_write
claim_write-some deep_equal (some current, true) token expires rows h =
    let (w, wrote, h₁) = >>=-eq-ok (write_lease current token expires rows) _ h in
    let pair = ok-injective h₁ in
    (current, refl, wrote ∙ cc (ap (λ y. y.0) pair, some-injective (ap (λ y. y.1) pair)))
claim_write-some deep_equal (some current, false) token expires rows h = absurd (cc h)
claim_write-some deep_equal (none, fits) token expires rows h = absurd (cc h)

-- The row of a lease that was written.
pub write_lease-lookup :
    (id : String) (current : OutboxEvent) (token : String) (expires : ℕ) (rows : Rows)
    {rows' : Rows} {leased : OutboxEvent}
    → current_outbox_event id rows ≡ ok (some current)
    → write_lease current token expires rows ≡ ok (rows', leased)
    → (key : String) × (row : OutboxEvent) × (entity_id_key (text id) ≡ ok key)
      × (lookup key rows' ≡ some row)
      × (row ≡ record (with_outbox_lease current token expires) { payload = row.payload })
      × (leased ≡ with_outbox_lease current token expires)
unfolding write_lease portable_row
write_lease-lookup id current token expires rows {rows'} read h =
    let (key, raw, c) = current_outbox_event-IsCurrent id rows read in
    let (w, wrote, h₁) =
      >>=-eq-ok
        (row_update current.id (with_outbox_lease current token expires)
          (outbox_expected_version current) rows)
        _ h in
    let pair = ok-injective h₁ in
    let (k, old, clean, u) =
      row_update-IsUpdate current.id (with_outbox_lease current token expires)
        (outbox_expected_version current) rows wrote in
    let k_is : k ≡ key = ok-injective (sym u.key_of_id ∙ c.key_of_current) in
    let (payload, cloned, h₂) =
      >>=-eq-ok (clone_portable_data (with_outbox_lease current token expires).payload) _
        u.cloned in
    let shape = ok-injective (sym h₂) in
    (
      key,
      clean,
      c.key_of_id,
      ap (λ y. lookup key y.0) (sym pair)
          ∙ rw (u.written, k_is, lookup-insert key key clean rows, str_eq_refl key),
      shape ∙ cc (ap (λ (e : OutboxEvent). e.payload) shape),
      ap (λ y. y.1) (sym pair),
    )
