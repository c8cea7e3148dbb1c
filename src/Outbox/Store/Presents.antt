-- ===== src/Outbox/Store/Presents.antt =====
-- src/core/outbox-store.ts: the calls that present tokens, where none is the token of the leased row.
use active_ts.Prelude.{
  ℕ, ◌+◌, ◌≡◌, refl, ◌∙◌, ap, sym, Bool, true, false, Option, none, some, List, [], ◌∷◌,
  if◌then◌else◌, Bool-cases, Option-cases, inl, inr,
}
use active_ts.Prelude.Text.{String, str_eq}
use active_ts.Prelude.Assoc.{lookup}
use active_ts.DataValue.{DataValue}
use active_ts.Outbox.Event.{OutboxEvent, sanitize_outbox_event, sanitize_all}
use active_ts.Outbox.Event.Sanitize.{sanitize_outbox_event_idem}
use active_ts.Outbox.Protocol.{
  text_eq?, without_outbox_lease, outbox_expected_version, store_outbox_lease_ttl_ms,
}
use active_ts.Errors.{Result, ok, throw, ◌>>=◌, >>=-eq-ok, ok-injective}
use active_ts.Outbox.Store.Table.{Rows, row_update}
use active_ts.Outbox.Store.Leases.{
  current_outbox_event, write_lease, holds_lease, renew_row, renew_lease, or_lost, is_lost,
  or_passed, release_row, release_one,
}
use active_ts.Outbox.Store.Protects.{
  IsLeased, update_unleased, write_lease-protects, holds_lease-token, token_differs,
}

-- The event presents the token.
abbrev pub presents_token : String → OutboxEvent → Bool
presents_token token e = text_eq? e.lease_token (some token)

abbrev pub any_presents : String → List OutboxEvent → Bool
any_presents token [] = false
any_presents token (e ∷ es) = if presents_token token e then true else any_presents token es

pub presents-sanitize :
    (token : String) (e : OutboxEvent) {s : OutboxEvent}
    → sanitize_outbox_event false e ≡ ok s
    → presents_token token s ≡ presents_token token e
presents-sanitize token e h =
    let (shape, _, _) = sanitize_outbox_event_idem false e h in
    ap (λ (x : OutboxEvent). presents_token token x) shape

pub any_presents-sanitize_all :
    (token : String) (es : List OutboxEvent) {ss : List OutboxEvent}
    → sanitize_all es ≡ ok ss
    → any_presents token ss ≡ any_presents token es
unfolding sanitize_all
any_presents-sanitize_all token [] h = ap (any_presents token) (sym (ok-injective h))
any_presents-sanitize_all token (e ∷ es) h =
    let (s, first, h₁) = >>=-eq-ok (sanitize_outbox_event false e) _ h in
    let (ss, others, h₂) = >>=-eq-ok (sanitize_all es) _ h₁ in
    ap (any_presents token) (sym (ok-injective h₂))
    ∙ cc (presents-sanitize token e first, any_presents-sanitize_all token es others)

module _ (deep_equal : DataValue → DataValue → Bool) (key token : String) (now : ℕ) (rows : Rows)
    (row : OutboxEvent) (leased : IsLeased key token now rows row) where
  kept :
      {B : Type 0} (a : B) {rows' : Rows} {r : B}
      → ◌≡◌ {A = Result (Rows × B)} (ok (rows, a)) (ok (rows', r))
      → lookup key rows' ≡ some row
  kept a h = rw (ap (λ y. y.0) (ok-injective (sym h))) leased.stored

  renew_row-protects :
      (event : OutboxEvent) (t : String) (found : Option OutboxEvent) {rows' : Rows}
      {r : Option OutboxEvent}
      → current_outbox_event event.id rows ≡ ok found
      → str_eq t token ≡ false
      → renew_row deep_equal found event t now rows ≡ ok (rows', r)
      → lookup key rows' ≡ some row
  unfolding renew_row
  renew_row-protects event t none read other h = kept none h
  renew_row-protects event t (some current) {rows'} read other h =
      let (held, tested, h₁) = >>=-eq-ok (holds_lease deep_equal current event t now) _ h in
      elim (Bool-cases held) [
        | inr lapsed ↦ kept none (rw lapsed at h₁)
        | inl holds ↦
            let (w, wrote, h₂) =
              >>=-eq-ok (write_lease current t (now + store_outbox_lease_ttl_ms) rows) _
                (rw holds at h₁) in
            let has_t = holds_lease-token deep_equal current event t now (tested ∙ ap ok holds) in
            write_lease-protects key token now rows row leased event.id current t
              (now + store_outbox_lease_ttl_ms) {rows' = rows'} {r = w.1} read
              (inl (token_differs current.lease_token t token has_t other))
              (wrote ∙ ap (λ y. ok (y.0, w.1)) (ok-injective h₂))
      ]

  or_lost-protects :
      (m : Result (Rows × Option OutboxEvent)) {rows' : Rows} {r : Option OutboxEvent}
      → ((rows₁ : Rows) (r₁ : Option OutboxEvent)
          → m ≡ ok (rows₁, r₁)
          → lookup key rows₁ ≡ some row)
      → or_lost deep_equal rows m ≡ ok (rows', r)
      → lookup key rows' ≡ some row
  unfolding or_lost
  or_lost-protects (ok (rows₁, r₁)) keeps h =
      rw (ap (λ y. y.0) (ok-injective (sym h))) (keeps rows₁ r₁ refl)
  or_lost-protects (throw e) keeps h = elim (Bool-cases (is_lost e)) [
    | inl lost ↦ kept none (rw lost at h)
    | inr broken ↦ cc (rw broken at h)
  ]

  renew_with-protects :
      (event : OutboxEvent) (t : String) {rows' : Rows} {r : Option OutboxEvent}
      → str_eq t token ≡ false
      → or_lost deep_equal rows (
          current_outbox_event event.id rows >>= λ found.
          renew_row deep_equal found event t now rows)
        ≡ ok (rows', r)
      → lookup key rows' ≡ some row
  renew_with-protects event t other h =
      or_lost-protects
        (current_outbox_event event.id rows >>= λ found.
          renew_row deep_equal found event t now rows)
        (λ _ _ e.
          let (found, read, h₁) = >>=-eq-ok (current_outbox_event event.id rows) _ e in
          renew_row-protects event t found read other h₁)
        h

  -- A renewal that presents another token leaves the row.
  pub renew_lease-protects :
      (event : OutboxEvent) {rows' : Rows} {r : Option OutboxEvent}
      → presents_token token event ≡ false
      → renew_lease deep_equal event now rows ≡ ok (rows', r)
      → lookup key rows' ≡ some row
  unfolding renew_lease
  renew_lease-protects event other h =
      let (normalized, sane, h₁) = >>=-eq-ok (sanitize_outbox_event false event) _ h in
      let other' : presents_token token normalized ≡ false =
        presents-sanitize token event sane ∙ other in
      elim (Option-cases normalized.lease_token) [
        | inl no_token ↦ absurd (cc (rw no_token at h₁))
        | inr (t, at) ↦ renew_with-protects normalized t (rw at at other') (rw at at h₁)
      ]

  or_passed-protects :
      (m : Result Rows) {rows' : Rows}
      → ((rows₁ : Rows) → m ≡ ok rows₁ → lookup key rows₁ ≡ some row)
      → or_passed rows m ≡ ok rows'
      → lookup key rows' ≡ some row
  unfolding or_passed
  or_passed-protects (ok rows₁) keeps h = rw (ok-injective (sym h)) (keeps rows₁ refl)
  or_passed-protects (throw e) keeps h = elim (Bool-cases (is_lost e)) [
    | inl lost ↦ rw (ok-injective (sym (rw lost at h))) leased.stored
    | inr broken ↦ cc (rw broken at h)
  ]

  release_row-protects :
      (event : OutboxEvent) (t : String) (found : Option OutboxEvent) {rows' : Rows}
      → current_outbox_event event.id rows ≡ ok found
      → str_eq t token ≡ false
      → release_row found event t rows ≡ ok rows'
      → lookup key rows' ≡ some row
  unfolding release_row
  release_row-protects event t none read other h = rw (ok-injective (sym h)) leased.stored
  release_row-protects event t (some current) read other h =
      elim (Bool-cases (text_eq? current.lease_token (some t))) [
        | inr foreign ↦ rw (ok-injective (sym (rw foreign at h))) leased.stored
        | inl has_t ↦
            or_passed-protects
              (row_update event.id (without_outbox_lease current) (outbox_expected_version current)
                rows)
              (λ _ e.
                update_unleased key token now rows row leased event.id event.id current
                  (without_outbox_lease current) (outbox_expected_version current) read (inl refl)
                  (inl (token_differs current.lease_token t token has_t other)) e)
              (rw has_t at h)
      ]

  pub release_one-protects :
      (event : OutboxEvent) {rows' : Rows}
      → presents_token token event ≡ false
      → release_one event rows ≡ ok rows'
      → lookup key rows' ≡ some row
  unfolding release_one
  release_one-protects event other h = elim (Option-cases event.lease_token) [
    | inl no_token ↦ rw (ok-injective (sym (rw (no_token, release_one) at h))) leased.stored
    | inr (t, at) ↦
        let (found, read, h₁) =
          >>=-eq-ok (current_outbox_event event.id rows) _ (rw (at, release_one) at h) in
        release_row-protects event t found read (rw at at other) h₁
  ]
