-- ===== src/Outbox/Store/Acks.antt =====
-- src/core/outbox-store.ts, `ack`: only rows that were checked are deleted.
use active_ts.Prelude.{
  ℕ, ◌≡◌, refl, ◌∙◌, ap, sym, Bool, true, false, Option, none, some, List, [], ◌∷◌, All,
  if◌then◌else◌, arith, Bool-cases, Option-cases, inl, inr,
}
use active_ts.Prelude.Text.{String, str_eq}
use active_ts.Prelude.Assoc.{lookup}
use active_ts.SafeKeys.{text}
use active_ts.EntityKey.{entity_id_key}
use active_ts.DataValue.{DataValue}
use active_ts.Outbox.Event.{OutboxEvent, is_some, sanitize_all}
use active_ts.Outbox.Protocol.{is_outbox_snapshot_current, is_outbox_lease_current, text_eq?}
use active_ts.Errors.{Result, ok, throw, ◌>>=◌, >>=-eq-ok, ok-injective}
use active_ts.Outbox.Store.Table.{Rows, row_delete, check_delete}
use active_ts.Outbox.Store.Leases.{current_outbox_event, is_lost}
use active_ts.Outbox.Store.Batches.{
  ack_found, ack_check, ack_checks, delete_all, ack_run, or_unacknowledged, ack,
}
use active_ts.Outbox.Store.Inversion.{
  snapshot-token, current_outbox_event-IsCurrent, some-injective,
}
use active_ts.Outbox.Store.Protects.{IsLeased, read_leased}
use active_ts.Outbox.Store.Presents.{presents_token, any_presents, any_presents-sanitize_all}
use active_ts.Outbox.Store.Settles.{same_token_differs, lookup-erase_other}

-- The id's key is another.
abbrev IsApart : String → String → Type 0
IsApart key id = (k : String) → entity_id_key (text id) ≡ ok k → str_eq k key ≡ false

row_delete-apart :
    (key id : String) (version : Option ℕ) (rows : Rows) {rows' : Rows}
    → IsApart key id
    → row_delete id version rows ≡ ok rows'
    → lookup key rows' ≡ lookup key rows
unfolding row_delete
row_delete-apart key id version rows apart h =
    let (k, at, h₁) = >>=-eq-ok (entity_id_key (text id)) _ h in
    let (u, checked, h₂) = >>=-eq-ok (check_delete (lookup k rows) version) _ h₁ in
    rw (ok-injective (sym h₂)) (lookup-erase_other k key rows (apart k at))

delete_all-apart :
    (deep_equal : DataValue → DataValue → Bool) (key : String) (targets : List (String × Option ℕ))
    (rows : Rows) {rows' : Rows}
    → All (λ t. IsApart key t.0) targets
    → delete_all deep_equal targets rows ≡ ok rows'
    → lookup key rows' ≡ lookup key rows
unfolding delete_all
delete_all-apart deep_equal key [] rows apart h = ap (lookup key) (sym (ok-injective h))
delete_all-apart deep_equal key ((id, version) ∷ targets) rows apart h =
    let (rows₁, first, rest) = >>=-eq-ok (row_delete id version rows) _ h in
    delete_all-apart deep_equal key targets rows₁ apart.1 rest
    ∙ row_delete-apart key id version rows apart.0 first

module _ (deep_equal : DataValue → DataValue → Bool) where
  snapshot_found :
      (current event : OutboxEvent) {c : OutboxEvent}
      → (is_outbox_snapshot_current deep_equal current event >>= λ same.
          ok (if same then some current else none))
        ≡ ok (some c)
      → (current ≡ c) × (text_eq? current.lease_token event.lease_token ≡ true)
  snapshot_found current event h =
      let (same, compared, h₁) =
        >>=-eq-ok (is_outbox_snapshot_current deep_equal current event) _ h in
      elim (Bool-cases same) [
        | inr stale ↦ absurd (cc (rw stale at h₁))
        | inl fresh ↦ (
          some-injective (ok-injective (rw fresh at h₁)),
          snapshot-token deep_equal current event (compared ∙ ap ok fresh),
        )
      ]

  ack_snapshot :
      (event : OutboxEvent) (now : ℕ) (current : OutboxEvent) {c : OutboxEvent}
      → ack_found deep_equal event now (some current) ≡ ok (some c)
      → (is_outbox_snapshot_current deep_equal current event >>= λ same.
          ok (if same then some current else none))
        ≡ ok (some c)
  unfolding ack_found
  ack_snapshot event now current h = elim (Option-cases event.lease_token) [
    | inr (t, at) ↦ elim (Bool-cases (is_outbox_lease_current current t now)) [
      | inl held ↦ rw (at, ack_found, held) at h
      | inr lapsed ↦ absurd (cc (rw (at, ack_found, lapsed) at h))
    ]
    | inl no_token ↦ elim (Bool-cases (is_some current.lease_token)) [
      | inl taken ↦ absurd (cc (rw (no_token, ack_found, taken) at h))
      | inr untaken ↦ rw (no_token, ack_found, untaken) at h
    ]
  ]

  -- What is acknowledged is what is stored, and it has the token of the event.
  ack_found-token :
      (event : OutboxEvent) (now : ℕ) (found : Option OutboxEvent) {c : OutboxEvent}
      → ack_found deep_equal event now found ≡ ok (some c)
      → (found ≡ some c) × (text_eq? c.lease_token event.lease_token ≡ true)
  unfolding ack_found
  ack_found-token event now none h = cc
  ack_found-token event now (some current) {c} h =
      let (same, tokens) =
        snapshot_found current event {c = c} (ack_snapshot event now current h) in
      (
        ap some same,
        ap (λ (e : OutboxEvent). text_eq? e.lease_token event.lease_token) (sym same) ∙ tokens,
      )

module _ (deep_equal : DataValue → DataValue → Bool) (key token : String) (now : ℕ) (rows : Rows)
    (row : OutboxEvent) (leased : IsLeased key token now rows row) where
  -- An event that may be acknowledged, and has another token, is stored under another key.
  ack_check-IsApart :
      (event : OutboxEvent) {c : OutboxEvent}
      → presents_token token event ≡ false
      → ack_check deep_equal event now rows ≡ ok (some c)
      → IsApart key event.id
  unfolding ack_check
  ack_check-IsApart event {c} other h k at =
      let (found, read, h₁) = >>=-eq-ok (current_outbox_event event.id rows) _ h in
      let (same, tokens) = ack_found-token deep_equal event now found h₁ in
      let (key', raw, current) =
        current_outbox_event-IsCurrent event.id rows {current = c} (read ∙ ap ok same) in
      let k_is : k ≡ key' = ok-injective (sym at ∙ current.key_of_id) in
      elim (Bool-cases (str_eq k key)) [
        | inr apart ↦ apart
        | inl clash ↦
            let (has_token, _) =
              read_leased key token now rows row leased event.id key' c raw current
                (rw k_is at clash) in
            absurd (
              cc (has_token, same_token_differs c.lease_token event.lease_token token tokens other))
      ]

  ack_checks-IsApart :
      (es : List OutboxEvent) {targets : List (String × Option ℕ)}
      → any_presents token es ≡ false
      → ack_checks deep_equal es now rows ≡ ok (some targets)
      → All (λ t. IsApart key t.0) targets
  unfolding ack_checks
  ack_checks-IsApart [] other h = rw (sym (some-injective (ok-injective h))) tt
  ack_checks-IsApart (e ∷ es) {targets} other h =
      let (found, checked, h₁) = >>=-eq-ok (ack_check deep_equal e now rows) _ h in
      let other_first : presents_token token e ≡ false = ground (arith, other) in
      let other_rest : any_presents token es ≡ false = ground (arith, other) in
      elim (Option-cases found) [
        | inl missing ↦ absurd (cc (rw missing at h₁))
        | inr (c, at) ↦
            let (rest, others, h₂) =
              >>=-eq-ok (ack_checks deep_equal es now rows) _ (rw at at h₁) in
            elim (Option-cases rest) [
              | inl stopped ↦ absurd (cc (rw stopped at h₂))
              | inr (ts, went) ↦ rw (sym (some-injective (ok-injective (rw went at h₂)))) (
                ack_check-IsApart e {c = c} other_first (checked ∙ ap ok at),
                ack_checks-IsApart es {targets = ts} other_rest (others ∙ ap ok went),
              )
            ]
      ]

  ack_run-protects :
      (es : List OutboxEvent) {rows' : Rows} {b : Bool}
      → any_presents token es ≡ false
      → ack_run deep_equal es now rows ≡ ok (rows', b)
      → lookup key rows' ≡ some row
  unfolding ack_run
  ack_run-protects es {rows'} {b} other h =
      let (checked, at, h₁) = >>=-eq-ok (ack_checks deep_equal es now rows) _ h in
      elim (Option-cases checked) [
        | inl stopped ↦ rw (ap (λ y. y.0) (ok-injective (sym (rw stopped at h₁)))) leased.stored
        | inr (targets, went) ↦
            let (rows₁, deleted, h₂) =
              >>=-eq-ok (delete_all deep_equal targets rows) _ (rw went at h₁) in
            delete_all-apart deep_equal key targets rows {rows' = rows'}
              (ack_checks-IsApart es {targets = targets} other (at ∙ ap ok went))
              (deleted ∙ ap (λ y. ok y.0) (ok-injective h₂))
            ∙ leased.stored
      ]

  -- Acknowledging events with other tokens leaves the row.
  pub ack-protects :
      (es : List OutboxEvent) {rows' : Rows} {b : Bool}
      → any_presents token es ≡ false
      → ack deep_equal es now rows ≡ ok (rows', b)
      → lookup key rows' ≡ some row
  unfolding ack or_unacknowledged
  ack-protects es other h =
      let (ss, sane, h₁) = >>=-eq-ok (sanitize_all es) _ h in
      or_unacknowledged-protects (ack_run deep_equal ss now rows)
        (λ _ _ e. ack_run-protects ss (any_presents-sanitize_all token es sane ∙ other) e) h₁
    where
      or_unacknowledged-protects :
          (m : Result (Rows × Bool)) {rows' : Rows} {b : Bool}
          → ((rows₁ : Rows) (b₁ : Bool) → m ≡ ok (rows₁, b₁) → lookup key rows₁ ≡ some row)
          → or_unacknowledged deep_equal rows m ≡ ok (rows', b)
          → lookup key rows' ≡ some row
      or_unacknowledged-protects (ok (rows₁, b₁)) keeps h =
          rw (ap (λ y. y.0) (ok-injective (sym h))) (keeps rows₁ b₁ refl)
      or_unacknowledged-protects (throw e) keeps h = elim (Bool-cases (is_lost e)) [
        | inl lost ↦ rw (ap (λ y. y.0) (ok-injective (sym (rw lost at h)))) leased.stored
        | inr broken ↦ cc (rw broken at h)
      ]
