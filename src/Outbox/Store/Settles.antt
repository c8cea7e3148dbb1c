-- ===== src/Outbox/Store/Settles.antt =====
-- src/core/outbox-store.ts: appending, settling and acknowledging, where no event has the token of the
-- leased row.
use active_ts.Prelude.{
  ℕ, ◌≡◌, refl, ◌∙◌, ap, sym, Bool, true, false, not, Option, none, some, [], ◌∷◌, arith,
  Bool-cases, Option-cases, inl, inr,
}
use active_ts.Prelude.Text.{String, str_eq, str_eq_iff}
use active_ts.Prelude.Assoc.{lookup, erase, lookup-insert}
use active_ts.SafeKeys.{text}
use active_ts.EntityKey.{entity_id_key}
use active_ts.DataValue.{DataValue}
use active_ts.Outbox.Event.{OutboxEvent, OutboxDeliveryFailure, is_some, sanitize_outbox_event}
use active_ts.Outbox.Protocol.{is_outbox_snapshot_current, text_eq?, outbox_expected_version}
use active_ts.Errors.{ok, conflict, validation, >>=-eq-ok, bind_guard, ok-injective}
use active_ts.Outbox.Store.Table.{Rows, portable_row, row_create}
use active_ts.Outbox.Store.Leases.{current_outbox_event}
use active_ts.Outbox.Store.Batches.{
  with_store_outbox_sequence, append_row, Disposition, settled_event, settle_gone, settle_row,
  settle_found, settle_one,
}
use active_ts.Outbox.Store.Inversion.{snapshot-token}
use active_ts.Outbox.Store.Protects.{IsLeased, update_unleased}
use active_ts.Outbox.Store.Presents.{presents_token}

-- Of two equal tokens, if one is not the token, the other is not.
pub same_token_differs :
    (o p : Option String) (token : String)
    → text_eq? o p ≡ true
    → text_eq? p (some token) ≡ false
    → text_eq? o (some token) ≡ false
same_token_differs none p token h other = refl
same_token_differs (some s) none token h other = cc
same_token_differs (some s) (some t) token h other =
    ground (arith, h, other, str_eq_iff s t, str_eq_iff s token, str_eq_iff t token)

pub lookup-erase_other :
    (k j : String) (m : Rows) → str_eq k j ≡ false → lookup j (erase k m) ≡ lookup j m
unfolding lookup erase
lookup-erase_other k j [] h = refl
lookup-erase_other k j ((i, w) ∷ m) h =
    ground (arith, lookup-erase_other k j m h, h, str_eq_iff i k, str_eq_iff i j, str_eq_iff k j)

module _ (key token : String) (now : ℕ) (rows : Rows) (row : OutboxEvent)
    (leased : IsLeased key token now rows row) where
  -- A row is created only where none is.
  row_create-protects :
      (id : String) (e : OutboxEvent) {rows' : Rows}
      → row_create id e rows ≡ ok rows'
      → lookup key rows' ≡ some row
  unfolding row_create
  row_create-protects id e {rows'} h =
      let (k, at, h₁) = >>=-eq-ok (entity_id_key (text id)) _ h in
      let (clean, cloned, h₂) = >>=-eq-ok (portable_row e) _ h₁ in
      let (_, h₃) = bind_guard (str_eq clean.id id) validation _ h₂ in
      let (free, h₄) = bind_guard (not (is_some (lookup k rows))) conflict _ h₃ in
      elim (Bool-cases (str_eq k key)) [
        | inl same ↦
            let there : lookup k rows ≡ some row =
              ap (λ y. lookup y rows) ((str_eq_iff k key).0 same) ∙ leased.stored in
            absurd (cc (rw there at free))
        | inr other ↦
            rw (ok-injective (sym h₄), lookup-insert k key clean rows, other) leased.stored
      ]

  pub append_row-protects :
      (next : String) (e : OutboxEvent) {rows' : Rows} {r : OutboxEvent}
      → append_row next e rows ≡ ok (rows', r)
      → lookup key rows' ≡ some row
  unfolding append_row
  append_row-protects next e {rows'} h =
      let (normalized, sane, h₁) = >>=-eq-ok (sanitize_outbox_event false e) _ h in
      let (rows₁, made, h₂) =
        >>=-eq-ok
          (row_create (with_store_outbox_sequence next normalized).id
            (with_store_outbox_sequence next normalized) rows)
          _ h₁ in
      row_create-protects (with_store_outbox_sequence next normalized).id
        (with_store_outbox_sequence next normalized) {rows' = rows'}
        (made ∙ ap (λ y. ok y.0) (ok-injective h₂))

  settle_gone-protects :
      (d : Disposition) (f : OutboxDeliveryFailure) (source : OutboxEvent) {rows' : Rows}
      → settle_gone d f source rows ≡ ok rows'
      → lookup key rows' ≡ some row
  unfolding settle_gone
  settle_gone-protects d f source h = elim (Bool-cases (is_some source.lease_token)) [
    | inl was_leased ↦ rw (ok-injective (sym (rw was_leased at h))) leased.stored
    | inr unleased ↦
        let (next, made, h₁) = >>=-eq-ok (settled_event d f) _ (rw unleased at h) in
        row_create-protects next.id next h₁
  ]

  settle_row-protects :
      (d : Disposition) (f : OutboxDeliveryFailure) (id : String) (current : OutboxEvent)
      {rows' : Rows}
      → current_outbox_event id rows ≡ ok (some current)
      → text_eq? current.lease_token (some token) ≡ false
      → settle_row d f current rows ≡ ok rows'
      → lookup key rows' ≡ some row
  unfolding settle_row
  settle_row-protects d f id current read other h =
      let (next, made, h₁) = >>=-eq-ok (settled_event d (record f { event = some current })) _ h in
      update_unleased key token now rows row leased id current.id current next
        (outbox_expected_version current) read (inr refl) (inl other) h₁

  module _ (deep_equal : DataValue → DataValue → Bool) where
    settle_found-protects :
        (d : Disposition) (f : OutboxDeliveryFailure) (source : OutboxEvent)
        (found : Option OutboxEvent) {rows' : Rows}
        → current_outbox_event source.id rows ≡ ok found
        → presents_token token source ≡ false
        → settle_found deep_equal d f source found rows ≡ ok rows'
        → lookup key rows' ≡ some row
    unfolding settle_found
    settle_found-protects d f source none read other h = settle_gone-protects d f source h
    settle_found-protects d f source (some current) read other h =
        let (same, compared, h₁) =
          >>=-eq-ok (is_outbox_snapshot_current deep_equal current source) _ h in
        elim (Bool-cases same) [
          | inr stale ↦ rw (ok-injective (sym (rw stale at h₁))) leased.stored
          | inl fresh ↦
              let tokens = snapshot-token deep_equal current source (compared ∙ ap ok fresh) in
              settle_row-protects d f source.id current read
                (same_token_differs current.lease_token source.lease_token token tokens other)
                (rw fresh at h₁)
        ]

    -- What a settled failure presents is the token of its event.
    pub settle_one-protects :
        (d : Disposition) (f : OutboxDeliveryFailure) {rows' : Rows}
        → ((e : OutboxEvent) → f.event ≡ some e → presents_token token e ≡ false)
        → settle_one deep_equal d f rows ≡ ok rows'
        → lookup key rows' ≡ some row
    unfolding settle_one
    settle_one-protects d f other h = elim (Option-cases f.event) [
      | inl no_event ↦ absurd (cc (rw (no_event, settle_one) at h))
      | inr (source, at) ↦
          let (found, read, h₁) =
            >>=-eq-ok (current_outbox_event source.id rows) _ (rw (at, settle_one) at h) in
          settle_found-protects d f source found read (other source at) h₁
    ]
