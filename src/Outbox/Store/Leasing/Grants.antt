-- ===== src/Outbox/Store/Leasing/Grants.antt =====
-- src/core/outbox-store.ts, `lease`: what a call leases.
use mathlib.Core.List.{append-nil, append_assoc}
use active_ts.Prelude.{
  ℕ, ◌^◌, ltb, ◌&&◌, ◌≡◌, refl, ◌∙◌, ap, sym, Bool, true, false, Option, none, some, List, [], ◌∷◌,
  ◌++◌, length, length-append, concat, Bool-cases, arith, inl, inr,
}
use active_ts.Prelude.Text.{String}
use active_ts.DataValue.{DataValue}
use active_ts.Outbox.Event.{OutboxEvent}
use active_ts.Outbox.Memory.{normalize_limit, limit_reached}
use active_ts.Outbox.Memory.Delivers.{IsWithin, IsWithin-suc, IsWithin-zero}
use active_ts.Errors.{Result, Result-cases, ok, throw, ok-injective, bind_guard, configuration}
use active_ts.Outbox.Store.Table.{Rows}
use active_ts.Outbox.Store.Leasing.Order.{Leasing, finish}
use active_ts.Outbox.Store.Leasing.Rounds.{IsRound, lease_one-IsRound}
use active_ts.Outbox.Store.Leasing.{
  Others, Batch, Round, passed, claimed, lost, failed, release_claimed, lease_one, lease_page,
  lease_pages, leased_of, lease,
}

limit_reached-IsWithin :
    (limit : Option ℕ) (n : ℕ) → limit_reached limit n ≡ false → IsWithin limit n
limit_reached-IsWithin none n h = tt
limit_reached-IsWithin (some l) n h = ground arith

module _ (digest : String → String) (deep_equal : DataValue → DataValue → Bool) (others : Others)
    (token : String) (now : ℕ) (limit : Option ℕ) where
  abbrev Leases : List String → List OutboxEvent → List OutboxEvent → Type 0
  Leases held es ds = Leasing digest token now held es ds

  -- No event is leased any more.
  abbrev Ends : Batch → List OutboxEvent → Type 0
  Ends b ds = limit_reached limit (length b.leased) ≡ true → ds ≡ []

  -- What the loop over a page adds, for the pages before it.
  record IsPage (es : List OutboxEvent) (b b' : Batch) : Type 0 where
    added : List OutboxEvent
    leased : b'.leased ≡ b.leased ++ added
    within : IsWithin limit (length b'.leased)
    continues :
        (es' ds' : List OutboxEvent)
        → Ends b' ds'
        → Leases b'.blocked es' ds'
        → Leases b.blocked (es ++ es') (added ++ ds')

  IsRound-IsPage :
      (e : OutboxEvent) (es : List OutboxEvent) (b : Batch) (r : Round) {b' : Batch}
      → ((b₁ : Batch)
          → limit_reached limit (length b₁.leased) ≡ false
          → (lease_page digest deep_equal others token now limit es b₁).1 ≡ ok b'
          → IsPage es b₁ b')
      → limit_reached limit (length b.leased) ≡ false
      → lease_one digest deep_equal others token now e b ≡ r
      → IsRound digest deep_equal token now e b r
      → (lease_page digest deep_equal others token now limit (e ∷ es) b).1 ≡ ok b'
      → IsPage (e ∷ es) b b'
  unfolding lease_page
  IsRound-IsPage e es b (lost rows x) rest room one round h =
      absurd (cc (rw (one, lease_page) at h))
  IsRound-IsPage e es b (failed b₁ x) rest room one round h =
      absurd (cc (rw (one, lease_page, release_claimed) at h))
  IsRound-IsPage e es b (passed b₁) {b'} rest room one (same, leaves) h =
      let page : IsPage es b₁ b' = rest b₁ (rw same room) (rw (one, lease_page) at h) in
      record {
        added = page.added;
        leased = page.leased ∙ ap (λ ls. ls ++ page.added) same;
        within = page.within;
        continues = λ es' ds' ends later.
            leaves (es ++ es') (page.added ++ ds') (page.continues es' ds' ends later);
      }
  IsRound-IsPage e es b (claimed b₁) {b'} rest room one (won, more, grants) h =
      elim (Bool-cases (limit_reached limit (length b₁.leased))) [
        | inl full ↦
            let same : b₁ ≡ b' = ok-injective (rw (one, full, lease_page) at h) in
            record {
              added = won ∷ [];
              leased = ap (λ (x : Batch). x.leased) (sym same) ∙ more;
              within =
                  rw
                    (
                      ap (λ (x : Batch). x.leased) (sym same) ∙ more,
                      length-append b.leased (won ∷ []),
                    )
                    (IsWithin-suc limit (length b.leased) room);
              continues = λ es' ds' ends later.
                  rw
                    (ends
                      (ap (λ (x : Batch). limit_reached limit (length x.leased)) (sym same) ∙ full))
                    (grants (es ++ es') [] finish);
            }
        | inr free ↦
            let page : IsPage es b₁ b' = rest b₁ free (rw (one, free, lease_page) at h) in
            record {
              added = won ∷ page.added;
              leased =
                  page.leased
                  ∙ ap (λ ls. ls ++ page.added) more
                  ∙ append_assoc b.leased (won ∷ []) page.added;
              within = page.within;
              continues = λ es' ds' ends later.
                  grants (es ++ es') (page.added ++ ds') (page.continues es' ds' ends later);
            }
      ]

  lease_page-IsPage :
      (es : List OutboxEvent) (b : Batch) {b' : Batch}
      → limit_reached limit (length b.leased) ≡ false
      → (lease_page digest deep_equal others token now limit es b).1 ≡ ok b'
      → IsPage es b b'
  unfolding lease_page
  lease_page-IsPage [] b room h =
      let same = ok-injective h in
      record {
        added = [];
        leased = rw⁻¹ same (sym (append-nil b.leased));
        within = rw⁻¹ same (limit_reached-IsWithin limit (length b.leased) room);
        continues = λ es' ds' ends later. rw same later;
      }
  lease_page-IsPage (e ∷ es) b room h =
      IsRound-IsPage e es b (lease_one digest deep_equal others token now e b)
        (λ b₁. lease_page-IsPage es b₁) room refl
        (lease_one-IsRound digest deep_equal token now others e b) h

  -- What the loop over the pages adds.
  record IsPages (pages : List (List OutboxEvent)) (b b' : Batch) : Type 0 where
    all_added : List OutboxEvent
    all_leased : b'.leased ≡ b.leased ++ all_added
    all_within : IsWithin limit (length b.leased) → IsWithin limit (length b'.leased)
    ends : Ends b all_added
    grants : Leases b.blocked (concat pages) all_added

  no_more-IsPages :
      (pages : List (List OutboxEvent)) (b : Batch) {b' : Batch}
      → ◌≡◌ {A = Result Batch} (ok b) (ok b')
      → IsPages pages b b'
  no_more-IsPages pages b h =
      let same = ok-injective h in
      record {
        all_added = [];
        all_leased = rw⁻¹ same (sym (append-nil b.leased));
        all_within = λ w. rw⁻¹ same w;
        ends = λ _. refl;
        grants = finish;
      }

  lease_pages-IsPages :
      (pages : List (List OutboxEvent)) (b : Batch) {b' : Batch}
      → (lease_pages digest deep_equal others token now limit pages b).1 ≡ ok b'
      → IsPages pages b b'
  unfolding lease_pages
  lease_pages-IsPages [] b h = no_more-IsPages [] b h
  lease_pages-IsPages (page ∷ pages) b {b'} h =
      elim (Bool-cases (limit_reached limit (length b.leased))) [
        | inl full ↦ no_more-IsPages (page ∷ pages) b (rw (full, lease_pages) at h)
        | inr room ↦
            elim (Result-cases (lease_page digest deep_equal others token now limit page b).1) [
              | inr (x, failing) ↦ absurd (cc (rw (room, failing, lease_pages) at h))
              | inl (b₁, done) ↦
                  let first : IsPage page b b₁ = lease_page-IsPage page b room done in
                  let more : IsPages pages b₁ b' =
                    lease_pages-IsPages pages b₁ (rw (room, done, lease_pages) at h) in
                  record {
                    all_added = first.added ++ more.all_added;
                    all_leased =
                        more.all_leased
                        ∙ ap (λ ls. ls ++ more.all_added) first.leased
                        ∙ append_assoc b.leased first.added more.all_added;
                    all_within = λ _. more.all_within first.within;
                    ends = λ full. absurd (cc (full, room));
                    grants = first.continues (concat pages) more.all_added more.ends more.grants;
                  }
            ]
      ]

leased_of-ok :
    (r : Rows × Result Batch) {rows' : Rows} {out : List OutboxEvent}
    → leased_of r ≡ (rows', ok out)
    → (b : Batch) × (r.1 ≡ ok b) × (out ≡ b.leased)
unfolding leased_of
leased_of-ok (rows, throw x) h = absurd (cc (ap (λ y. y.1) h))
leased_of-ok (rows, ok b) h = (b, refl, ok-injective (sym (ap (λ y. y.1) h)))

normalize_limit-same : (limit : Option ℕ) {l : Option ℕ} → normalize_limit limit ≡ ok l → l ≡ limit
unfolding normalize_limit
normalize_limit-same none h = ok-injective (sym h)
normalize_limit-same (some n) h =
    ok-injective (sym (bind_guard (ltb 0 n && ltb n (2 ^ 53)) configuration (ok (some n)) h).1)

-- A call of `lease` that returns, whatever other workers do between its steps, has leased, of the events
-- that it listed and in their order, live and available ones without an active lease, and at most the
-- limit. Each of them was stored without an active lease when the claim read it, is what was read with the
-- lease of the call added, and was written over a row of the version that was read. Its check keys meet
-- neither the block keys of an event leased before it, as claimed, nor those of an event listed before it
-- and left behind, dead ones aside.
pub lease-Leasing :
    (digest : String → String) (deep_equal : DataValue → DataValue → Bool) (others : Others)
    (token : String) (now : ℕ) (limit : Option ℕ) (pages : List (List OutboxEvent)) (rows : Rows)
    {rows' : Rows} {out : List OutboxEvent}
    → lease digest deep_equal others token now limit pages rows ≡ (rows', ok out)
    → Leasing digest token now [] (concat pages) out × IsWithin limit (length out)
unfolding lease
lease-Leasing digest deep_equal others token now limit pages rows {rows'} {out} h =
    elim (Result-cases (normalize_limit limit)) [
      | inr (x, failing) ↦ absurd (cc (rw (failing, lease) at h))
      | inl (l, good) ↦
          let start : Batch = record { rows = rows; leased = []; blocked = [] } in
          let (b', all, is_out) =
            leased_of-ok (lease_pages digest deep_equal others token now l pages start) {out = out}
              (rw (good, lease) at h) in
          let found : IsPages digest deep_equal others token now l pages start b' =
            lease_pages-IsPages digest deep_equal others token now l pages start all in
          (
            rw (is_out, found.all_leased) found.grants,
            rw (is_out, sym (normalize_limit-same limit good)) (found.all_within (IsWithin-zero l)),
          )
    ]
