-- ===== src/Outbox/Memory/Delivers.antt =====
-- src/core/outbox-memory.ts, `drain` of the adapter.
use active_ts.Prelude.{
  ℕ, ◌+◌, ◌≤◌, ◌≡◌, refl, ap, sym, false, Option, none, some, List, [], ◌∷◌, ◌++◌, All, arith, leb,
  length, Bool-cases, inl, inr, length-append,
}
use active_ts.Prelude.Text.{String}
use active_ts.Outbox.Event.{OutboxEvent, is_some}
use active_ts.Errors.{ok, >>=-eq-ok, ok-injective}
use active_ts.Outbox.Order.{Delivery}
use active_ts.Outbox.Memory.Defs.{
  MemoryOutbox, Drain, place, consider, consider_live, drain_one, drain_loop, limit_reached,
  no_drain, normalize_limit, drain,
}
use active_ts.Outbox.Memory.Drain.{
  IsSane, HasOneKey, dead, drained, held_back, postponed, drain_one-Outcome, drain_loop-Delivery,
}

-- No more than the limit.
abbrev pub IsWithin : Option ℕ → ℕ → Type 0
IsWithin none n = Unit
IsWithin (some limit) n = n ≤ limit

not_leb : (l n : ℕ) → leb l n ≡ false → n + 1 ≤ l
not_leb l n h = ground arith

pub IsWithin-zero : (limit : Option ℕ) → IsWithin limit 0
IsWithin-zero none = tt
IsWithin-zero (some l) = omega arith

pub IsWithin-suc :
    (limit : Option ℕ) (n : ℕ) → limit_reached limit n ≡ false → IsWithin limit (n + 1)
IsWithin-suc none n room = tt
IsWithin-suc (some l) n room = not_leb l n room

module _ (digest : String → String) (limit : Option ℕ) (now : ℕ) where
  consider-ok :
      (e : OutboxEvent) (d : Drain)
      → HasOneKey digest e
      → (d' : Drain) × (consider digest limit now e d ≡ ok d')
  unfolding consider consider_live
  consider-ok e d (k, check, block) = elim (Bool-cases (is_some e.dead_lettered_at)) [
    | inl gone ↦ (record d { retained = d.retained ++ e ∷ [] }, rw gone)
    | inr live ↦ (place digest limit now e (k ∷ []) (k ∷ []) d, rw (live, check, block))
  ]

  drain_loop-ok :
      (es : List OutboxEvent) (d : Drain)
      → All IsSane es
      → All (HasOneKey digest) es
      → (d' : Drain) × (drain_loop digest limit now es d ≡ ok d')
  unfolding drain_loop drain_one
  drain_loop-ok [] d sane one = (d, refl)
  drain_loop-ok (e ∷ es) d sane one =
      let (d₁, first) = consider-ok e d one.0 in
      let (d', rest) = drain_loop-ok es d₁ sane.1 one.1 in (d', rw (sane.0, first) rest)

  drain_loop-IsWithin :
      (es : List OutboxEvent) (d : Drain) {d' : Drain}
      → All IsSane es
      → IsWithin limit (length d.drained)
      → drain_loop digest limit now es d ≡ ok d'
      → IsWithin limit (length d'.drained)
  unfolding drain_loop
  drain_loop-IsWithin [] d sane w h = rw (ok-injective (sym h)) w
  drain_loop-IsWithin (e ∷ es) d {d'} sane w h =
      let (d₁, first, rest) = >>=-eq-ok (drain_one digest limit now e d) _ h in
      let same : (d₁.drained ≡ d.drained → IsWithin limit (length d₁.drained)) = λ p. rw p w in
      let w₁ : IsWithin limit (length d₁.drained) =
        elim (drain_one-Outcome digest limit now e d sane.0 first) [
          | dead gone at ↦ same (ap (λ x. x.drained) at)
          | drained check live ck room free available at ↦
              rw (ap (λ x. x.drained) at, length-append d.drained (e ∷ []))
                (IsWithin-suc limit (length d.drained) room)
          | held_back check block live ck bk why at ↦ same (ap (λ x. x.drained) at)
          | postponed block live bk later at ↦ same (ap (λ x. x.drained) at)
        ] in
      drain_loop-IsWithin es d₁ sane.1 w₁ rest

-- If the stored events are as sanitizing leaves them and go by one order key each, and the limit is a
-- positive safe integer or absent, draining returns. Of the events, in their order, it delivers live
-- and available ones only, none behind a live event of its key that it leaves, and at most the limit;
-- the others stay in the store, in their order, and the dead letters stay.
pub drain-Delivery :
    (digest : String → String) (limit : Option ℕ) (now : ℕ) (m : MemoryOutbox)
    → All IsSane m.events
    → All (HasOneKey digest) m.events
    → normalize_limit limit ≡ ok limit
    → (m' : MemoryOutbox) × (out : List OutboxEvent) × (drain digest limit now m ≡ ok (m', out))
      × Delivery digest now [] m.events out m'.events
      × IsWithin limit (length out)
      × (m'.dead_letters ≡ m.dead_letters)
unfolding drain
drain-Delivery digest limit now m sane one good =
    let (d, h) = drain_loop-ok digest limit now m.events no_drain sane one in
    (
      record m { events = d.retained },
      d.drained,
      rw (good, h),
      drain_loop-Delivery digest limit now m.events sane one h,
      drain_loop-IsWithin digest limit now m.events no_drain sane (IsWithin-zero limit) h,
      refl,
    )
