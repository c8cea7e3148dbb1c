-- ===== src/Outbox/Memory/Ids.antt =====
-- src/core/outbox-memory.ts, `assertAvailableIds`: the ids in the store stay distinct.
use active_ts.Prelude.{◌≡◌, refl, ◌∙◌, ap, true, false, not, List, [], ◌∷◌, ◌++◌, arith}
use mathlib.Core.List.{append-nil}
use active_ts.Prelude.Text.{String, str_eq_iff, str_eq_refl}
use active_ts.Outbox.Event.{OutboxEvent}
use active_ts.Outbox.Protocol.{has}
use active_ts.Outbox.Order.{has-append}
use active_ts.Errors.{ok, conflict, bind_guard}
use active_ts.Outbox.Memory.Defs.{ids, check_ids}

abbrev pub IsDistinct : List String → Type 0
IsDistinct [] = Unit
IsDistinct (k ∷ ks) = (has ks k ≡ false) × IsDistinct ks

pub ids-append : (xs ys : List OutboxEvent) → ids (xs ++ ys) ≡ ids xs ++ ids ys
unfolding ids
ids-append [] ys = refl
ids-append (x ∷ xs) ys = ap (λ ks. x.id ∷ ks) (ids-append xs ys)

-- A new id may come in anywhere.
pub IsDistinct-insert :
    (xs ys : List String) (k : String)
    → IsDistinct (xs ++ ys)
    → has (xs ++ ys) k ≡ false
    → IsDistinct (xs ++ k ∷ ys)
unfolding has
IsDistinct-insert [] ys k d h = (h, d)
IsDistinct-insert (x ∷ xs) ys k d h = (
  ground
      (arith, has-append xs ys x, has-append xs (k ∷ ys) x, str_eq_iff x k, str_eq_iff k x, d.0, h),
  IsDistinct-insert xs ys k d.1 (ground (arith, h)),
)

has-swap : (xs ys : List String) (k : String) → has (ys ++ xs) k ≡ has (xs ++ ys) k
has-swap xs ys k = ground (arith, has-append xs ys k, has-append ys xs k)

pub IsDistinct-swap : (xs ys : List String) → IsDistinct (xs ++ ys) → IsDistinct (ys ++ xs)
IsDistinct-swap [] ys d = rw (append-nil ys) d
IsDistinct-swap (x ∷ xs) ys d =
    IsDistinct-insert ys xs x (IsDistinct-swap xs ys d.1) (has-swap xs ys x ∙ d.0)

pub IsDistinct-move :
    (xs ys : List String) (k : String) → IsDistinct (xs ++ k ∷ ys) → IsDistinct (k ∷ xs ++ ys)
IsDistinct-move xs ys k d =
    let (new, rest) = IsDistinct-swap xs (k ∷ ys) d in
    (has-swap ys xs k ∙ new, IsDistinct-swap ys xs rest)

pub check_ids-IsDistinct :
    (existing incoming : List String) (es : List OutboxEvent) {u : Unit {0}}
    → check_ids existing incoming es ≡ ok u
    → IsDistinct existing
    → IsDistinct (ids es ++ existing)
      × ((k : String) → has incoming k ≡ true → has (ids es) k ≡ false)
unfolding check_ids ids has
check_ids-IsDistinct existing incoming [] h d = (d, λ k _. refl)
check_ids-IsDistinct existing incoming (e ∷ es) h d =
    let (new, r) = bind_guard (not (has incoming e.id)) conflict _ h in
    let (free, r') = bind_guard (not (has existing e.id)) conflict _ r in
    let (rest, apart) = check_ids-IsDistinct existing (e.id ∷ incoming) es r' d in
    (
      (ground (arith, has-append (ids es) existing e.id, apart e.id, str_eq_refl e.id), rest),
      λ k m. ground (arith, apart k, str_eq_iff e.id k, new, m),
    )

pub check_ids-ok :
    (existing incoming : List String) (es : List OutboxEvent)
    → IsDistinct (ids es ++ existing)
    → ((k : String) → has incoming k ≡ true → has (ids es) k ≡ false)
    → check_ids existing incoming es ≡ ok tt
unfolding check_ids ids has
check_ids-ok existing incoming [] d h = refl
check_ids-ok existing incoming (e ∷ es) d h =
    let new : has incoming e.id ≡ false = ground (arith, h e.id, str_eq_refl e.id) in
    let free : has existing e.id ≡ false = ground (arith, d.0, has-append (ids es) existing e.id) in
    rw (new, free)
      (check_ids-ok existing (e.id ∷ incoming) es d.1
        (λ k m. ground (arith, h k, d.0, str_eq_iff e.id k, has-append (ids es) existing e.id)))
