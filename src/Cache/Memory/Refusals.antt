-- ===== src/Cache/Memory/Refusals.antt =====
-- src/adapters/cache/memory.ts: which batches `setMany` refuses, and that it writes nothing of them.
use active_ts.Prelude.{
  ℕ, ◌+◌, ◌≤◌, ◌<◌, ◌≡◌, refl, ◌∙◌, sym, ap, ◌↔◌, true, false, Option, none, some, List, [], ◌∷◌,
  All, arith, inl, inr, if◌then◌else◌,
}
use active_ts.Prelude.Int.{ℤ, pos, negsuc}
use active_ts.Prelude.Text.{String, byte_length, has_null, str_eq_iff}
use active_ts.Prelude.Assoc.{IsMap, has_key}
use active_ts.SafeKeys.{is_safe_cache_key, assert_safe_cache_key, assert_safe_ttl}
use active_ts.DataValue.{DataValue, assert_cacheable_value}
use active_ts.Errors.{ok, throw, validation, Result-cases, >>=-eq-ok, bind_guard, ok-injective}
use active_ts.Cache.Memory.Defs.{
  Entry, MemoryCache, count_set_many, normalize_cache_entries, prepare, prepare_many, set_many,
  expiry, contains,
}
use active_ts.Cache.Memory.Checks.{prepare_many-IsChecked}
use active_ts.Cache.Memory.Writes.{prepare_many_lem}

-- A key of 1 to 4096 bytes without a null character.
abbrev pub IsSafeKey : String → Type 0
IsSafeKey key = (¬ (key ≡ "")) × (byte_length key ≤ 4096) × (has_null key ≡ false)

-- No time to live, or one from 1 to 9007199254740991 seconds.
abbrev pub IsTtl : Option ℤ → Type 0
IsTtl none = Unit
IsTtl (some (pos n)) = (0 < n) × (n ≤ 9007199254740991)
IsTtl (some (negsuc n)) = ⊥

abbrev pub IsWritableEntry : String × DataValue → Type 0
IsWritableEntry e = IsSafeKey e.0 × (assert_cacheable_value e.1 ≡ ok tt)

-- Each key is safe and stands once, each value can be cached, and the time to live is in range.
pub record IsWritable (es : List (String × DataValue)) (ttl : Option ℤ) : Type 0 where
  pub entries : All IsWritableEntry es
  pub distinct : IsMap es
  pub in_range : IsTtl ttl

IsSafeKey-iff : (key : String) → (assert_safe_cache_key key ≡ ok key) ↔ IsSafeKey key
unfolding assert_safe_cache_key is_safe_cache_key
IsSafeKey-iff String.[] = (λ h. absurd (cc h), λ safe. absurd (safe.0 refl))
IsSafeKey-iff (String.◌∷◌ c s) =
    (λ h. (λ e. absurd (cc e), ground (arith, h), ground (arith, h)), λ safe. ground (arith, safe))

safe_key_same : (key : String) {safe : String} → assert_safe_cache_key key ≡ ok safe → safe ≡ key
unfolding assert_safe_cache_key
safe_key_same key h = ground (arith, h)

IsTtl-iff :
    (ttl : Option ℤ) → ((seconds : Option ℕ) × (assert_safe_ttl ttl ≡ ok seconds)) ↔ IsTtl ttl
unfolding assert_safe_ttl
IsTtl-iff none = (λ h. tt, λ h. (none, refl))
IsTtl-iff (some (pos n)) = (λ (seconds, h). ground (arith, h), λ h. (some n, ground (arith, h)))
IsTtl-iff (some (negsuc n)) = (λ (seconds, h). absurd (cc h), λ h. absurd h)

-- What `setMany` has found of the entries when the keys and the values have passed.
normalize-writable :
    (seen : List String) (expires : Option ℕ) (es : List (String × DataValue))
    {safe : List (String × DataValue)} {p : List (String × Entry)}
    → normalize_cache_entries seen es ≡ ok safe
    → prepare expires safe ≡ ok p
    → All IsWritableEntry es
unfolding normalize_cache_entries prepare
normalize-writable seen expires [] h g = tt
normalize-writable seen expires ((key, v) ∷ es) h g =
    let (k, checked, h₁) = >>=-eq-ok (assert_safe_cache_key key) _ h in
    let (_, h₂) = bind_guard (if contains seen k then false else true) validation _ h₁ in
    let (rest, others, h₃) = >>=-eq-ok (normalize_cache_entries (k ∷ seen) es) _ h₂ in
    let same = safe_key_same key checked in
    let g₁ = rw (sym (ok-injective h₃)) at g in
    let (k', again, g₂) = >>=-eq-ok (assert_safe_cache_key k) _ g₁ in
    let (_, cacheable, g₃) = >>=-eq-ok (assert_cacheable_value v) _ g₂ in
    let (q, prepared, g₄) = >>=-eq-ok (prepare expires rest) _ g₃ in
    (
      ((IsSafeKey-iff key).0 (checked ∙ ap ok same), cacheable),
      normalize-writable (k ∷ seen) expires es others prepared,
    )

-- No key of the batch was seen before.
abbrev AreNew : List String → List (String × DataValue) → Type 0
AreNew seen es = All (λ (e : String × DataValue). contains seen e.0 ≡ false) es

AreNew-absent :
    (seen : List String) (key : String) (es : List (String × DataValue))
    → has_key key es ≡ false
    → AreNew seen es
    → AreNew (key ∷ seen) es
unfolding has_key contains
AreNew-absent seen key [] h new = tt
AreNew-absent seen key ((k, v) ∷ es) h new = (
  ground (arith, h, new.0, str_eq_iff k key, str_eq_iff key k),
  AreNew-absent seen key es (ground (arith, h)) new.1,
)

AreNew-nil : (es : List (String × DataValue)) → AreNew [] es
unfolding contains
AreNew-nil [] = tt
AreNew-nil (e ∷ es) = (refl, AreNew-nil es)

normalize-IsWritable :
    (seen : List String) (es : List (String × DataValue))
    → All IsWritableEntry es
    → IsMap es
    → AreNew seen es
    → normalize_cache_entries seen es ≡ ok es
unfolding normalize_cache_entries
normalize-IsWritable seen [] w distinct new = refl
normalize-IsWritable seen ((key, v) ∷ es) w distinct new =
    rw
      (
        (IsSafeKey-iff key).1 w.0.0,
        new.0,
        normalize-IsWritable (key ∷ seen) es w.1 distinct.1
            (AreNew-absent seen key es distinct.0 new.1),
      )
      refl

prepare-IsWritable :
    (expires : Option ℕ) (es : List (String × DataValue))
    → All IsWritableEntry es
    → (p : List (String × Entry)) × (prepare expires es ≡ ok p)
unfolding prepare
prepare-IsWritable expires [] w = ([], refl)
prepare-IsWritable expires ((key, v) ∷ es) w =
    let (p, others) = prepare-IsWritable expires es w.1 in
    (
      (key, record { value = v; expires = expires }) ∷ p,
      rw ((IsSafeKey-iff key).1 w.0.0, w.0.1, others) refl,
    )

prepare_many_iff :
    (now : ℕ) (es : List (String × DataValue)) (ttl : Option ℤ)
    → ((p : List (String × Entry)) × (prepare_many now es ttl ≡ ok p)) ↔ IsWritable es ttl
unfolding prepare_many
prepare_many_iff now es ttl = (
  λ (p, h).
      let (safe, e, h₁) = >>=-eq-ok (normalize_cache_entries [] es) _ h in
      let (seconds, t, h₂) = >>=-eq-ok (assert_safe_ttl ttl) _ h₁ in
      let (_, _, distinct, _) = prepare_many_lem now es ttl {p = p} h in
      record {
        entries = normalize-writable [] (expiry now seconds) es {safe = safe} {p = p} e h₂;
        distinct = distinct;
        in_range = (IsTtl-iff ttl).0 (seconds, t);
      },
  λ w.
      let (seconds, t) = (IsTtl-iff ttl).1 w.in_range in
      let (p, h) = prepare-IsWritable (expiry now seconds) es w.entries in
      (p, rw (normalize-IsWritable [] es w.entries w.distinct (AreNew-nil es), t) h),
)

abbrev pub set_counted : MemoryCache → MemoryCache
set_counted c = record c { stats = record stats { set_many = set_many + 1 } }
  where
    open c use {stats, stats.{set_many}}

-- A batch is accepted exactly if each of its keys is safe and stands in it once, each of its values can be
-- cached, and the time to live is absent or from 1 to 9007199254740991 seconds. Exactly any other batch is
-- refused as not valid, and then the call is counted and neither an entry nor another counter changes.
pub set_many_iff :
    (now : ℕ) (es : List (String × DataValue)) (ttl : Option ℤ) (c : MemoryCache)
    → (((set_many now es ttl c).1 ≡ ok tt) ↔ IsWritable es ttl)
      × ((set_many now es ttl c ≡ (set_counted c, throw validation)) ↔ ¬ IsWritable es ttl)
unfolding set_many count_set_many
set_many_iff now es ttl c = elim (Result-cases (prepare_many now es ttl)) [
  | inl (p, e) ↦
      let w = (prepare_many_iff now es ttl).0 (p, e) in
      let accepted : (set_many now es ttl c).1 ≡ ok tt = rw (e, set_many) refl in
      (
        (λ h. w, λ h. accepted),
        (λ h. absurd (cc (ap (λ r. r.1) h, accepted)), λ other. absurd (other w)),
      )
  | inr (x, e) ↦
      let is : x ≡ validation = prepare_many-IsChecked now es ttl x e in
      let refused : set_many now es ttl c ≡ (set_counted c, throw validation) =
        rw (e, set_many, is) refl in
      let other : ¬ IsWritable es ttl = λ w. cc (((prepare_many_iff now es ttl).1 w).1, e) in
      (
        (λ h. absurd (cc (ap (λ r. r.1) refused, h)), λ w. absurd (other w)),
        (λ h. other, λ h. refused),
      )
]
