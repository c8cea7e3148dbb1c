-- ===== src/Int64Id/Laws.antt =====
-- src/core/datastore-int64-id.ts: an id made from a decimal gives that decimal back.
use active_ts.Prelude.{
  ◌≡◌, refl, ◌∙◌, ◌↔◌, true, some, arith, suc, ◌<◌, ◌≤◌, ◌+◌, zero, ℕ, if◌then◌else◌, Bool-cases,
  inl, inr,
}
use active_ts.Prelude.Int.{ℤ, pos, negsuc}
use active_ts.Prelude.Text.{String, ◌⧺◌, strip_prefix-append, strip_prefix-eq-some}
use active_ts.Prelude.Text.Decimal.{
  print_ℤ, read_ℤ-print_ℤ, starts_nonzero, digits, starts_nonzero-digits, all_digits_of_read,
  lt-pow_ten, read_digits-digits, read_digits,
}
use active_ts.Errors.{ok, throw, validation}
use active_ts.Int64Id.Defs.{
  int64_prefix, datastore_int64_decimal, datastore_int64_id, datastore_int64_id_value,
  datastore_int64_id_of_bigint, is_int64_id_value, is_canonical_decimal, is_canonical_magnitude,
}

value_of_id :
    (decimal id : String)
    → datastore_int64_id decimal ≡ ok id
    → datastore_int64_id_value id ≡ ok decimal
unfolding datastore_int64_id datastore_int64_id_value datastore_int64_decimal
value_of_id decimal id h = ground (arith, strip_prefix-append int64_prefix decimal)

id_of_value :
    (decimal id : String)
    → datastore_int64_id_value id ≡ ok decimal
    → datastore_int64_id decimal ≡ ok id
unfolding datastore_int64_id datastore_int64_id_value datastore_int64_decimal
id_of_value decimal id h = ground (arith, strip_prefix-eq-some int64_prefix id {r = decimal})

-- A decimal makes an id exactly when the id gives that decimal back.
pub datastore_int64_id_iff :
    (decimal id : String)
    → (datastore_int64_id decimal ≡ ok id) ↔ (datastore_int64_id_value id ≡ ok decimal)
datastore_int64_id_iff decimal id = (value_of_id decimal id, id_of_value decimal id)

canonical_of_read :
    (s : String) {n : ℕ}
    → read_digits 0 s ≡ some n
    → starts_nonzero s ≡ true
    → is_canonical_magnitude s ≡ true
canonical_of_read String.[] h p = cc
canonical_of_read (String.◌∷◌ c s) {n} h p =
    ground (arith, all_digits_of_read 0 (String.◌∷◌ c s) {n = n} h)

-- A magnitude that begins with 1 to 9 is canonical with a sign in front and without.
canonical_positive :
    (s : String)
    → is_canonical_magnitude s ≡ true
    → starts_nonzero s ≡ true
    → is_canonical_decimal s ≡ true
unfolding is_canonical_decimal
canonical_positive String.[] h p = cc
canonical_positive (String.◌∷◌ c s) h p = ground arith

canonical_negative :
    (s : String)
    → is_canonical_magnitude s ≡ true
    → starts_nonzero s ≡ true
    → is_canonical_decimal ("-" ⧺ s) ≡ true
unfolding is_canonical_decimal
canonical_negative String.[] h p = cc
canonical_negative (String.◌∷◌ c s) h p = ground arith

canonical_digits :
    (n : ℕ)
    → 0 < n
    → (starts_nonzero (digits (suc n) n) ≡ true)
      × (is_canonical_magnitude (digits (suc n) n) ≡ true)
canonical_digits n h =
    let first = starts_nonzero-digits n n (lt-pow_ten n) h in
    (first, canonical_of_read (digits (suc n) n) (read_digits-digits n n (lt-pow_ten n)) first)

canonical-print_ℤ : (z : ℤ) → is_canonical_decimal (print_ℤ z) ≡ true
unfolding print_ℤ
canonical-print_ℤ (pos zero) = unfold is_canonical_decimal in refl
canonical-print_ℤ (pos (suc n)) =
    let (first, canonical) = canonical_digits (suc n) (omega arith) in
    canonical_positive (digits (suc (suc n)) (suc n)) canonical first
canonical-print_ℤ (negsuc n) =
    let (first, canonical) = canonical_digits (suc n) (omega arith) in
    canonical_negative (digits (suc (suc n)) (suc n)) canonical first

-- A signed 64-bit integer, from -9223372036854775808 to 9223372036854775807, whose magnitude is above
-- that of every safe integer, 9007199254740991.
abbrev pub IsLargeInt64 : ℤ → Type 0
IsLargeInt64 (pos n) = (9007199254740991 < n) × (n ≤ 9223372036854775807)
IsLargeInt64 (negsuc n) = (9007199254740991 < n + 1) × (n + 1 ≤ 9223372036854775808)

is_int64_id_value_iff : (z : ℤ) → (is_int64_id_value z ≡ true) ↔ IsLargeInt64 z
is_int64_id_value_iff (pos n) = (λ h. ground (arith, h), λ h. ground (arith, h))
is_int64_id_value_iff (negsuc n) = (λ h. ground (arith, h), λ h. ground (arith, h))

of_bigint_lem :
    (z : ℤ)
    → datastore_int64_id_of_bigint z
      ≡ (if is_int64_id_value z then ok (int64_prefix ⧺ print_ℤ z) else throw validation)
unfolding datastore_int64_id_of_bigint
of_bigint_lem z = rw (canonical-print_ℤ z, read_ℤ-print_ℤ z)

-- A bigint makes an id, which is the prefix and its decimal, exactly if it is from -9223372036854775808 to
-- 9223372036854775807 and its magnitude is above 9007199254740991; exactly any other bigint is refused.
pub of_bigint-IsLargeInt64 :
    (z : ℤ)
    → ((datastore_int64_id_of_bigint z ≡ ok (int64_prefix ⧺ print_ℤ z)) ↔ IsLargeInt64 z)
      × ((datastore_int64_id_of_bigint z ≡ throw validation) ↔ ¬ IsLargeInt64 z)
of_bigint-IsLargeInt64 z = elim (Bool-cases (is_int64_id_value z)) [
  | inl accepted ↦
      let large = (is_int64_id_value_iff z).0 accepted in
      let made : datastore_int64_id_of_bigint z ≡ ok (int64_prefix ⧺ print_ℤ z) =
        of_bigint_lem z ∙ rw accepted refl in
      ((λ h. large, λ h. made), (λ h. absurd (cc (h, made)), λ other. absurd (other large)))
  | inr refused ↦
      let thrown : datastore_int64_id_of_bigint z ≡ throw validation =
        of_bigint_lem z ∙ rw refused refl in
      let small : ¬ IsLargeInt64 z = λ large. cc ((is_int64_id_value_iff z).1 large, refused) in
      ((λ h. absurd (cc (h, thrown)), λ large. absurd (small large)), (λ h. small, λ h. thrown))
]
