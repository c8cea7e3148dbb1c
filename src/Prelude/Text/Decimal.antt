-- ===== src/Prelude/Text/Decimal.antt =====
-- Decimal numbers in text: `String(n)`, `BigInt.prototype.toString`, and reading digits back.
use Prim.Native.Nat.{ℕ, zero, suc, ◌+◌, ◌*◌, ◌-◌, ◌/◌, ◌%◌, ◌^◌, ◌<◌}
use mathlib.Core.Path.{◌≡◌, refl, ap, ◌∙◌}
use mathlib.Core.Bool.{Bool, true, false, ◌&&◌}
use mathlib.Core.Option.{Option, none, some}
use mathlib.Core.Option
use native.Mathlib.Nat.{pow-suc}
use native.Mathlib.Omega.{arith}
use active_ts.Prelude.Int.{ℤ, pos, negsuc}
use active_ts.Prelude.Tests.{leb, ltb, ◌==◌, if◌then◌else◌, Bool-cases, lt→ltb, ltb→lt}
use mathlib.Core.Logic.{inl, inr}
use active_ts.Prelude.Text.{String, Char, code, ◌⧺◌}

abbrev pub is_digit : Char → Bool
is_digit c = leb b'0' (code c) && leb (code c) b'9'

-- One decimal digit.
abbrev pub digit : ℕ → String
digit zero = "0"
digit (suc zero) = "1"
digit (suc (suc zero)) = "2"
digit (suc (suc (suc zero))) = "3"
digit (suc (suc (suc (suc zero)))) = "4"
digit (suc (suc (suc (suc (suc zero))))) = "5"
digit (suc (suc (suc (suc (suc (suc zero)))))) = "6"
digit (suc (suc (suc (suc (suc (suc (suc zero))))))) = "7"
digit (suc (suc (suc (suc (suc (suc (suc (suc zero)))))))) = "8"
digit _ = "9"

-- The decimal digits of a number below 10 ^ fuel.
unfoldable pub digits : ℕ → ℕ → String
digits zero n = ""
digits (suc fuel) n =
    let longer = digits fuel (n / 10) ⧺ digit (n % 10) in if ltb n 10 then digit n else longer

abbrev pub negate : ℕ → ℤ
negate zero = pos 0
negate (suc n) = negsuc n

-- `String(n)` of an integer. A number has at most as many digits as itself and one.
unfoldable pub print_ℤ : ℤ → String
unfolding digits
print_ℤ (pos n) = digits (suc n) n
print_ℤ (negsuc n) = "-" ⧺ digits (suc (suc n)) (suc n)

-- Reads digits behind the value `acc`.
unfoldable pub read_digits : ℕ → String → Option ℕ
read_digits acc String.[] = some acc
read_digits acc (String.◌∷◌ c s) =
    if is_digit c then read_digits (acc * 10 + (code c - b'0')) s else none

-- Reads digits behind an optional '-'; the empty text is 0, as for `Number` and `BigInt`.
unfoldable pub read_ℤ : String → Option ℤ
unfolding read_digits
read_ℤ String.[] = some (pos 0)
read_ℤ (String.◌∷◌ c s) =
    if code c == b'-'
    then Option.map negate (read_digits 0 s)
    else Option.map pos (read_digits 0 (String.◌∷◌ c s))

read_digits-append :
    (a : ℕ) (s t : String) {n : ℕ}
    → read_digits a s ≡ some n
    → read_digits a (s ⧺ t) ≡ read_digits n t
unfolding read_digits
read_digits-append a String.[] t h = ground arith
read_digits-append a (String.◌∷◌ c s) t {n} h =
    ground (arith, read_digits-append (a * 10 + (code c - b'0')) s t {n = n})

read_digits-digit : (a d : ℕ) → d < 10 → read_digits a (digit d) ≡ some (a * 10 + d)
unfolding read_digits
read_digits-digit a zero h = refl
read_digits-digit a (suc zero) h = refl
read_digits-digit a (suc (suc zero)) h = refl
read_digits-digit a (suc (suc (suc zero))) h = refl
read_digits-digit a (suc (suc (suc (suc zero)))) h = refl
read_digits-digit a (suc (suc (suc (suc (suc zero))))) h = refl
read_digits-digit a (suc (suc (suc (suc (suc (suc zero)))))) h = refl
read_digits-digit a (suc (suc (suc (suc (suc (suc (suc zero))))))) h = refl
read_digits-digit a (suc (suc (suc (suc (suc (suc (suc (suc zero)))))))) h = refl
read_digits-digit a (suc (suc (suc (suc (suc (suc (suc (suc (suc zero))))))))) h = refl
read_digits-digit a (suc (suc (suc (suc (suc (suc (suc (suc (suc (suc d)))))))))) h =
    absurd (omega arith)

-- Digits read back, whatever bounds their number.
pub read_digits-digits :
    (fuel n : ℕ) → n < 10 ^ suc fuel → read_digits 0 (digits (suc fuel) n) ≡ some n
unfolding digits
read_digits-digits zero n h =
    let small : n < 10 = omega arith in
    rw (lt→ltb n 10 small) (read_digits-digit 0 n small ∙ ap some (omega arith))
read_digits-digits (suc fuel) n h = elim (Bool-cases (ltb n 10)) [
  | inl short ↦ rw short (read_digits-digit 0 n (ltb→lt n 10 short) ∙ ap some (omega arith))
  | inr long ↦
      let fewer : n / 10 < 10 ^ suc fuel = omega (arith, pow-suc 10 (suc fuel)) in
      rw long (
        read_digits-append 0 _ (digit (n % 10)) (read_digits-digits fuel (n / 10) fewer)
        ∙ read_digits-digit (n / 10) (n % 10) (omega arith)
        ∙ ap some (omega arith))
]

read_ℤ_of_digits : (s : String) {n : ℕ} → read_digits 0 s ≡ some n → read_ℤ s ≡ some (pos n)
unfolding read_ℤ
read_ℤ_of_digits String.[] h = ground arith
read_ℤ_of_digits (String.◌∷◌ c s) {n} h = elim (Bool-cases (code c == b'-')) [
  | inl minus ↦ absurd (ground arith)
  | inr plain ↦ ground arith
]

pub lt-pow_ten : (n : ℕ) → n < 10 ^ suc n
lt-pow_ten zero = omega arith
lt-pow_ten (suc n) = omega (arith, lt-pow_ten n, pow-suc 10 (suc n))

-- What `print_ℤ` writes reads back.
pub read_ℤ-print_ℤ : (z : ℤ) → read_ℤ (print_ℤ z) ≡ some z
unfolding print_ℤ
read_ℤ-print_ℤ (pos n) = read_ℤ_of_digits _ (read_digits-digits n n (lt-pow_ten n))
read_ℤ-print_ℤ (negsuc n) =
    unfold read_ℤ in rw (read_digits-digits (suc n) (suc n) (lt-pow_ten (suc n)))

-- `^\d*$`
abbrev pub all_digits : String → Bool
all_digits String.[] = true
all_digits (String.◌∷◌ c s) = is_digit c && all_digits s

-- `^[1-9]`
abbrev pub starts_nonzero : String → Bool
starts_nonzero String.[] = false
starts_nonzero (String.◌∷◌ c s) = leb b'1' (code c) && leb (code c) b'9'

pub all_digits_of_read :
    (a : ℕ) (s : String) {n : ℕ} → read_digits a s ≡ some n → all_digits s ≡ true
unfolding read_digits
all_digits_of_read a String.[] h = refl
all_digits_of_read a (String.◌∷◌ c s) {n} h =
    ground (arith, all_digits_of_read (a * 10 + (code c - b'0')) s {n = n})

starts_nonzero-append : (s t : String) → starts_nonzero s ≡ true → starts_nonzero (s ⧺ t) ≡ true
starts_nonzero-append String.[] t h = cc
starts_nonzero-append (String.◌∷◌ c s) t h = h

starts_nonzero-digit : (d : ℕ) → d < 10 → 0 < d → starts_nonzero (digit d) ≡ true
starts_nonzero-digit zero h p = absurd (omega arith)
starts_nonzero-digit (suc zero) h p = refl
starts_nonzero-digit (suc (suc zero)) h p = refl
starts_nonzero-digit (suc (suc (suc zero))) h p = refl
starts_nonzero-digit (suc (suc (suc (suc zero)))) h p = refl
starts_nonzero-digit (suc (suc (suc (suc (suc zero))))) h p = refl
starts_nonzero-digit (suc (suc (suc (suc (suc (suc zero)))))) h p = refl
starts_nonzero-digit (suc (suc (suc (suc (suc (suc (suc zero))))))) h p = refl
starts_nonzero-digit (suc (suc (suc (suc (suc (suc (suc (suc zero)))))))) h p = refl
starts_nonzero-digit (suc (suc (suc (suc (suc (suc (suc (suc (suc d))))))))) h p = refl

-- No zero is written in front of a positive number.
pub starts_nonzero-digits :
    (fuel n : ℕ) → n < 10 ^ suc fuel → 0 < n → starts_nonzero (digits (suc fuel) n) ≡ true
unfolding digits
starts_nonzero-digits zero n h p =
    let small : n < 10 = omega arith in rw (lt→ltb n 10 small) (starts_nonzero-digit n small p)
starts_nonzero-digits (suc fuel) n h p = elim (Bool-cases (ltb n 10)) [
  | inl short ↦ rw short (starts_nonzero-digit n (ltb→lt n 10 short) p)
  | inr long ↦
      let fewer : n / 10 < 10 ^ suc fuel = omega (arith, pow-suc 10 (suc fuel)) in
      let positive : 0 < n / 10 = ground arith in
      rw long (
        starts_nonzero-append (digits (suc fuel) (n / 10)) (digit (n % 10))
          (starts_nonzero-digits fuel (n / 10) fewer positive))
]
