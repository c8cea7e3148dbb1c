-- ===== src/Errors.antt =====
-- src/core/errors.ts: the error classes that the modelled code throws, and results that may be one.
use active_ts.Prelude.{if◌then◌else◌, ◌≡◌, refl, Bool, true, false, ◌⊎◌, inl, inr}

-- `aborted` and `deadline` are the two reasons of ActiveTsExecutionBudgetError.
pub data ActiveTsError : Type 0 where
  configuration validation not_found conflict : ActiveTsError
  aborted deadline : ActiveTsError

pub data Result {ℓ} (A : Type ℓ) : Type ℓ where
  ok : A → Result A
  throw : ActiveTsError → Result A

-- `if (!test) throw error`
abbrev pub guard : Bool → ActiveTsError → Result (Unit {0})
guard test error = if test then ok tt else throw error

-- A call, and what is done with its result; an error ends the method.
infixl 5 ◌>>=◌
abbrev pub ◌>>=◌ {κ ℓ} :
    {B : Type κ} {A : Type ℓ} (call : Result A) (next : A → Result B) → Result B
ok result >>= next = next result
throw error >>= next = throw error

pub Result-cases {ℓ} :
    {A : Type ℓ} (r : Result A) → ((a : A) × (r ≡ ok a)) ⊎ ((e : ActiveTsError) × (r ≡ throw e))
Result-cases (ok a) = inl (a, refl)
Result-cases (throw e) = inr (e, refl)

-- When both return, the call did.
pub >>=-eq-ok {κ ℓ} :
    {B : Type κ} {A : Type ℓ} (call : Result A) (next : A → Result B) {final : B}
    → (call >>= next) ≡ ok final
    → (result : A) × (call ≡ ok result) × (next result ≡ ok final)
>>=-eq-ok (ok result) next returns = (result, refl, returns)
>>=-eq-ok (throw error) next returns = cc

-- A check, and what is done after it.
infixl 5 ◌>>◌
abbrev pub ◌>>◌ {κ} : {B : Type κ} (check : Result (Unit {0})) (next : Result B) → Result B
check >> next = check >>= λ _. next

pub guard-eq-ok : (b : Bool) (e : ActiveTsError) {u : Unit {0}} → guard b e ≡ ok u → b ≡ true
guard-eq-ok true e h = refl
guard-eq-ok false e h = cc

pub ok-injective {ℓ} : {A : Type ℓ} {a b : A} → ok a ≡ ok b → a ≡ b
ok-injective h = cc

-- Inversion of a check that is followed by `m`.
pub bind_guard {κ} :
    {B : Type κ} (b : Bool) (x : ActiveTsError) (m : Result B) {c : B}
    → (guard b x >> m) ≡ ok c
    → (b ≡ true) × (m ≡ ok c)
bind_guard true x m h = (refl, h)
bind_guard false x m h = cc
