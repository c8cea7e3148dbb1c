-- ===== src/Cache/Memory/Checks.antt =====
-- src/adapters/cache/memory.ts: the checks of a batch throw one error.
use active_ts.Prelude.{
  ℕ, ◌≡◌, Bool, true, false, Option, none, some, List, [], ◌∷◌, arith, if◌then◌else◌,
}
use active_ts.Prelude.Int.{ℤ, pos, negsuc}
use active_ts.Prelude.Text.{String}
use active_ts.SafeKeys.{assert_safe_cache_key, assert_safe_ttl}
use active_ts.DataValue.{DataValue, assert_cacheable_value}
use active_ts.Errors.{Result, ok, throw, validation, ActiveTsError, guard, ◌>>=◌}
use active_ts.Cache.Memory.Defs.{normalize_cache_entries, prepare, prepare_many, expiry, contains}

-- Each check throws the one error.
abbrev pub IsChecked {ℓ} : {A : Type ℓ} → Result A → Type ℓ
IsChecked r = (x : ActiveTsError) → r ≡ throw x → x ≡ validation

>>=-IsChecked {κ ℓ} :
    {B : Type κ} {A : Type ℓ} (call : Result A) (next : A → Result B)
    → IsChecked call
    → ((a : A) → IsChecked (next a))
    → IsChecked (call >>= next)
>>=-IsChecked (ok a) next first rest = rest a
>>=-IsChecked (throw e) next first rest = λ x h. first x (cc h)

guard-IsChecked : (b : Bool) → IsChecked (guard b validation)
guard-IsChecked true x h = cc
guard-IsChecked false x h = cc

ok-IsChecked {ℓ} : {A : Type ℓ} (a : A) → IsChecked (ok a)
ok-IsChecked a x h = cc

safe_key-IsChecked : (key : String) → IsChecked (assert_safe_cache_key key)
unfolding assert_safe_cache_key
safe_key-IsChecked key x h = ground (arith, h)

cacheable-IsChecked : (v : DataValue) → IsChecked (assert_cacheable_value v)
unfolding assert_cacheable_value
cacheable-IsChecked v = guard-IsChecked _

ttl-IsChecked : (ttl : Option ℤ) → IsChecked (assert_safe_ttl ttl)
unfolding assert_safe_ttl
ttl-IsChecked none x h = cc
ttl-IsChecked (some (pos n)) x h = ground (arith, h)
ttl-IsChecked (some (negsuc n)) x h = ground (arith, h)

normalize-IsChecked :
    (seen : List String) (es : List (String × DataValue))
    → IsChecked (normalize_cache_entries seen es)
unfolding normalize_cache_entries
normalize-IsChecked seen [] = ok-IsChecked []
normalize-IsChecked seen ((key, v) ∷ es) =
    >>=-IsChecked (assert_safe_cache_key key) _ (safe_key-IsChecked key) (λ k.
      >>=-IsChecked (guard (if contains seen k then false else true) validation) _
        (guard-IsChecked _)
        (λ _.
          >>=-IsChecked (normalize_cache_entries (k ∷ seen) es) _
            (normalize-IsChecked (k ∷ seen) es) (λ rest. ok-IsChecked ((k, v) ∷ rest))))

prepare-IsChecked :
    (expires : Option ℕ) (es : List (String × DataValue)) → IsChecked (prepare expires es)
unfolding prepare
prepare-IsChecked expires [] = ok-IsChecked []
prepare-IsChecked expires ((key, v) ∷ es) =
    >>=-IsChecked (assert_safe_cache_key key) _ (safe_key-IsChecked key) (λ k.
      >>=-IsChecked (assert_cacheable_value v) _ (cacheable-IsChecked v) (λ _.
        >>=-IsChecked (prepare expires es) _ (prepare-IsChecked expires es)
          (λ rest. ok-IsChecked ((k, record { value = v; expires = expires }) ∷ rest))))

pub prepare_many-IsChecked :
    (now : ℕ) (es : List (String × DataValue)) (ttl : Option ℤ)
    → IsChecked (prepare_many now es ttl)
unfolding prepare_many
prepare_many-IsChecked now es ttl =
    >>=-IsChecked (normalize_cache_entries [] es) _ (normalize-IsChecked [] es) (λ safe.
      >>=-IsChecked (assert_safe_ttl ttl) _ (ttl-IsChecked ttl)
        (λ seconds. prepare-IsChecked (expiry now seconds) safe))
