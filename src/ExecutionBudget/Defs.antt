-- ===== src/ExecutionBudget/Defs.antt =====
-- src/core/execution-budget.ts: ExecutionBudget. Whether the signal has aborted and the time are
-- observed anew at each check, so each check is given what it observes.
use active_ts.Prelude.{
  ℕ, ◌-◌, ◌^◌, min, Bool, true, false, ◌&&◌, Option, none, some, List, [], ◌∷◌, ltb, ◌==◌,
  if◌then◌else◌,
}
use active_ts.Errors.{
  ActiveTsError, aborted, deadline, configuration, Result, ok, throw, guard, ◌>>=◌, ◌>>◌,
}

pub record ExecutionBudget : Type 0 where
  -- A signal is given.
  pub signal : Bool
  -- In milliseconds.
  pub deadline_at : Option ℕ

-- What a check finds: the signal's `aborted` and `Date.now()`.
pub record Moment : Type 0 where
  pub is_aborted : Bool
  pub now : ℕ

-- The constructor, for options that are plain.
unfoldable pub create_execution_budget : Bool → Option ℕ → Result ExecutionBudget
create_execution_budget signal none = ok (record { signal = signal; deadline_at = none })
create_execution_budget signal (some t) = do
  guard (ltb t (2 ^ 53)) configuration
  ok (record { signal = signal; deadline_at = some t })

-- `remainingMs`
unfoldable pub remaining_ms : ExecutionBudget → ℕ → Option ℕ
remaining_ms b now = elim b.deadline_at [ none ↦ none | some t ↦ some (t - now) ]

abbrev is_zero : Option ℕ → Bool
is_zero none = false
is_zero (some n) = n == 0

-- `activeState`: the remaining time.
unfoldable pub active_state : ExecutionBudget → Moment → Result (Option ℕ)
unfolding remaining_ms
active_state b m =
    if b.signal && m.is_aborted
    then throw aborted
    else let remaining = remaining_ms b m.now in
      if is_zero remaining then throw deadline else ok remaining

-- `run`: the operation is called once, with the remaining time, or not at all.
unfoldable pub run {ℓ} : {A : Type ℓ} → ExecutionBudget → Moment → (Option ℕ → Result A) → Result A
run b m operation = active_state b m >>= operation

-- The longest delay of a timer.
abbrev pub max_delay : ℕ
max_delay = 2_147_483_647

-- The promise of `backoff`: a timer runs with `left` milliseconds to wait after it, or it is settled.
pub data Wait : Type 0 where
  waiting : (left delay : ℕ) → Wait
  resolved : Wait
  rejected : ActiveTsError → Wait

-- `tick`
unfoldable pub tick : ExecutionBudget → ℕ → Moment → Wait
tick b left m = elim (active_state b m) [
  | throw e ↦ rejected e
  | ok _ ↦
      if left == 0 then resolved else let delay = min left max_delay in waiting (left - delay) delay
]

-- What can happen to a wait: its timer fires, or the signal aborts.
pub data Happening : Type 0 where
  timer : Moment → Happening
  abort : Happening

unfoldable pub step : ExecutionBudget → Wait → Happening → Wait
step b (waiting left delay) (timer m) = tick b left m
step b (waiting left delay) abort = if b.signal then rejected aborted else waiting left delay
step b resolved h = resolved
step b (rejected e) h = rejected e

unfoldable pub steps : ExecutionBudget → Wait → List Happening → Wait
steps b w [] = w
steps b w (h ∷ hs) = steps b (step b w h) hs

abbrev pub fits : ℕ → Option ℕ → Bool
fits ms none = true
fits ms (some remaining) = ltb ms remaining

-- `backoff`, with what its first check and its first tick observe.
unfoldable pub backoff : ExecutionBudget → ℕ → Moment → Moment → Result Wait
backoff b ms first second = do
  guard (ltb ms (2 ^ 53)) configuration
  remaining ← active_state b first
  guard (fits ms remaining) deadline
  ok (if ms == 0 then resolved else tick b ms second)
