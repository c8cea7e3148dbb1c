-- ===== src/ExecutionBudget/Backoff.antt =====
-- src/core/execution-budget.ts: what a wait adds up to.
use active_ts.Prelude.{
  ℕ, zero, suc, ◌+◌, ◌-◌, ◌*◌, ◌≤◌, ◌<◌, min, ◌≡◌, refl, ◌∙◌, sym, Bool, true, false, some, List,
  [], ◌∷◌, ltb, ◌==◌, if◌then◌else◌, ◌⊎◌, length, arith, Bool-cases, inl, inr, All, ◌↔◌, ◌^◌,
}
use active_ts.Errors.{
  ActiveTsError, aborted, deadline, ok, throw, Result-cases, bind_guard, >>=-eq-ok, ok-injective,
  configuration,
}
use active_ts.ExecutionBudget.Defs.{
  ExecutionBudget, Moment, active_state, remaining_ms, max_delay, Wait, waiting, resolved, rejected,
  tick, fits, Happening, timer, abort, step, steps, backoff,
}

-- The milliseconds of the timers that fired.
abbrev pub slept : ExecutionBudget → Wait → List Happening → ℕ
slept b w [] = 0
slept b (waiting left delay) (timer m ∷ hs) =
    delay + slept b (step b (waiting left delay) (timer m)) hs
slept b w (h ∷ hs) = slept b (step b w h) hs

-- What is still to wait.
abbrev to_wait : Wait → ℕ
to_wait (waiting left delay) = left + delay
to_wait resolved = 0
to_wait (rejected e) = 0

-- No timer runs longer than it can, and none runs for no time.
abbrev pub IsTimely : Wait → Type 0
IsTimely (waiting left delay) = (0 < delay) × (delay ≤ max_delay)
IsTimely resolved = Unit
IsTimely (rejected e) = Unit

tick-IsTimely : (b : ExecutionBudget) (left : ℕ) (m : Moment) → IsTimely (tick b left m)
unfolding tick
tick-IsTimely b left m = elim (Result-cases (active_state b m)) [
  | inl (r, e) ↦ ground arith
  | inr (x, e) ↦ ground arith
]

steps-resolved : (b : ExecutionBudget) (hs : List Happening) → steps b resolved hs ≡ resolved
unfolding steps step
steps-resolved b [] = refl
steps-resolved b (h ∷ hs) = steps-resolved b hs

steps-rejected :
    (b : ExecutionBudget) (e : ActiveTsError) (hs : List Happening)
    → steps b (rejected e) hs ≡ rejected e
unfolding steps step
steps-rejected b e [] = refl
steps-rejected b e (h ∷ hs) = steps-rejected b e hs

slept-resolved : (b : ExecutionBudget) (hs : List Happening) → slept b resolved hs ≡ 0
unfolding step
slept-resolved b [] = refl
slept-resolved b (h ∷ hs) = slept-resolved b hs

-- The check of a tick passes.
abbrev pub is_active : ExecutionBudget → Moment → Bool
is_active b m = elim (active_state b m) [ ok r ↦ true | throw e ↦ false ]

-- What a tick leads to.
tick-cases :
    (b : ExecutionBudget) (left : ℕ) (m : Moment)
    → ((e : ActiveTsError) × (tick b left m ≡ rejected e) × (is_active b m ≡ false))
      ⊎ (((left ≡ 0) × (tick b left m ≡ resolved))
          ⊎ ((0 < left)
              × (tick b left m ≡ waiting (left - min left max_delay) (min left max_delay))))
unfolding tick
tick-cases b left m = elim (Result-cases (active_state b m)) [
  | inr (x, e) ↦ inl (x, rw (e, tick), rw (e, is_active))
  | inl (r, e) ↦ elim (Bool-cases (left == 0)) [
    | inl none_left ↦ inr (inl (ground arith, ground arith))
    | inr some_left ↦ inr (inr (ground arith, ground arith))
  ]
]

slept_waiting :
    (b : ExecutionBudget) (left delay : ℕ) (hs : List Happening)
    → steps b (waiting left delay) hs ≡ resolved
    → slept b (waiting left delay) hs ≡ left + delay
unfolding steps step
slept_waiting b left delay [] h = cc
slept_waiting b left delay (abort ∷ hs) h = elim (Bool-cases b.signal) [
  | inl has_signal ↦ let stays = steps-rejected b aborted hs in absurd (ground (arith, h, stays))
  | inr no_signal ↦ rw no_signal (slept_waiting b left delay hs (rw no_signal at h))
]
slept_waiting b left delay (timer m ∷ hs) h = elim (tick-cases b left m) [
  | inl (e, at, _) ↦ let stays = steps-rejected b e hs in absurd (cc (rw at at h, stays))
  | inr (inl (none_left, at)) ↦ rw at (omega (arith, slept-resolved b hs, none_left))
  | inr (inr (some_left, at)) ↦ rw at (
      omega
        (arith, slept_waiting b (left - min left max_delay) (min left max_delay) hs (rw at at h)))
]

-- Enough timers that pass their checks resolve the wait.
abbrev pub is_active_timer : ExecutionBudget → Happening → Bool
is_active_timer b (timer m) = is_active b m
is_active_timer b abort = false

long_enough :
    (ms n : ℕ) → 0 < ms → ms ≤ n * max_delay → (ms - min ms max_delay) + max_delay ≤ n * max_delay
long_enough ms zero more enough = omega arith
long_enough ms (suc k) more enough = omega arith

waiting-resolves :
    (b : ExecutionBudget) (left delay : ℕ) (hs : List Happening)
    → All (λ h. is_active_timer b h ≡ true) hs
    → left + max_delay ≤ length hs * max_delay
    → steps b (waiting left delay) hs ≡ resolved
unfolding steps step
waiting-resolves b left delay [] active enough = absurd (omega arith)
waiting-resolves b left delay (abort ∷ hs) active enough = absurd (cc active.0)
waiting-resolves b left delay (timer m ∷ hs) active enough = elim (tick-cases b left m) [
  | inl (e, at, stopped) ↦ absurd (cc (active.0, stopped))
  | inr (inl (none_left, at)) ↦ rw at (steps-resolved b hs)
  | inr (inr (some_left, at)) ↦ rw at (
      waiting-resolves b (left - min left max_delay) (min left max_delay) hs active.1 (omega arith))
]

backoff-ok :
    (b : ExecutionBudget) (ms : ℕ) (first second : Moment) {w : Wait}
    → backoff b ms first second ≡ ok w
    → w ≡ (if ms == 0 then resolved else tick b ms second)
unfolding backoff
backoff-ok b ms first second h =
    let (_, h₁) = bind_guard (ltb ms (2 ^ 53)) configuration _ h in
    let (remaining, active, h₂) = >>=-eq-ok (active_state b first) _ h₁ in
    let (_, h₃) = bind_guard (fits ms remaining) deadline _ h₂ in sym (ok-injective h₃)

slept-tick :
    (b : ExecutionBudget) (ms : ℕ) (m : Moment) (hs : List Happening)
    → steps b (tick b ms m) hs ≡ resolved
    → slept b (tick b ms m) hs ≡ ms
slept-tick b ms m hs h = elim (tick-cases b ms m) [
  | inl (e, at, _) ↦ let stays = steps-rejected b e hs in absurd (cc (rw at at h, stays))
  | inr (inl (none_left, at)) ↦ rw at (omega (arith, slept-resolved b hs, none_left))
  | inr (inr (some_left, at)) ↦
      rw at
        (omega (arith, slept_waiting b (ms - min ms max_delay) (min ms max_delay) hs (rw at at h)))
]

-- If a backoff begins to wait or is settled at once, and what happens then resolves it, the timers
-- that fired took exactly the milliseconds asked for.
pub backoff-slept :
    (b : ExecutionBudget) (ms : ℕ) (first second : Moment) (hs : List Happening) {w : Wait}
    → backoff b ms first second ≡ ok w
    → steps b w hs ≡ resolved
    → slept b w hs ≡ ms
backoff-slept b ms first second hs {w} h done = elim (Bool-cases (ms == 0)) [
  | inl no_wait ↦
      let at : w ≡ resolved = backoff-ok b ms first second h ∙ rw no_wait in
      rw at (ground (arith, slept-resolved b hs, no_wait))
  | inr some_wait ↦
      let at : w ≡ tick b ms second = backoff-ok b ms first second h ∙ rw some_wait in
      rw at (slept-tick b ms second hs (rw at at done))
]

tick-resolves :
    (b : ExecutionBudget) (ms : ℕ) (m : Moment) (hs : List Happening)
    → is_active b m ≡ true
    → All (λ h. is_active_timer b h ≡ true) hs
    → 0 < ms
    → ms ≤ length hs * max_delay
    → steps b (tick b ms m) hs ≡ resolved
tick-resolves b ms m hs active all more enough = elim (tick-cases b ms m) [
  | inl (e, at, stopped) ↦ absurd (cc (active, stopped))
  | inr (inl (none_left, at)) ↦ rw at (steps-resolved b hs)
  | inr (inr (some_left, at)) ↦ rw at (
      waiting-resolves b (ms - min ms max_delay) (min ms max_delay) hs all
        (long_enough ms (length hs) more enough))
]

-- If a backoff begins to wait or is settled at once, its first tick passes its check, and only timers
-- that pass their checks fire then, as many as the longest delay needs, it resolves.
pub backoff-resolves :
    (b : ExecutionBudget) (ms : ℕ) (first second : Moment) (hs : List Happening) {w : Wait}
    → backoff b ms first second ≡ ok w
    → is_active b second ≡ true
    → All (λ h. is_active_timer b h ≡ true) hs
    → ms ≤ length hs * max_delay
    → steps b w hs ≡ resolved
backoff-resolves b ms first second hs {w} h active all enough = elim (Bool-cases (ms == 0)) [
  | inl no_wait ↦
      let at : w ≡ resolved = backoff-ok b ms first second h ∙ rw no_wait in
      rw at (steps-resolved b hs)
  | inr some_wait ↦
      let at : w ≡ tick b ms second = backoff-ok b ms first second h ∙ rw some_wait in
      rw at (tick-resolves b ms second hs active all (ground arith) enough)
]

-- With a deadline, no abort and a delay that is a safe integer, a backoff is refused for the deadline
-- exactly when the delay would end at the deadline or later.
pub backoff_deadline_iff :
    (b : ExecutionBudget) (ms t : ℕ) (first second : Moment)
    → b.deadline_at ≡ some t
    → first.is_aborted ≡ false
    → ms < 2 ^ 53
    → (backoff b ms first second ≡ throw deadline) ↔ (t ≤ first.now + ms)
unfolding backoff active_state remaining_ms
backoff_deadline_iff b ms t first second has_deadline live safe =
    ground (arith, has_deadline, live, safe)
