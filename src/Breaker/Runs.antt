-- ===== src/Breaker/Runs.antt =====
-- Histories of the circuit breaker: calls one after the other, each with its clock reading.
use engrammic.Base.{
  ℕ, ◌+◌, ◌≤◌, ◌<◌, ◌≡◌, refl, ◌↔◌, true, false, Option, none, some, List, [], ◌∷◌, arith,
}
use engrammic.Breaker.{Breaker, new_breaker, record_failure, record_success, check_open, is_open}
use engrammic.Breaker.Window.{
  IsValid, record_failure-IsValid, record_success-IsValid, check_open-IsValid, length-prune-le,
}

pub data Call : Type 0 where
  fails succeeds checks : Call

pub step : Breaker → ℕ × Call → Breaker
step b (now, fails) = (record_failure b now).0
step b (now, succeeds) = (record_success b).0
step b (now, checks) = (check_open b now).0

pub run : Breaker → List (ℕ × Call) → Breaker
run b [] = b
run b (c ∷ cs) = run (step b c) cs

step-IsValid : (b : Breaker) (c : ℕ × Call) → IsValid b → IsValid (step b c)
unfolding step
step-IsValid b (now, fails) v = record_failure-IsValid b now v
step-IsValid b (now, succeeds) v = record_success-IsValid b v
step-IsValid b (now, checks) v = check_open-IsValid b now v

run-IsValid : (b : Breaker) (cs : List (ℕ × Call)) → IsValid b → IsValid (run b cs)
unfolding run
run-IsValid b [] v = v
run-IsValid b (c ∷ cs) v = run-IsValid (step b c) cs (step-IsValid b c v)

-- After any history of a new breaker with a positive threshold, a closed breaker holds fewer
-- failures than the threshold.
pub run-new_breaker-IsValid :
    (threshold window cooldown : ℕ) (cs : List (ℕ × Call))
    → 0 < threshold
    → IsValid (run (new_breaker threshold window cooldown) cs)
unfolding new_breaker
run-new_breaker-IsValid threshold window cooldown cs h =
    run-IsValid _ cs (record { positive = h; below = λ _. h })

-- A valid breaker reports open exactly while the cooldown after its opening lasts.
pub check_open_iff :
    (b : Breaker) (now : ℕ)
    → IsValid b
    → ((check_open b now).1 ≡ true)
      ↔ ((opened : ℕ) × (b.opened_at ≡ some opened) × (now < opened + b.cooldown_s))
unfolding check_open
check_open_iff b now v = (λ h. by_state b.opened_at refl h, λ (opened, e, h). ground arith)
  where
    by_state :
        (o : Option ℕ)
        → b.opened_at ≡ o
        → (check_open b now).1 ≡ true
        → (opened : ℕ) × (b.opened_at ≡ some opened) × (now < opened + b.cooldown_s)
    by_state none e h = absurd (ground (arith, length-prune-le b.window_s now b.failures))
    by_state (some t) e h = (t, e, ground arith)

-- The cooldown runs from the opening: a failure recorded while the breaker is open, however late,
-- does not extend it. A check at the opening time plus the cooldown or later closes the breaker
-- and forgets all failures.
pub check_open-record_failure :
    (b : Breaker) (opened failed now : ℕ)
    → b.opened_at ≡ some opened
    → opened + b.cooldown_s ≤ now
    → check_open (record_failure b failed).0 now
      ≡ (record b { failures = []; opened_at = none }, false, true)
unfolding check_open record_failure
check_open-record_failure b opened failed now e h = ground arith

-- `is_open` is `check_open` without the transition flag, in its answer and in the state it leaves.
pub is_open-check_open :
    (b : Breaker) (now : ℕ) → is_open b now ≡ ((check_open b now).0, (check_open b now).1)
unfolding is_open check_open
is_open-check_open b now = ground arith
