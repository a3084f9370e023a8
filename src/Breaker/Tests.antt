-- ===== src/Breaker/Tests.antt =====
-- Runs of the circuit breaker and of its guards at concrete inputs.
use engrammic.Base.{ℕ, ◌+◌, ◌≡◌, refl, true, none, some, [], ◌∷◌, arith}
use engrammic.Breaker.{Breaker, prune, new_breaker, record_failure, check_open, is_open}
use engrammic.Breaker.Window.{IsValid}
use engrammic.Breaker.Runs.{run, fails, checks, is_open-check_open, run-new_breaker-IsValid}
use engrammic.Breaker.Guard.{Outcome, raises}

-- Two failures within ten seconds trip it for five.
abbrev shut : Breaker
shut = record {
  failure_threshold = 2;
  window_s = 10;
  cooldown_s = 5;
  failures = 99 ∷ 100 ∷ [];
  opened_at = some 100;
}

abbrev nearly : Breaker
nearly = record shut { failures = 99 ∷ []; opened_at = none }

abbrev failing : ℕ → ℕ × Outcome ℕ
failing s = (s + 1, raises 7)

opens : (record_failure nearly 100) ≡ (shut, true)
unfolding record_failure prune
opens = refl

run-new_breaker-IsValid_example :
    IsValid (run (new_breaker 2 10 5) ((1, fails) ∷ (2, fails) ∷ (4, checks) ∷ (9, checks) ∷ []))
run-new_breaker-IsValid_example =
    run-new_breaker-IsValid 2 10 5 ((1, fails) ∷ (2, fails) ∷ (4, checks) ∷ (9, checks) ∷ [])
      (omega arith)

shut-IsValid : IsValid shut
shut-IsValid = record { positive = omega arith; below = λ h. cc h }

is_open-check_open_example : is_open shut 103 ≡ ((check_open shut 103).0, (check_open shut 103).1)
is_open-check_open_example = is_open-check_open shut 103
