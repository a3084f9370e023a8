-- ===== src/Breaker.antt =====
-- extraction/filter/circuit_breaker.py: the sliding-window circuit breaker.
-- Each method reads the clock once, under the lock: the reading is the argument `now`. Seconds are
-- natural numbers; `x - y >= z` on the source's floats is written `z + y ≤ x`.
pub mod Window
pub mod Runs
pub mod Guard
pub mod Tests
use engrammic.Base.{
  ℕ, ◌+◌, ◌-◌, Bool, true, false, not, ◌&&◌, Option, none, some, List, [], ◌∷◌, ◌++◌, ltb, leb,
  if◌then◌else◌, length, is_some,
}

pub record Breaker : Type 0 where
  pub failure_threshold : ℕ
  pub window_s : ℕ
  pub cooldown_s : ℕ
  pub failures : List ℕ
  pub opened_at : Option ℕ

pub new_breaker : ℕ → ℕ → ℕ → Breaker
new_breaker threshold window cooldown = record {
  failure_threshold = threshold;
  window_s = window;
  cooldown_s = cooldown;
  failures = [];
  opened_at = none;
}

-- Drops failures from the left while they are older than the window.
pub prune : ℕ → ℕ → List ℕ → List ℕ
prune window now [] = []
prune window now (f ∷ fs) = if ltb (f + window) now then prune window now fs else f ∷ fs

pub retry_after_seconds : Breaker → ℕ → ℕ
retry_after_seconds b now = elim b.opened_at [ none ↦ 0 | some t ↦ (t + b.cooldown_s) - now ]

pub record_failure : Breaker → ℕ → Breaker × Bool
record_failure b now =
    let kept = prune b.window_s now (b.failures ++ now ∷ []) in
    if leb b.failure_threshold (length kept) && not (is_some b.opened_at)
    then (record b { failures = kept; opened_at = some now }, true)
    else (record b { failures = kept }, false)

pub record_success : Breaker → Breaker × Bool
record_success b = (record b { failures = []; opened_at = none }, is_some b.opened_at)

-- The body shared by `is_open` and `check_open`: the new state, open?, and just closed?
pub check_open : Breaker → ℕ → Breaker × Bool × Bool
check_open b now = elim b.opened_at [
  | some t ↦
      if leb (t + b.cooldown_s) now
      then (record b { failures = []; opened_at = none }, false, true)
      else (b, true, false)
  | none ↦
      let kept = prune b.window_s now b.failures in
      (record b { failures = kept }, leb b.failure_threshold (length kept), false)
]

pub is_open : Breaker → ℕ → Breaker × Bool
is_open b now = elim b.opened_at [
  | some t ↦
      if leb (t + b.cooldown_s) now
      then (record b { failures = []; opened_at = none }, false)
      else (b, true)
  | none ↦
      let kept = prune b.window_s now b.failures in
      (record b { failures = kept }, leb b.failure_threshold (length kept))
]
