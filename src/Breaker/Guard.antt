-- ===== src/Breaker/Guard.antt =====
-- engine/storage_circuit.py: calls to a storage backend behind its circuit breaker.
-- The backend is a parameter: a coroutine takes the backend's state `s` and returns or raises. The
-- clock is read twice, by `check_open` and then by the call that follows it.
use engrammic.Base.{
  ℕ, ◌+◌, ◌-◌, ◌<◌, ◌≡◌, refl, inl, inr, Bool, true, false, Option, none, some, List, [], ◌∷◌, ◌++◌,
  arith, if◌then◌else◌, Bool-cases,
}
use engrammic.Breaker.{Breaker, retry_after_seconds, record_failure, record_success, check_open}
use engrammic.Breaker.Window.{
  IsValid, record_success-IsValid, check_open-IsValid, record_failure-IsValid,
}

-- `raises e` is an exception; exceptions are told apart by a number.
pub data Outcome {ℓ} (A : Type ℓ) : Type ℓ where
  returns : A → Outcome A
  raises : ℕ → Outcome A

pub data Answer {ℓ} (A : Type ℓ) : Type ℓ where
  value : A → Answer A
  reraised : ℕ → Answer A
  circuit_open : ℕ → Answer A

-- `_on_trip` and `_on_reset`: the log lines and metrics of a transition.
pub data Notice : Type 0 where
  tripped reset : Notice

abbrev pub notices : Bool → Notice → List Notice
notices true n = n ∷ []
notices false n = []

-- `is_infrastructure_error is None or isinstance(exc, is_infrastructure_error)`
abbrev pub should_trip : Option (ℕ → Bool) → ℕ → Bool
should_trip none e = true
should_trip (some infrastructure) e = infrastructure e

-- The value that a degrading caller sees in place of an answer.
abbrev pub degraded {ℓ} : {A : Type ℓ} → A → Answer A → A
degraded default (value a) = a
degraded default (reraised e) = default
degraded default (circuit_open retry) = default

module _ {ℓ κ} {S : Type ℓ} {A : Type κ} where
  -- `except`: record the failure if it counts, and report the exception.
  hard_fail_settle :
      Option (ℕ → Bool)
      → Breaker
      → List Notice
      → ℕ
      → S × Outcome A
      → Breaker × S × List Notice × Answer A
  hard_fail_settle infra b log now (s, returns a) =
      let (b', closed) = record_success b in (b', s, log ++ notices closed reset, value a)
  hard_fail_settle infra b log now (s, raises e) =
      let (b', trips) = record_failure b now in
      if should_trip infra e
      then (b', s, log ++ notices trips tripped, reraised e)
      else (b, s, log, reraised e)

  pub guard_hard_fail :
      Option (ℕ → Bool)
      → (S → S × Outcome A)
      → Breaker
      → S
      → ℕ
      → ℕ
      → Breaker × S × List Notice × Answer A
  unfolding hard_fail_settle
  guard_hard_fail infra coro b s first second =
      let (b', open_, just_closed) = check_open b first in
      if open_
      then (b', s, notices just_closed reset, circuit_open (retry_after_seconds b' second))
      else hard_fail_settle infra b' (notices just_closed reset) second (coro s)

  degrade_settle :
      A
      → Option (ℕ → Bool)
      → Breaker
      → List Notice
      → ℕ
      → S × Outcome A
      → Breaker × S × List Notice × A
  degrade_settle default infra b log now (s, returns a) =
      let (b', closed) = record_success b in (b', s, log ++ notices closed reset, a)
  degrade_settle default infra b log now (s, raises e) =
      let (b', trips) = record_failure b now in
      if should_trip infra e
      then (b', s, log ++ notices trips tripped, default)
      else (b, s, log, default)

  pub guard_degrade :
      A
      → Option (ℕ → Bool)
      → (S → S × Outcome A)
      → Breaker
      → S
      → ℕ
      → ℕ
      → Breaker × S × List Notice × A
  unfolding degrade_settle
  guard_degrade default infra coro b s first second =
      let (b', open_, just_closed) = check_open b first in
      if open_
      then (b', s, notices just_closed reset, default)
      else degrade_settle default infra b' (notices just_closed reset) second (coro s)

  settle-degraded :
      (default : A) (infra : Option (ℕ → Bool)) (b : Breaker) (log : List Notice) (now : ℕ)
      (o : S × Outcome A)
      → let h = hard_fail_settle infra b log now o in
        degrade_settle default infra b log now o ≡ (h.0, h.1, h.2, degraded default h.3)
  unfolding hard_fail_settle degrade_settle
  settle-degraded default infra b log now (s, returns a) = refl
  settle-degraded default infra b log now (s, raises e) = ground arith

  -- The degrading guard changes the breaker and the backend, and reports transitions, exactly as
  -- the hard-fail guard does, and its value is the hard-fail guard's, or the default where that one
  -- raises: it never raises itself.
  pub guard_degrade-guard_hard_fail :
      (default : A) (infra : Option (ℕ → Bool)) (coro : S → S × Outcome A) (b : Breaker) (s : S)
      (first second : ℕ)
      → let h = guard_hard_fail infra coro b s first second in
        guard_degrade default infra coro b s first second ≡ (h.0, h.1, h.2, degraded default h.3)
  unfolding guard_hard_fail guard_degrade
  guard_degrade-guard_hard_fail default infra coro b s first second =
      elim (Bool-cases (check_open b first).1) [
        | inl shut ↦ rw shut
        | inr through ↦ rw through (settle-degraded default infra _ _ second (coro s))
      ]

  -- While the breaker cools down the backend is not called, whatever the coroutine: its state and
  -- the breaker stay as they are, nothing is reported, and the error carries the time that is left.
  pub guard_hard_fail_shields :
      (infra : Option (ℕ → Bool)) (coro : S → S × Outcome A) (b : Breaker) (s : S)
      (opened first second : ℕ)
      → b.opened_at ≡ some opened
      → first < opened + b.cooldown_s
      → guard_hard_fail infra coro b s first second
        ≡ (b, s, [], circuit_open (opened + b.cooldown_s - second))
  unfolding guard_hard_fail check_open retry_after_seconds
  guard_hard_fail_shields infra coro b s opened first second e h = ground arith

  settle-IsValid :
      (infra : Option (ℕ → Bool)) (b : Breaker) (log : List Notice) (now : ℕ) (o : S × Outcome A)
      → IsValid b
      → IsValid (hard_fail_settle infra b log now o).0
  unfolding hard_fail_settle
  settle-IsValid infra b log now (s, returns a) v = record_success-IsValid b v
  settle-IsValid infra b log now (s, raises e) v = elim (Bool-cases (should_trip infra e)) [
    | inl counts ↦ rw counts (record_failure-IsValid b now v)
    | inr other ↦ rw other v
  ]

  -- Whatever the coroutine does, the guard keeps the breaker valid.
  pub guard_hard_fail-IsValid :
      (infra : Option (ℕ → Bool)) (coro : S → S × Outcome A) (b : Breaker) (s : S)
      (first second : ℕ)
      → IsValid b
      → IsValid (guard_hard_fail infra coro b s first second).0
  unfolding guard_hard_fail
  guard_hard_fail-IsValid infra coro b s first second v = elim (Bool-cases (check_open b first).1) [
    | inl shut ↦ rw shut (check_open-IsValid b first v)
    | inr through ↦
        rw through (settle-IsValid infra _ _ second (coro s) (check_open-IsValid b first v))
  ]
