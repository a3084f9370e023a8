-- ===== src/Breaker/Window.antt =====
-- The window of the circuit breaker: what `_prune` keeps, and when a failure trips it.
use engrammic.Base.{
  ℕ, ◌+◌, ◌≤◌, ◌<◌, ◌≡◌, true, none, some, List, [], ◌∷◌, ◌++◌, arith, ltb, length, All, Bool-cases,
  inl, inr,
}
use engrammic.Breaker.{Breaker, prune, record_failure, record_success, check_open}

-- Failures stand in the order in which they were recorded, none later than `now`.
abbrev pub IsTimed : ℕ → List ℕ → Type 0
IsTimed now [] = Unit {0}
IsTimed now (f ∷ fs) = All (λ g. f ≤ g) fs × (f ≤ now) × IsTimed now fs

-- A closed breaker holds fewer failures than its threshold.
pub record IsValid (b : Breaker) : Type 0 where
  pub positive : 0 < b.failure_threshold
  pub below : b.opened_at ≡ none → length b.failures < b.failure_threshold

pub length-prune-le : (w now : ℕ) (fs : List ℕ) → length (prune w now fs) ≤ length fs
unfolding prune
length-prune-le w now [] = omega arith
length-prune-le w now (f ∷ fs) = ground (arith, length-prune-le w now fs)

pub record_failure-IsValid : (b : Breaker) (now : ℕ) → IsValid b → IsValid (record_failure b now).0
unfolding record_failure
record_failure-IsValid b now v = ground arith

pub record_success-IsValid : (b : Breaker) → IsValid b → IsValid (record_success b).0
unfolding record_success
record_success-IsValid b v = ground arith

pub check_open-IsValid : (b : Breaker) (now : ℕ) → IsValid b → IsValid (check_open b now).0
unfolding check_open
check_open-IsValid b now v = ground (arith, length-prune-le b.window_s now b.failures)

All-in_window :
    (w now f : ℕ) (fs : List ℕ) → now ≤ f + w → All (λ g. f ≤ g) fs → All (λ g. now ≤ g + w) fs
All-in_window w now f [] h k = tt
All-in_window w now f (g ∷ fs) h k = (omega arith, All-in_window w now f fs h k.1)

-- On failures in order, pruning keeps only those inside the window.
pub All-prune : (w now : ℕ) (fs : List ℕ) → IsTimed now fs → All (λ f. now ≤ f + w) (prune w now fs)
unfolding prune
All-prune w now [] t = tt
All-prune w now (f ∷ fs) t = elim (Bool-cases (ltb (f + w) now)) [
  | inl old ↦ rw old (All-prune w now fs t.2)
  | inr fresh ↦ rw fresh (ground arith, All-in_window w now f fs (ground arith) t.0)
]

All-snoc :
    (f later : ℕ) (fs : List ℕ)
    → f ≤ later
    → All (λ g. f ≤ g) fs
    → All (λ g. f ≤ g) (fs ++ later ∷ [])
All-snoc f later [] h k = (h, tt)
All-snoc f later (g ∷ fs) h k = (k.0, All-snoc f later fs h k.1)

pub IsTimed-snoc :
    (now later : ℕ) (fs : List ℕ) → now ≤ later → IsTimed now fs → IsTimed later (fs ++ later ∷ [])
IsTimed-snoc now later [] h t = (tt, omega arith, tt)
IsTimed-snoc now later (f ∷ fs) h t =
    (All-snoc f later fs (omega arith) t.0, omega arith, IsTimed-snoc now later fs h t.2)

pub IsTimed-prune : (w now : ℕ) (fs : List ℕ) → IsTimed now fs → IsTimed now (prune w now fs)
unfolding prune
IsTimed-prune w now [] t = tt
IsTimed-prune w now (f ∷ fs) t = elim (Bool-cases (ltb (f + w) now)) [
  | inl old ↦ rw old (IsTimed-prune w now fs t.2)
  | inr fresh ↦ rw fresh t
]

failures-record_failure :
    (b : Breaker) (now : ℕ)
    → (record_failure b now).0.failures ≡ prune b.window_s now (b.failures ++ now ∷ [])
unfolding record_failure
failures-record_failure b now = ground arith

-- Where the failures stand in the order of time and none is later than now, a breaker trips on a
-- failure only if it was closed and that many failures stand in the window: those kept are at least
-- the threshold, each no older than the window, and the breaker is open from then on.
pub record_failure_trips :
    (b : Breaker) (last now : ℕ)
    → IsTimed last b.failures
    → last ≤ now
    → (record_failure b now).1 ≡ true
    → (b.opened_at ≡ none)
      × ((record_failure b now).0.opened_at ≡ some now)
      × (b.failure_threshold ≤ length (record_failure b now).0.failures)
      × All (λ f. now ≤ f + b.window_s) (record_failure b now).0.failures
unfolding record_failure
record_failure_trips b last now t h trips = (
  ground arith,
  ground arith,
  ground arith,
  rw (failures-record_failure b now)
      (All-prune b.window_s now _ (IsTimed-snoc last now b.failures h t)),
)
