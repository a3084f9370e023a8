-- ===== src/Vectors/Losses.antt =====
-- When a failed deletion reaches the dead-letter queue.
use mathlib.Core.List.{reverse, reverse-cons}
use engrammic.Base.{ℕ, zero, suc, ◌<◌, ◌≡◌, refl, none, some, List, [], ◌∷◌, ◌++◌, arith, length}
use engrammic.Vectors.{
  Message, Attempts, DeadLetter, delete_vector, pop_right, dequeue_failed_deletes,
}

-- A deletion that fails three times, the last with a text, is queued once with that text; one that
-- succeeds on one of three attempts is not queued.
pub delete_vector_cases :
    (attempts : Attempts) (silo node : ℕ) (queue : List DeadLetter)
    → (((i : ℕ) × (i < 3) × (attempts i ≡ none)) → delete_vector attempts silo node queue ≡ queue)
      × ((m₀ m₁ : Message) (c : ℕ) (m₂ : Message)
          → attempts 0 ≡ some m₀
          → attempts 1 ≡ some m₁
          → attempts 2 ≡ some (c ∷ m₂)
          → delete_vector attempts silo node queue
            ≡ record { silo = silo; node = node; error = c ∷ m₂ } ∷ queue)
unfolding delete_vector
delete_vector_cases attempts silo node queue = (succeeds, λ m₀ m₁ c m₂ e₀ e₁ e₂. ground arith)
  where
    succeeds :
        ((i : ℕ) × (i < 3) × (attempts i ≡ none)) → delete_vector attempts silo node queue ≡ queue
    succeeds (zero, _, e) = ground arith
    succeeds (suc zero, _, e) = ground arith
    succeeds (suc (suc zero), _, e) = ground arith
    succeeds (suc (suc (suc i)), h, e) = absurd (omega arith)

-- After three failures of which the last has no text, nothing is queued: the loop tells failure
-- from success by the text.
pub delete_vector_lost :
    (attempts : Attempts) (silo node : ℕ) (queue : List DeadLetter) (m₀ m₁ : Message)
    → attempts 0 ≡ some m₀
    → attempts 1 ≡ some m₁
    → attempts 2 ≡ some []
    → delete_vector attempts silo node queue ≡ queue
unfolding delete_vector
delete_vector_lost attempts silo node queue m₀ m₁ e₀ e₁ e₂ = ground arith

pop_right-snoc : (ds : List DeadLetter) (d : DeadLetter) → pop_right (ds ++ d ∷ []) ≡ some (d, ds)
unfolding pop_right
pop_right-snoc [] d = refl
pop_right-snoc (a ∷ []) d = refl
pop_right-snoc (a ∷ b ∷ ds) d = rw (pop_right-snoc (b ∷ ds) d, pop_right) refl

-- The queue is first in, first out: of entries pushed one after the other, a batch of `n` takes the
-- `n` oldest in the order in which they were pushed, and leaves the others.
pub dequeue_fifo :
    (oldest : List DeadLetter) (newer : List DeadLetter)
    → dequeue_failed_deletes (length oldest) (reverse (oldest ++ newer)) ≡ (oldest, reverse newer)
unfolding dequeue_failed_deletes
dequeue_fifo [] newer = refl
dequeue_fifo (d ∷ ds) newer =
    rw (reverse-cons d (ds ++ newer), dequeue_failed_deletes)
      (rw (pop_right-snoc (reverse (ds ++ newer)) d, dequeue_failed_deletes)
        (rw (dequeue_fifo ds newer) refl))
