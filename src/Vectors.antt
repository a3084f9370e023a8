-- ===== src/Vectors.antt =====
-- The retried deletion of a vector, as sage/transactions.py `forget` and retention/service.py
-- `hard_delete_node` both write it out, with the dead-letter queue of retention/dead_letter.py.
-- The vector store is a parameter: what its `delete` does on each attempt, `none` for success and
-- `some message` for an exception whose text is `message`.
pub mod Losses
pub mod Tests
use engrammic.Base.{ℕ, zero, suc, Option, none, some, List, [], ◌∷◌}

abbrev pub Message : Type 0
Message = List ℕ

abbrev pub Attempts : Type 0
Attempts = ℕ → Option Message

pub record DeadLetter : Type 0 where
  pub silo : ℕ
  pub node : ℕ
  pub error : Message

-- `for attempt in range(…)`: the last error text, empty after a success.
pub try_delete : Attempts → ℕ → ℕ → Message → Message
try_delete attempts attempt zero last_error = last_error
try_delete attempts attempt (suc left) last_error = elim (attempts attempt) [
  | none ↦ []
  | some message ↦ try_delete attempts (suc attempt) left message
]

-- `if last_error: await enqueue_failed_delete(…)`
pub delete_vector : Attempts → ℕ → ℕ → List DeadLetter → List DeadLetter
unfolding try_delete
delete_vector attempts silo node queue = elim (try_delete attempts 0 3 []) [
  | [] ↦ queue
  | c ∷ cs ↦ record { silo = silo; node = node; error = c ∷ cs } ∷ queue
]

-- `dequeue_failed_deletes`: entries are pushed on the left and popped from the right.
pub pop_right : List DeadLetter → Option (DeadLetter × List DeadLetter)
pop_right [] = none
pop_right (d ∷ []) = some (d, [])
pop_right (d ∷ e ∷ ds) = elim (pop_right (e ∷ ds)) [
  | none ↦ none
  | some (x, rest) ↦ some (x, d ∷ rest)
]

pub dequeue_failed_deletes : ℕ → List DeadLetter → List DeadLetter × List DeadLetter
unfolding pop_right
dequeue_failed_deletes zero queue = ([], queue)
dequeue_failed_deletes (suc n) queue = elim (pop_right queue) [
  | none ↦ ([], queue)
  | some (d, rest) ↦ let (ds, left) = dequeue_failed_deletes n rest in (d ∷ ds, left)
]
