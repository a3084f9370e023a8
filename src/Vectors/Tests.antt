-- ===== src/Vectors/Tests.antt =====
-- Vector deletions at concrete inputs.
use engrammic.Base.{ℕ, zero, suc, ◌<◌, ◌≡◌, none, some, List, [], ◌∷◌}
use engrammic.Vectors.{Attempts, DeadLetter, delete_vector}
use engrammic.Vectors.Losses.{delete_vector_cases}

-- Fails twice, then succeeds.
abbrev third_time : Attempts
third_time zero = some (1 ∷ [])
third_time (suc zero) = some (2 ∷ [])
third_time i = none

-- Never succeeds; the last exception has no text.
abbrev silent : Attempts
silent (suc (suc zero)) = some []
silent i = some (9 ∷ [])

abbrev letter : ℕ → DeadLetter
letter node = record { silo = 1; node = node; error = 9 ∷ [] }

delete_vector_cases_example :
    (((i : ℕ) × (i < 3) × (third_time i ≡ none)) → delete_vector third_time 1 4 [] ≡ [])
    × ((m₀ m₁ : List ℕ) (c : ℕ) (m₂ : List ℕ)
        → third_time 0 ≡ some m₀
        → third_time 1 ≡ some m₁
        → third_time 2 ≡ some (c ∷ m₂)
        → delete_vector third_time 1 4 [] ≡ record { silo = 1; node = 4; error = c ∷ m₂ } ∷ [])
delete_vector_cases_example = delete_vector_cases third_time 1 4 []
