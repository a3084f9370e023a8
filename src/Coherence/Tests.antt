-- ===== src/Coherence/Tests.antt =====
-- The filter at a concrete list of results.
use mathlib.Core.List.{Memᴰ}
use engrammic.Base.{ℕ, ◌≡◌, refl, false, some, List, [], ◌∷◌, arith}
use engrammic.Graph.{Layer, memory, knowledge}
use engrammic.Coherence.{Hit, dominates, get, by_id, filter_dominated_contradictions}
use engrammic.Coherence.Winners.{filter_keeps_best}

abbrev hit : ℕ → Layer → List ℕ → Hit
hit id layer contradicts = record {
  node_id = some id;
  layer = some layer;
  confidence = some 700;
  created_at = some 4;
  contradicts = contradicts;
}

-- 1 and 2 contradict each other and tie; both contradict 3, which ranks lower.
abbrev hits : List Hit
hits = hit 1 knowledge (2 ∷ 3 ∷ []) ∷ hit 2 knowledge (3 ∷ []) ∷ hit 3 memory [] ∷ []

filtered :
    filter_dominated_contradictions hits
    ≡ (hit 1 knowledge (2 ∷ 3 ∷ []) ∷ hit 2 knowledge (3 ∷ []) ∷ [], 1)
unfolding filter_dominated_contradictions by_id get dominates
filtered = refl

unbeaten :
    (k : ℕ) (r : Hit) → get k (by_id hits) ≡ some r → dominates r (hit 2 knowledge (3 ∷ [])) ≡ false
unfolding by_id get dominates
unbeaten k r h = ground arith

filter_keeps_best_example : Memᴰ (hit 2 knowledge (3 ∷ [])) (filter_dominated_contradictions hits).0
filter_keeps_best_example =
    filter_keeps_best hits 2 (hit 2 knowledge (3 ∷ [])) (Memᴰ.tail (Memᴰ.head refl)) refl
      (unfold by_id get in refl) unbeaten
