-- ===== src/Reactions/Tests.antt =====
-- The accumulator and a flush at concrete inputs.
use engrammic.Base.{
  ℕ, ◌≡◌, refl, ◌≢◌, true, Option, some, List, [], ◌∷◌, map, arith, ◌==◌, if◌then◌else◌, length,
}
use engrammic.Reactions.{
  PendingItem, waiting, Accumulator, new_accumulator, add, flush_after_timeout, close, Fetched,
  missing, found, flush,
}
use engrammic.Reactions.Batches.{concat, Reaches, created, adds, elapses, Reaches-flushed}
use engrammic.Reactions.Flushing.{upserts_of, flush-upserts_of}

abbrev item : ℕ → PendingItem
item id = record { node_id = id; silo_id = 1 }

-- One item times out; of three more, two fill a batch.
abbrev a₁ : Accumulator
a₁ = add (item 1) (new_accumulator 2)

abbrev a₂ : Accumulator
a₂ = flush_after_timeout a₁

abbrev a₃ : Accumulator
a₃ = add (item 4) (add (item 3) (add (item 2) a₂))

a₁-waits : a₁.timer ≡ waiting
unfolding add new_accumulator
a₁-waits = refl

reached : Reaches 2 (item 1 ∷ item 2 ∷ item 3 ∷ item 4 ∷ []) a₃
reached = adds (item 4) (adds (item 3) (adds (item 2) (elapses a₁-waits (adds (item 1) created))))

batches : (close a₃).scheduled ≡ (item 1 ∷ []) ∷ (item 2 ∷ item 3 ∷ []) ∷ (item 4 ∷ []) ∷ []
unfolding close add flush_after_timeout new_accumulator
batches = refl

Reaches-flushed_example :
    (concat (close a₃).scheduled ≡ item 1 ∷ item 2 ∷ item 3 ∷ item 4 ∷ [])
    × (concat (flush_after_timeout a₃).scheduled ≡ item 1 ∷ item 2 ∷ item 3 ∷ item 4 ∷ [])
    × (a₃.pending ≢ [] → a₃.timer ≡ waiting)
Reaches-flushed_example =
    Reaches-flushed 2 (item 1 ∷ item 2 ∷ item 3 ∷ item 4 ∷ []) a₃ (omega arith) reached

-- Node 2 is missing and node 3 has no content.
abbrev graph : PendingItem → Fetched
graph i =
    if i.node_id == 2
    then missing
    else if i.node_id == 3
    then found (record { content = []; type = 0 })
    else found (record { content = i.node_id ∷ 7 ∷ []; type = 5 })

abbrev embedder : List (List ℕ) → Option (List ℕ)
embedder texts = some (map length texts)

flush-upserts_of_example :
    flush true graph embedder (item 1 ∷ item 2 ∷ item 3 ∷ item 4 ∷ [])
    ≡ upserts_of graph length (item 1 ∷ item 2 ∷ item 3 ∷ item 4 ∷ [])
flush-upserts_of_example =
    flush-upserts_of graph embedder length (item 1 ∷ item 2 ∷ item 3 ∷ item 4 ∷ []) (λ texts. refl)
