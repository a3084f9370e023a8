-- ===== src/Reactions.antt =====
-- reactions/batch_embedding.py: BatchEmbeddingAccumulator, and reactions/events.py: emit_reaction.
-- Each block under the accumulator's lock is one step; a flush that is scheduled is the batch that
-- it was given.
pub mod Batches
pub mod Flushing
pub mod Tests
use engrammic.Base.{
  ℕ, Bool, not, Option, none, some, List, [], ◌∷◌, ◌++◌, map, leb, ◌==◌, if◌then◌else◌, length,
  is_empty,
}

pub record PendingItem : Type 0 where
  pub node_id : ℕ
  pub silo_id : ℕ

-- `_timer_task`: None, a task that waits, or one that has ended.
pub data Timer : Type 0 where
  unset waiting ended : Timer

pub record Accumulator : Type 0 where
  pub batch_size : ℕ
  pub pending : List PendingItem
  pub timer : Timer
  pub scheduled : List (List PendingItem)

pub new_accumulator : ℕ → Accumulator
new_accumulator batch_size = record {
  batch_size = batch_size;
  pending = [];
  timer = unset;
  scheduled = [];
}

abbrev pub take_batch : Accumulator → List PendingItem × Accumulator
take_batch a = (a.pending, record a { pending = [] })

abbrev pub cancel_timer : Accumulator → Accumulator
cancel_timer a = record a { timer = unset }

abbrev pub schedule_flush : List PendingItem → Accumulator → Accumulator
schedule_flush batch a = record a { scheduled = a.scheduled ++ batch ∷ [] }

-- A timer that waits goes on; in place of none, or of one that has ended, a new one waits.
abbrev pub renew : Timer → Timer
renew waiting = waiting
renew unset = waiting
renew ended = waiting

abbrev pub start_timer : Accumulator → Accumulator
start_timer a = record a { timer = renew a.timer }

pub add : PendingItem → Accumulator → Accumulator
add item a =
    let b = record a { pending = a.pending ++ item ∷ [] } in
    if leb b.batch_size (length b.pending)
    then (let (batch, c) = take_batch (cancel_timer b) in schedule_flush batch c)
    else start_timer b

-- `_flush_after_timeout`, when its sleep is over.
pub flush_after_timeout : Accumulator → Accumulator
flush_after_timeout a =
    if is_empty a.pending
    then record a { timer = ended }
    else (let (batch, b) = take_batch a in schedule_flush batch (record b { timer = unset }))

pub close : Accumulator → Accumulator
close a =
    let b = cancel_timer a in
    if is_empty b.pending then b else (let (batch, c) = take_batch b in schedule_flush batch c)

-- A node's content is a text.
pub record Content : Type 0 where
  pub content : List ℕ
  pub type : ℕ

-- What `get_node` does for an item.
pub data Fetched : Type 0 where
  raised missing : Fetched
  found : Content → Fetched

pub record Valid : Type 0 where
  pub item : PendingItem
  pub text : List ℕ
  pub node_type : ℕ

-- An item whose node is there and has a content, with that content; others are passed over.
abbrev pub fetch_one : PendingItem → Fetched → List Valid
fetch_one item raised = []
fetch_one item missing = []
fetch_one item (found c) =
    if is_empty c.content
    then []
    else record { item = item; text = c.content; node_type = c.type } ∷ []

pub fetch_batch : (PendingItem → Fetched) → List PendingItem → List Valid
fetch_batch get_node [] = []
fetch_batch get_node (item ∷ batch) = fetch_one item (get_node item) ++ fetch_batch get_node batch

pub record Upsert {ℓ} (V : Type ℓ) : Type ℓ where
  pub item : PendingItem
  pub vector : V
  pub node_type : ℕ

pub zip_upserts {ℓ} : {V : Type ℓ} → List Valid → List V → List (Upsert V)
zip_upserts [] vs = []
zip_upserts (x ∷ xs) [] = []
zip_upserts (x ∷ xs) (v ∷ vs) =
    record { item = x.item; vector = v; node_type = x.node_type } ∷ zip_upserts xs vs

-- The upserts of one flush. `embed` gives `none` where the embedding service raises.
pub flush {ℓ} :
    {V : Type ℓ}
    → Bool
    → (PendingItem → Fetched)
    → (List (List ℕ) → Option (List V))
    → List PendingItem
    → List (Upsert V)
unfolding fetch_batch zip_upserts
flush configured get_node embed batch =
    let valid = fetch_batch get_node batch in
    if not configured
    then []
    else if is_empty valid
    then []
    else elim (embed (map (λ x. x.text) valid)) [
      | none ↦ []
      | some vectors ↦ if length vectors == length valid then zip_upserts valid vectors else []
    ]
