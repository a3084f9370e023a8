-- ===== src/Chains.antt =====
-- engine/chain_saga.py: ChainSagaWriter, with engine/postgres_store.py and the write of
-- engine/memgraph_store.py `upsert_reasoning_chain`, and pipelines/jobs/orphan_recovery.py, which
-- projects the chains that the saga left behind. A write that raises has written nothing. A
-- confidence counts thousandths of one.
pub mod Recovery
pub mod Tracking
pub mod Recovering
pub mod Tests
use engrammic.Base.{
  ℕ, zero, suc, ◌+◌, Bool, not, ◌&&◌, Option, none, some, List, [], ◌∷◌, ◌++◌, leb, ◌==◌,
  if◌then◌else◌, length, keep,
}

pub record ChainStep : Type 0 where
  pub step_index : ℕ
  pub premise_refs : List ℕ
  pub operation : ℕ
  pub conclusion : ℕ
  pub confidence : ℕ

pub record ReasoningChainSteps : Type 0 where
  pub chain_id : ℕ
  pub silo_id : ℕ
  pub steps : List ChainStep

pub record OrphanedChain : Type 0 where
  pub chain_id : ℕ
  pub silo_id : ℕ
  pub last_error : ℕ
  pub retry_count : ℕ
  pub last_retry_at : Option ℕ

pub data Outcome : Type 0 where
  success inconclusive failure : Outcome

-- A step as JSON: all of it, or a content and an index.
pub data StepJson : Type 0 where
  whole : ChainStep → StepJson
  trimmed : ℕ → ℕ → StepJson

-- The properties of a :ReasoningChain that are written on a match too.
pub record Summary : Type 0 where
  pub step_count : ℕ
  pub first_step : Option StepJson
  pub final_step : Option StepJson
  pub outcome : Option Outcome
  pub conclusion : Option ℕ
  pub all_premise_refs : List ℕ
  pub status : ℕ
  pub query_context_hash : Option ℕ

-- Its identity, what is written on its creation only, and the summary.
pub record ReasoningChain : Type 0 where
  pub chain_id : ℕ
  pub silo_id : ℕ
  pub produced_by_model : ℕ
  pub produced_by_agent_id : ℕ
  pub source : ℕ
  pub created_at : ℕ
  pub summary : Summary

-- The two tables of Postgres and the chains of the graph.
pub record Stores : Type 0 where
  pub rows : List ReasoningChainSteps
  pub orphans : List OrphanedChain
  pub chains : List ReasoningChain

pub upsert_row : ReasoningChainSteps → List ReasoningChainSteps → List ReasoningChainSteps
upsert_row r [] = r ∷ []
upsert_row r (q ∷ qs) =
    if q.chain_id == r.chain_id then record q { steps = r.steps } ∷ qs else q ∷ upsert_row r qs

abbrev pub delete_row : ℕ → List ReasoningChainSteps → List ReasoningChainSteps
delete_row chain = keep (λ r. not (r.chain_id == chain))

pub add_orphan : ℕ → ℕ → ℕ → List OrphanedChain → List OrphanedChain
add_orphan chain silo error [] =
    record {
      chain_id = chain;
      silo_id = silo;
      last_error = error;
      retry_count = 1;
      last_retry_at = none;
    }
    ∷ []
add_orphan chain silo error (o ∷ os) =
    if o.chain_id == chain
    then record o { retry_count = o.retry_count + 1; last_error = error } ∷ os
    else o ∷ add_orphan chain silo error os

pub upsert_chain : ReasoningChain → List ReasoningChain → List ReasoningChain
upsert_chain c [] = c ∷ []
upsert_chain c (d ∷ ds) =
    if (d.chain_id == c.chain_id) && (d.silo_id == c.silo_id)
    then record d { summary = c.summary } ∷ ds
    else d ∷ upsert_chain c ds

abbrev pub last_step : List ChainStep → Option ChainStep
last_step [] = none
last_step (s ∷ []) = some s
last_step (s ∷ t ∷ ts) = last_step (t ∷ ts)

abbrev pub first_step_of : List ChainStep → Option ChainStep
first_step_of [] = none
first_step_of (s ∷ ss) = some s

pub derive_outcome : List ChainStep → Option Outcome
derive_outcome steps = elim (last_step steps) [
  | none ↦ none
  | some s ↦
      if leb 800 s.confidence
      then some success
      else if leb 500 s.confidence
      then some inconclusive
      else some failure
]

abbrev pub premises : List ChainStep → List ℕ
premises [] = []
premises (s ∷ ss) = s.premise_refs ++ premises ss

-- The arguments of `write_chain`, with the time that the graph write reads.
pub record Draft : Type 0 where
  pub chain_id : ℕ
  pub silo_id : ℕ
  pub steps : List ChainStep
  pub produced_by_model : ℕ
  pub produced_by_agent_id : ℕ
  pub query_context_hash : Option ℕ
  pub status : ℕ
  pub source : ℕ
  pub conclusion : Option ℕ
  pub evidence_used : List ℕ
  pub now : ℕ

abbrev pub whole_step : Option ChainStep → Option StepJson
whole_step none = none
whole_step (some s) = some (whole s)

pub summarise : Draft → ReasoningChain
unfolding derive_outcome
summarise d = record {
  chain_id = d.chain_id;
  silo_id = d.silo_id;
  produced_by_model = d.produced_by_model;
  produced_by_agent_id = d.produced_by_agent_id;
  source = d.source;
  created_at = d.now;
  summary = record {
    step_count = length d.steps;
    first_step = whole_step (first_step_of d.steps);
    final_step = whole_step (last_step d.steps);
    outcome = derive_outcome d.steps;
    conclusion = d.conclusion;
    all_premise_refs = d.evidence_used ++ premises d.steps;
    status = d.status;
    query_context_hash = d.query_context_hash;
  };
}

-- Which calls go through: of Postgres, of the graph (with the error's text where it does not), the
-- attempts to delete, and the dead letter.
pub record Backends : Type 0 where
  pub upsert_ok : Bool
  pub graph_error : Option ℕ
  pub delete_ok : ℕ → Bool
  pub orphan_ok : Bool

pub data Written : Type 0 where
  returned upsert_raised graph_raised orphan_raised : Written

-- `_compensate`, with `left` of its attempts.
pub compensate : ℕ → ℕ → (ℕ → Bool) → Bool → Draft → ℕ → Stores → Stores × Written
unfolding add_orphan
compensate zero attempt delete_ok orphan_ok d error s =
    if orphan_ok
    then (record s { orphans = add_orphan d.chain_id d.silo_id error s.orphans }, graph_raised)
    else (s, orphan_raised)
compensate (suc left) attempt delete_ok orphan_ok d error s =
    let rest = compensate left (attempt + 1) delete_ok orphan_ok d error s in
    if delete_ok attempt
    then (record s { rows = delete_row d.chain_id s.rows }, graph_raised)
    else rest

abbrev pub max_compensation_retries : ℕ
max_compensation_retries = 3

abbrev pub put_steps : Draft → Stores → Stores
put_steps d s = record s {
  rows = upsert_row (record { chain_id = d.chain_id; silo_id = d.silo_id; steps = d.steps }) s.rows;
}

pub write_chain : Backends → Draft → Stores → Stores × Written
unfolding upsert_row upsert_chain summarise compensate
write_chain b d s = if not b.upsert_ok then (s, upsert_raised) else elim b.graph_error [
  | none ↦ (record (put_steps d s) { chains = upsert_chain (summarise d) s.chains }, returned)
  | some error ↦
      compensate max_compensation_retries 0 b.delete_ok b.orphan_ok d error (put_steps d s)
]
