-- ===== src/Chains/Recovery.antt =====
-- pipelines/jobs/orphan_recovery.py. For each chain, which calls of Postgres and of the graph raise is
-- a parameter; a call that raises changes nothing. Times are minutes.
use Prim.Native.Nat.{◌^◌}
use engrammic.Base.{
  ℕ, ◌+◌, ◌*◌, Bool, true, false, not, ◌||◌, Option, none, some, List, [], ◌∷◌, ltb, leb, ◌==◌,
  if◌then◌else◌, length, is_empty, keep, find_first, map_where,
}
use engrammic.Chains.{
  ChainStep, ReasoningChainSteps, OrphanedChain, StepJson, trimmed, ReasoningChain, Stores,
  upsert_chain,
}

abbrev pub max_retries : ℕ
max_retries = 5

abbrev pub base_backoff_minutes : ℕ
base_backoff_minutes = 5

unfoldable pub backoff_elapsed : ℕ → ℕ → Option ℕ → Bool
backoff_elapsed now retry_count none = true
backoff_elapsed now retry_count (some last) =
    ltb (last + 2 ^ retry_count * base_backoff_minutes) now

unfoldable pub fetch_orphaned_chains :
    ℕ → List OrphanedChain → List OrphanedChain × List OrphanedChain
unfolding backoff_elapsed
fetch_orphaned_chains now os = (
  keep (λ o. backoff_elapsed now o.retry_count o.last_retry_at)
      (keep (λ o. ltb o.retry_count max_retries) os),
  keep (λ o. leb max_retries o.retry_count) os,
)

abbrev pub find_row : ℕ → List ReasoningChainSteps → Option ReasoningChainSteps
find_row chain rows = find_first (λ r. r.chain_id == chain) rows

abbrev pub empty_text : ℕ
empty_text = 0

-- The steps that `fetch_chain_from_postgres` gives. A stored step has no key `content`, for which the
-- empty text stands, and its premises are not taken over.
abbrev pub trim : List ChainStep → List StepJson
trim [] = []
trim (s ∷ ss) = trimmed empty_text s.step_index ∷ trim ss

abbrev pub first_of : List StepJson → Option StepJson
first_of [] = none
first_of (j ∷ js) = some j

abbrev pub last_of : List StepJson → Option StepJson
last_of [] = none
last_of (j ∷ []) = some j
last_of (j ∷ k ∷ ks) = last_of (k ∷ ks)

-- "unknown", "recovered" and "orphan_recovery".
abbrev pub unknown : ℕ
unknown = 0

abbrev pub recovered : ℕ
recovered = 1

abbrev pub orphan_recovery : ℕ
orphan_recovery = 2

unfoldable pub project : ℕ → ReasoningChainSteps → ReasoningChain
project now r =
    let steps = trim r.steps in
    record {
      chain_id = r.chain_id;
      silo_id = r.silo_id;
      produced_by_model = unknown;
      produced_by_agent_id = unknown;
      source = orphan_recovery;
      created_at = now;
      summary = record {
        step_count = length steps;
        first_step = first_of steps;
        final_step = last_of steps;
        outcome = none;
        conclusion = none;
        all_premise_refs = [];
        status = recovered;
        query_context_hash = none;
      };
    }

abbrev pub delete_orphan : ℕ → List OrphanedChain → List OrphanedChain
delete_orphan chain = keep (λ o. not (o.chain_id == chain))

abbrev pub increment_retry : ℕ → ℕ → List OrphanedChain → List OrphanedChain
increment_retry now chain =
    map_where (λ o. o.chain_id == chain)
      (λ o. record o { retry_count = o.retry_count + 1; last_retry_at = some now })

-- Whether a call for a chain goes through: `fetch_chain_from_postgres`, `upsert_reasoning_chain`,
-- `delete_orphan` and `increment_retry`.
pub record Calls : Type 0 where
  pub fetch_ok : ℕ → Bool
  pub graph_ok : ℕ → Bool
  pub delete_ok : ℕ → Bool
  pub increment_ok : ℕ → Bool

-- `raised`: an exception left the loop, so that the chains after it are not tried.
pub record Recovered : Type 0 where
  pub stores : Stores
  pub success_count : ℕ
  pub failed_count : ℕ
  pub raised : Bool

-- `except Exception`: nothing catches what `increment_retry` raises here.
abbrev pub retry_failed : Calls → ℕ → ℕ → Recovered → Recovered
retry_failed b now chain r =
    if b.increment_ok chain
    then record r {
      stores = record r.stores { orphans = increment_retry now chain r.stores.orphans };
      failed_count = r.failed_count + 1;
    }
    else record r { raised = true }

abbrev pub write_projection : ℕ → ReasoningChainSteps → Recovered → Recovered
write_projection now row r = record r {
  stores = record r.stores { chains = upsert_chain (project now row) r.stores.chains };
}

-- The end of the `try` block, after the write to the graph.
abbrev pub retry_written : Calls → ℕ → ℕ → Recovered → Recovered
retry_written b now chain r =
    if b.delete_ok chain
    then record r {
      stores = record r.stores { orphans = delete_orphan chain r.stores.orphans };
      success_count = r.success_count + 1;
    }
    else retry_failed b now chain r

-- One turn of the loop.
unfoldable pub retry_one : Calls → ℕ → OrphanedChain → Recovered → Recovered
unfolding project upsert_chain
retry_one b now o r = elim (find_row o.chain_id r.stores.rows) [
  | none ↦ retry_failed b now o.chain_id r
  | some row ↦
      if not (b.fetch_ok o.chain_id) || is_empty row.steps || not (b.graph_ok o.chain_id)
      then retry_failed b now o.chain_id r
      else retry_written b now o.chain_id (write_projection now row r)
]

unfoldable pub retry_chains_to_memgraph : Calls → ℕ → List OrphanedChain → Recovered → Recovered
unfolding retry_one
retry_chains_to_memgraph b now [] r = r
retry_chains_to_memgraph b now (o ∷ os) r =
    let next = retry_one b now o r in
    let rest = retry_chains_to_memgraph b now os next in if next.raised then next else rest

unfoldable pub orphan_chain_recovery_job : Calls → ℕ → Stores → Recovered
unfolding fetch_orphaned_chains retry_chains_to_memgraph
orphan_chain_recovery_job b now s =
    retry_chains_to_memgraph b now (fetch_orphaned_chains now s.orphans).0
      (record { stores = s; success_count = 0; failed_count = 0; raised = false })
