-- ===== src/Chains/Tests.antt =====
-- Chains that are written and recovered at concrete inputs.
use engrammic.Base.{◌≡◌, refl, sym, ap, ◌∙◌, ◌≢◌, true, false, none, some, [], ◌∷◌, ◌==◌}
use engrammic.Chains.{
  ChainStep, ReasoningChainSteps, OrphanedChain, Stores, Draft, Backends, orphan_raised,
  graph_raised, upsert_row, add_orphan, compensate, write_chain,
}
use engrammic.Chains.Recovery.{
  fetch_orphaned_chains, backoff_elapsed, project, orphan_chain_recovery_job, Calls,
}
use engrammic.Chains.Tracking.{
  has_orphan, IsTracked, empty_stores, Happens, starts, writes, recovers, Happens-IsTracked,
}
use engrammic.Chains.Recovering.{IsRecovered, orphan_chain_recovery_job_recovers}

abbrev premise : ChainStep
premise = record {
  step_index = 0;
  premise_refs = 8 ∷ 9 ∷ [];
  operation = 1;
  conclusion = 2;
  confidence = 900;
}

abbrev draft : Draft
draft = record {
  chain_id = 5;
  silo_id = 1;
  steps = premise ∷ [];
  produced_by_model = 3;
  produced_by_agent_id = 4;
  query_context_hash = none;
  status = 6;
  source = 7;
  conclusion = none;
  evidence_used = [];
  now = 100;
}

-- Neither the graph nor any attempt to delete goes through.
abbrev broken : Backends
broken = record {
  upsert_ok = true;
  graph_error = some 77;
  delete_ok = λ attempt. false;
  orphan_ok = true;
}

abbrev row : ReasoningChainSteps
row = record { chain_id = 5; silo_id = 1; steps = premise ∷ [] }

abbrev letter : OrphanedChain
letter = record {
  chain_id = 5;
  silo_id = 1;
  last_error = 77;
  retry_count = 1;
  last_retry_at = none;
}

abbrev left_behind : Stores
left_behind = record { rows = row ∷ []; orphans = letter ∷ []; chains = [] }

dead_lettered : write_chain broken draft empty_stores ≡ (left_behind, graph_raised)
unfolding write_chain compensate upsert_row add_orphan
dead_lettered = refl

-- The graph takes the writes of one chain alone.
abbrev only_5 : Calls
only_5 = record {
  fetch_ok = λ c. true;
  graph_ok = λ c. c == 5;
  delete_ok = λ c. true;
  increment_ok = λ c. true;
}

happened :
    Happens (orphan_chain_recovery_job only_5 200 (write_chain broken draft empty_stores).0).stores
happened = recovers only_5 200 (writes broken draft not_refused starts)
  where
    not_refused : (write_chain broken draft empty_stores).1 ≢ orphan_raised
    not_refused = λ e. different (sym (ap (λ r. r.1) dead_lettered) ∙ e)
      where
        different : graph_raised ≢ orphan_raised
        different = λ e. cc

Happens-IsTracked_example :
    IsTracked
      (orphan_chain_recovery_job only_5 200 (write_chain broken draft empty_stores).0).stores
Happens-IsTracked_example = Happens-IsTracked _ happened

-- The premises of the step are lost.
recovered_chain : (project 200 row).summary.all_premise_refs ≡ []
unfolding project
recovered_chain = refl

eligible : has_orphan 5 (fetch_orphaned_chains 200 left_behind.orphans).0 ≡ true
unfolding fetch_orphaned_chains backoff_elapsed
eligible = refl

orphan_chain_recovery_job_recovers_example :
    IsRecovered 5 (orphan_chain_recovery_job only_5 200 left_behind).stores
orphan_chain_recovery_job_recovers_example =
    orphan_chain_recovery_job_recovers only_5 200 5 row left_behind eligible refl absurd_row refl
      refl refl (λ d other. refl)
  where
    absurd_row : premise ∷ [] ≢ []
    absurd_row = λ e. cc
