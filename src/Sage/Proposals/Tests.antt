-- ===== src/Sage/Proposals/Tests.antt =====
-- Proposals at concrete beliefs and facts.
use engrammic.Base.{ℕ, ◌≡◌, refl, true, false, none, some, List, [], ◌∷◌, ◌==◌, any, find_first}
use engrammic.Graph.{Store}
use engrammic.Sage.Contradictions.{check_ncb_before_write}
use engrammic.Sage.Results.{ok, err, compute_embedding, proposal_not_found, invalid_status}
use engrammic.Sage.Results.{compute_embedding, update_heat, propagate_confidence}
use engrammic.Sage.Proposals.{
  belief_at, active_status, BeliefNode, FactNode, belief_label, pending, Synthesis, synthesized,
  SynthesizeFromFactsResult, synthesize_from_facts, propose, create_proposed_belief,
  noisy_or_aggregate,
}
use engrammic.Sage.Proposals.Accepting.{
  accept_result, accept_events, accept_pending_belief, accept_pending, set_reason, pending_error,
  accept_proposal,
}
use engrammic.Sage.Proposals.Outcomes.{
  accept_proposal_unnamed, accept_proposal_again, accept_proposal-synthesize_from_facts,
}

abbrev graph : Store
graph = record { nodes = []; edges = [] }

abbrev waiting : BeliefNode
waiting = record {
  id = 4;
  silo = 1;
  label = belief_label;
  status = some pending;
  content = 9 ∷ [];
  confidence = some 850;
  accepted_at = none;
  acceptance_reason = none;
  source_fact_ids = 1 ∷ 2 ∷ 3 ∷ [];
  promoted_from = [];
}

abbrev before : List BeliefNode
before = waiting ∷ []

abbrev after : List BeliefNode
after = accept_pending_belief 4 1 50 none before

accepts :
    accept_proposal true graph before 4 1 10 50 (some 7) none
    ≡ (after, ok (accept_result 10 4 50 850, accept_events 10))
unfolding accept_proposal pending_error check_ncb_before_write accept_pending accept_pending_belief
    set_reason
accepts = refl

accept_proposal_unnamed_example :
    (find_first (belief_at 4 1) after
      ≡ some (record waiting {
        status = some active_status;
        accepted_at = some 50;
        confidence = some 850;
      }))
    × (find_first (belief_at 5 1) after ≡ find_first (belief_at 5 1) before)
    × ((accept_result 10 4 50 850).belief_id ≡ 10)
    × (accept_events 10 ≡ compute_embedding 10 ∷ update_heat 10 ∷ propagate_confidence 10 ∷ [])
    × (any (λ x. x.id == 10) after ≡ false)
accept_proposal_unnamed_example =
    accept_proposal_unnamed true graph before 4 1 10 50 (some 7) none waiting refl refl after
      (accept_result 10 4 50 850) (accept_events 10) accepts 5 1 refl refl

accept_proposal_again_example :
    accept_proposal false graph after 4 1 11 60 none (some 900) ≡ (after, err invalid_status)
accept_proposal_again_example =
    accept_proposal_again true graph before 4 1 10 50 (some 7) none waiting refl refl after
      (accept_result 10 4 50 850) (accept_events 10) accepts false graph 11 60 none (some 900)

abbrev fact : ℕ → FactNode
fact id = record { id = id; silo = 1; is_active = true; content = id ∷ []; confidence = 500 }

abbrev facts : List FactNode
facts = fact 1 ∷ fact 2 ∷ fact 3 ∷ []

abbrev writer : List (List ℕ) → Synthesis
writer texts = synthesized (8 ∷ [])

aggregate : noisy_or_aggregate (500 ∷ 500 ∷ 500 ∷ []) ≡ 875
unfolding noisy_or_aggregate
aggregate = refl

abbrev proposed : List BeliefNode
proposed = create_proposed_belief facts 20 1 (1 ∷ 2 ∷ 3 ∷ []) (8 ∷ []) 875 ∷ before

abbrev outcome : SynthesizeFromFactsResult
outcome = record { belief_id = some 20; fact_count = 3; confidence = some 875; timed_out = false }

proposes :
    synthesize_from_facts writer facts before (1 ∷ 2 ∷ 3 ∷ []) 1 20
    ≡ (proposed, outcome, compute_embedding 20 ∷ [])
unfolding synthesize_from_facts propose noisy_or_aggregate
proposes = refl

accept_proposal-synthesize_from_facts_example :
    accept_proposal false graph proposed 20 1 30 60 none none ≡ (proposed, err proposal_not_found)
accept_proposal-synthesize_from_facts_example =
    accept_proposal-synthesize_from_facts writer facts before proposed (1 ∷ 2 ∷ 3 ∷ []) 1 20 outcome
      (compute_embedding 20 ∷ []) false graph 30 60 none none refl proposes
