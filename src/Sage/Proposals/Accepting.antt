-- ===== src/Sage/Proposals/Accepting.antt =====
-- `accept_proposal` of sage/transactions.py, with GET_PENDING_BELIEF and ACCEPT_PENDING_BELIEF.
use engrammic.Base.{
  ℕ, Bool, ◌&&◌, Option, none, some, List, [], ◌∷◌, ltb, if◌then◌else◌, length, keep, any,
  find_first, contains, map_where,
}
use engrammic.Graph.{Store}
use engrammic.Sage.Contradictions.{check_ncb_before_write}
use engrammic.Sage.Cascade.{synthesis_threshold}
use engrammic.Sage.Results.{
  BrainError, neighborhood_inconsistent, proposal_not_found, inconsistent_state, proposal_rejected,
  invalid_status, insufficient_derivation, no_confidence, accept_failed, Result, ok, err, Event,
  compute_embedding, update_heat, propagate_confidence,
}
use engrammic.Sage.Proposals.{
  BeliefNode, pending, accepted, rejected, active_status, other_status, is_belief, is_pending,
  belief_at, proposal_at,
}

pub record AcceptProposalResult : Type 0 where
  pub belief_id : ℕ
  pub proposal_id : ℕ
  pub accepted_at : ℕ
  pub confidence : ℕ

-- ACCEPT_PENDING_BELIEF
abbrev pub accept_fields : ℕ → Option ℕ → BeliefNode → BeliefNode
accept_fields now override b = record b {
  status = some active_status;
  accepted_at = some now;
  confidence = elim override [ none ↦ b.confidence | some c ↦ some c ];
}

unfoldable pub accept_pending_belief : ℕ → ℕ → ℕ → Option ℕ → List BeliefNode → List BeliefNode
accept_pending_belief id silo now override =
    map_where (λ b. belief_at id silo b && is_pending b.status) (accept_fields now override)

-- `SET b.acceptance_reason`
unfoldable pub set_reason : ℕ → ℕ → Option ℕ → List BeliefNode → List BeliefNode
set_reason id silo none bs = bs
set_reason id silo (some reason) bs =
    map_where (belief_at id silo) (λ b. record b { acceptance_reason = some reason }) bs

abbrev pub accept_events : ℕ → List Event
accept_events id = compute_embedding id ∷ update_heat id ∷ propagate_confidence id ∷ []

abbrev pub Accepted : Type 0
Accepted = List BeliefNode × Result (AcceptProposalResult × List Event)

-- `float(…)` of a confidence; of a missing one it raises.
abbrev pub with_confidence :
    Option ℕ → (ℕ → AcceptProposalResult × List Event) → Result (AcceptProposalResult × List Event)
with_confidence none k = err no_confidence
with_confidence (some c) k = ok (k c)

abbrev pub accept_result : ℕ → ℕ → ℕ → ℕ → AcceptProposalResult
accept_result belief proposal now confidence = record {
  belief_id = belief;
  proposal_id = proposal;
  accepted_at = now;
  confidence = confidence;
}

abbrev pub rejected_neighbours : List ℕ → Option BrainError
rejected_neighbours [] = none
rejected_neighbours (id ∷ ids) = some (neighborhood_inconsistent (id ∷ ids))

-- The checks of a pending proposal; `enforced` is `ncb_enforcement_enabled`.
unfoldable pub pending_error : Bool → Store → ℕ → BeliefNode → Option BrainError
pending_error enforced graph silo b =
    if ltb (length b.source_fact_ids) synthesis_threshold
    then some insufficient_derivation
    else if enforced
    then rejected_neighbours (check_ncb_before_write graph b.source_fact_ids silo)
    else none

-- The belief that an accepted proposal was promoted to.
abbrev pub promoted_from_it : ℕ → ℕ → List BeliefNode → BeliefNode → Bool
promoted_from_it id silo bs b =
    is_belief b.label && (contains id b.promoted_from && any (proposal_at id silo) bs)

-- Already accepted: the belief that it became, if there is one.
unfoldable pub accepted_already : ℕ → ℕ → ℕ → List BeliefNode → Accepted
accepted_already id silo now bs = (
  bs,
  elim (find_first (promoted_from_it id silo bs) bs) [
    | none ↦ err inconsistent_state
    | some b ↦ with_confidence b.confidence (λ c. (accept_result b.id id now c, []))
  ],
)

-- The answer for the confidence of the row that was written; `reason` is written to the belief with
-- the new identifier.
abbrev pub answer_row : ℕ → ℕ → ℕ → ℕ → Option ℕ → List BeliefNode → Option ℕ → Accepted
answer_row id silo new now reason bs none = (bs, err no_confidence)
answer_row id silo new now reason bs (some c) =
    (set_reason new silo reason bs, ok (accept_result new id now c, accept_events new))

abbrev pub answer_rows :
    ℕ → ℕ → ℕ → ℕ → Option ℕ → Option ℕ → List BeliefNode → List BeliefNode → Accepted
answer_rows id silo new now reason override bs [] = (bs, err accept_failed)
answer_rows id silo new now reason override bs (b ∷ rows) =
    answer_row id silo new now reason bs (accept_fields now override b).confidence

unfoldable pub accept_pending : ℕ → ℕ → ℕ → ℕ → Option ℕ → Option ℕ → List BeliefNode → Accepted
unfolding accept_pending_belief set_reason
accept_pending id silo new now reason override bs =
    answer_rows id silo new now reason override (accept_pending_belief id silo now override bs)
      (keep (λ b. belief_at id silo b && is_pending b.status) bs)

-- An error of the checks is raised before anything is written.
abbrev pub checked : List BeliefNode → Option BrainError → Accepted → Accepted
checked bs none a = a
checked bs (some e) a = (bs, err e)

-- The new identifier and the time are arguments.
unfoldable pub accept_proposal :
    Bool → Store → List BeliefNode → ℕ → ℕ → ℕ → ℕ → Option ℕ → Option ℕ → Accepted
unfolding pending_error accepted_already accept_pending
accept_proposal enforced graph bs id silo new now reason override =
    elim (find_first (belief_at id silo) bs) [
      | none ↦ (bs, err proposal_not_found)
      | some b ↦ elim b.status [
        | none ↦ (bs, err invalid_status)
        | some accepted ↦ accepted_already id silo now bs
        | some rejected ↦ (bs, err proposal_rejected)
        | some pending ↦
            checked bs (pending_error enforced graph silo b)
              (accept_pending id silo new now reason override bs)
        | some active_status ↦ (bs, err invalid_status)
        | some (other_status s) ↦ (bs, err invalid_status)
      ]
    ]
