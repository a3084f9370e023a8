-- ===== src/Sage/Proposals/Outcomes.antt =====
-- What accepting a proposal comes to.
use mathlib.Core.Path.{subst}
use engrammic.Base.{
  change, ◌&&◌, ℕ, ◌≡◌, refl, sym, ap, ◌∙◌, inl, inr, Bool, false, Option, none, some, List, [],
  ◌∷◌, map, arith, ltb, ◌==◌, Bool-cases, length, any, find_first, any-map_where, map_where-unfit,
  find_first-none, find_first-map_where, find_first-true,
}
use engrammic.Graph.{Store}
use engrammic.Sage.Cascade.{synthesis_threshold}
use engrammic.Sage.Results.{
  compute_embedding, update_heat, propagate_confidence, BrainError, proposal_not_found,
  invalid_status, ok, err, Event,
}
use engrammic.Sage.Proposals.{
  is_pending, BeliefNode, FactNode, Synthesis, SynthesizeFromFactsResult, pending, active_status,
  belief_at, facts_by_ids, noisy_or_aggregate, synthesized, failed, timed_out_,
  create_proposed_belief, synthesize_from_facts, synthesis_confidence_threshold, propose,
}
use engrammic.Sage.Proposals.Accepting.{
  AcceptProposalResult, accept_fields, accept_pending_belief, set_reason, accept_events,
  accept_result, pending_error, checked, accept_pending, accept_proposal, answer_rows, answer_row,
}

unnamed_belief :
    (new silo : ℕ) (bs : List BeliefNode)
    → any (λ b. b.id == new) bs ≡ false
    → any (belief_at new silo) bs ≡ false
unnamed_belief new silo [] h = refl
unnamed_belief new silo (b ∷ bs) h = ground (arith, unnamed_belief new silo bs)

-- A reason for an identifier that names no belief is written nowhere.
set_reason-unnamed :
    (new silo : ℕ) (reason : Option ℕ) (bs : List BeliefNode)
    → any (λ b. b.id == new) bs ≡ false
    → set_reason new silo reason bs ≡ bs
unfolding set_reason
set_reason-unnamed new silo none bs h = refl
set_reason-unnamed new silo (some reason) bs h =
    map_where-unfit (belief_at new silo) _ bs (unnamed_belief new silo bs h)

-- A reason changes no status.
found-set_reason :
    (new silo : ℕ) (reason : Option ℕ) (id : ℕ) (bs : List BeliefNode) (b : BeliefNode)
    → find_first (belief_at id silo) bs ≡ some b
    → (x : BeliefNode) × (find_first (belief_at id silo) (set_reason new silo reason bs) ≡ some x)
      × (x.status ≡ b.status)
unfolding set_reason
found-set_reason new silo none id bs b found = (b, found, refl)
found-set_reason new silo (some why) id bs b found =
    let moved =
      find_first-map_where (belief_at id silo) (belief_at new silo)
        (λ n. record n { acceptance_reason = some why }) bs (λ n. refl) in
    elim (Bool-cases (belief_at new silo b)) [
      | inl yes_ ↦ (record b { acceptance_reason = some why }, moved ∙ rw (found, yes_) refl, refl)
      | inr no_ ↦ (b, moved ∙ rw (found, no_) refl, refl)
    ]

accepted_unnamed :
    (new id silo now : ℕ) (override : Option ℕ) (bs : List BeliefNode)
    → any (λ b. b.id == new) bs ≡ false
    → any (λ b. b.id == new) (accept_pending_belief id silo now override bs) ≡ false
unfolding accept_pending_belief
accepted_unnamed new id silo now override bs h =
    any-map_where (λ b. b.id == new) _ (accept_fields now override) bs (λ b. refl) ∙ h

-- What an acceptance leaves when it succeeds.
record Settled (id silo new now : ℕ) (reason : Option ℕ) (bs bs' : List BeliefNode)
    (r : AcceptProposalResult) (events : List Event) : Type 0 where
  store_is : bs' ≡ set_reason new silo reason bs
  named : r.belief_id ≡ new
  events_are : events ≡ accept_events new

answer_row-ok :
    (id silo new now : ℕ) (reason : Option ℕ) (bs bs' : List BeliefNode) (c : Option ℕ)
    (r : AcceptProposalResult) (events : List Event)
    → answer_row id silo new now reason bs c ≡ (bs', ok (r, events))
    → Settled id silo new now reason bs bs' r events
answer_row-ok id silo new now reason bs bs' none r events h =
    absurd (let bad = ap (λ t. t.1) h in cc)
answer_row-ok id silo new now reason bs bs' (some c) r events h =
    let same_ : ok (accept_result new id now c, accept_events new) ≡ ok (r, events) =
      ap (λ t. t.1) h in
    let pair_ : ◌≡◌ {A = AcceptProposalResult × List Event}
        (accept_result new id now c, accept_events new) (r, events) =
      cc in
    record {
      store_is = sym (ap (λ t. t.0) h);
      named = sym (ap (λ t. t.0.belief_id) pair_);
      events_are = sym (ap (λ t. t.1) pair_);
    }

answer_rows-ok :
    (id silo new now : ℕ) (reason override : Option ℕ) (bs bs' rows : List BeliefNode)
    (r : AcceptProposalResult) (events : List Event)
    → answer_rows id silo new now reason override bs rows ≡ (bs', ok (r, events))
    → Settled id silo new now reason bs bs' r events
answer_rows-ok id silo new now reason override bs bs' [] r events h =
    absurd (let bad = ap (λ t. t.1) h in cc)
answer_rows-ok id silo new now reason override bs bs' (b ∷ rows) r events h =
    answer_row-ok id silo new now reason bs bs' (accept_fields now override b).confidence r events h

module _ (enforced : Bool) (graph : Store) (bs : List BeliefNode) (id silo new now : ℕ)
    (reason override : Option ℕ) (b : BeliefNode)
    (found : find_first (belief_at id silo) bs ≡ some b) (waits : b.status ≡ some pending)
    (bs' : List BeliefNode) (r : AcceptProposalResult) (events : List Event)
    (accepts : accept_proposal enforced graph bs id silo new now reason override
      ≡ (bs', ok (r, events))) where
  shown :
      accept_proposal enforced graph bs id silo new now reason override
      ≡ checked bs
          (pending_error enforced graph silo b)
          (accept_pending id silo new now reason override bs)
  unfolding accept_proposal
  shown = rw (found, waits, accept_proposal) refl

  pending_inv :
      (pending_error enforced graph silo b ≡ none)
      × Settled id silo new now reason (accept_pending_belief id silo now override bs) bs' r events
  unfolding accept_pending
  pending_inv = passed (pending_error enforced graph silo b) refl (sym shown ∙ accepts)
    where
      passed :
          (o : Option BrainError)
          → pending_error enforced graph silo b ≡ o
          → checked bs o (accept_pending id silo new now reason override bs) ≡ (bs', ok (r, events))
          → (pending_error enforced graph silo b ≡ none)
            × Settled id silo new now reason
                (accept_pending_belief id silo now override bs)
                bs'
                r
                events
      passed none e h = (e, answer_rows-ok id silo new now reason override _ bs' _ r events h)
      passed (some x) e h = absurd (let bad = ap (λ t. t.1) h in cc)

  at_proposal :
      find_first (belief_at id silo) (accept_pending_belief id silo now override bs)
      ≡ some (accept_fields now override b)
  at_proposal =
      unfold accept_pending_belief in
      find_first-map_where (belief_at id silo) _ (accept_fields now override) bs (λ n. refl)
      ∙ rw (found, find_first-true (belief_at id silo) b bs found, waits) refl

  elsewhere :
      (i s : ℕ)
      → ((i == id) && (s == silo)) ≡ false
      → find_first (belief_at i s) (accept_pending_belief id silo now override bs)
        ≡ find_first (belief_at i s) bs
  unfolding accept_pending_belief
  elsewhere i s other =
      find_first-map_where (belief_at i s) _ (accept_fields now override) bs (λ n. refl)
      ∙ kept (find_first (belief_at i s) bs) refl
    where
      kept :
          (x : Option BeliefNode)
          → find_first (belief_at i s) bs ≡ x
          → change (λ n. belief_at id silo n && is_pending n.status) (accept_fields now override) x
            ≡ x
      kept none e = refl
      kept (some n) e = ground (arith, find_first-true (belief_at i s) n bs e)

  -- If a pending proposal is accepted under an identifier that no belief has, then it is the pending
  -- belief itself that becomes active: under its own identifier it is found afterwards with the status
  -- active, the time of the acceptance, the confidence that overrides its own if one is given, and
  -- all else unchanged, so that a reason is kept nowhere; every other belief is found as before. The
  -- identifier that is returned, and that the events are about, names no belief afterwards.
  pub accept_proposal_unnamed :
      (i s : ℕ)
      → any (λ x. x.id == new) bs ≡ false
      → ((i == id) && (s == silo)) ≡ false
      → (find_first (belief_at id silo) bs'
          ≡ some (record b {
            status = some active_status;
            accepted_at = some now;
            confidence = elim override [ none ↦ b.confidence | some c ↦ some c ];
          }))
        × (find_first (belief_at i s) bs' ≡ find_first (belief_at i s) bs)
        × (r.belief_id ≡ new)
        × (events ≡ compute_embedding new ∷ update_heat new ∷ propagate_confidence new ∷ [])
        × (any (λ x. x.id == new) bs' ≡ false)
  accept_proposal_unnamed i s unused other =
      let settled = pending_inv.1 in
      let none_named = accepted_unnamed new id silo now override bs unused in
      let same_ =
        settled.store_is
        ∙ set_reason-unnamed new silo reason (accept_pending_belief id silo now override bs)
            none_named in
      (
        rw same_ at_proposal,
        rw same_ (elsewhere i s other),
        settled.named,
        settled.events_are,
        rw same_ none_named,
      )

  -- A pending proposal that was accepted is refused for its status when it is accepted again,
  -- whatever the second call gives, and nothing changes.
  pub accept_proposal_again :
      (enforced' : Bool) (graph' : Store) (new' now' : ℕ) (reason' override' : Option ℕ)
      → accept_proposal enforced' graph' bs' id silo new' now' reason' override'
        ≡ (bs', err invalid_status)
  unfolding accept_proposal
  accept_proposal_again enforced' graph' new' now' reason' override' =
      let (x, at_x, active_) = refound in rw (at_x, active_, accept_proposal) refl
    where
      refound :
          (x : BeliefNode) × (find_first (belief_at id silo) bs' ≡ some x)
          × (x.status ≡ some active_status)
      refound =
          let (x, at_x, same_) =
            found-set_reason new silo reason id (accept_pending_belief id silo now override bs)
              (accept_fields now override b) at_proposal in
          (x, rw pending_inv.1.store_is at_x, same_)

propose_unlabelled :
    (fs : List FactNode) (bs : List BeliefNode) (ids : List ℕ) (silo id count aggregate : ℕ)
    (answer : Synthesis)
    → any (belief_at id silo) bs ≡ false
    → any (belief_at id silo) (propose fs bs ids silo id count aggregate answer).0 ≡ false
unfolding propose create_proposed_belief
propose_unlabelled fs bs ids silo id count aggregate failed old = old
propose_unlabelled fs bs ids silo id count aggregate timed_out_ old = old
propose_unlabelled fs bs ids silo id count aggregate (synthesized content) old = old

-- Whatever `synthesize_from_facts` writes, it is no belief.
synthesize_unlabelled :
    (llm : List (List ℕ) → Synthesis) (fs : List FactNode) (bs : List BeliefNode) (ids : List ℕ)
    (silo id : ℕ)
    → any (belief_at id silo) bs ≡ false
    → any (belief_at id silo) (synthesize_from_facts llm fs bs ids silo id).0 ≡ false
unfolding synthesize_from_facts
synthesize_unlabelled llm fs bs ids silo id old =
    let facts = facts_by_ids fs ids silo in
    elim (Bool-cases (ltb (length ids) synthesis_threshold)) [
      | inl few ↦ rw few old
      | inr many ↦ elim (Bool-cases (ltb (length facts) synthesis_threshold)) [
        | inl few ↦ rw (many, few) old
        | inr found ↦
            elim (Bool-cases (
              ltb (noisy_or_aggregate (map (λ f. f.confidence) facts))
                synthesis_confidence_threshold)) [
                  | inl weak ↦ rw (many, found, weak) old
                  | inr strong ↦
                      rw (many, found, strong) (propose_unlabelled fs bs ids silo id _ _ _ old)
                ]
      ]
    ]

-- A proposal that `synthesize_from_facts` wrote cannot be accepted: under an identifier that no
-- belief had, `accept_proposal` finds no proposal, whatever the facts, the model and the settings.
pub accept_proposal-synthesize_from_facts :
    (llm : List (List ℕ) → Synthesis) (fs : List FactNode) (bs bs' : List BeliefNode) (ids : List ℕ)
    (silo id : ℕ) (result : SynthesizeFromFactsResult) (events : List Event) (enforced : Bool)
    (graph : Store) (new now : ℕ) (reason override : Option ℕ)
    → any (λ b. b.id == id) bs ≡ false
    → synthesize_from_facts llm fs bs ids silo id ≡ (bs', result, events)
    → accept_proposal enforced graph bs' id silo new now reason override
      ≡ (bs', err proposal_not_found)
unfolding accept_proposal
accept_proposal-synthesize_from_facts llm fs bs bs' ids silo id result events enforced graph new now
      reason override unused wrote =
    rw
      (
        find_first-none (belief_at id silo) bs' (
            subst (λ xs. any (belief_at id silo) xs ≡ false) (ap (λ t. t.0) wrote)
              (synthesize_unlabelled llm fs bs ids silo id (unnamed_belief id silo bs unused))),
        accept_proposal,
      )
      refl
