-- ===== src/Sage/Revision.antt =====
-- TX5, `revise_belief`, with its queries: a stale belief is synthesised again from its facts.
-- The language model is a parameter. The driver may raise at one of the calls that follow the mark,
-- which is an argument. GET_FACTS_IN_CLUSTER returns no row, and the other queries about clusters
-- change nothing. Texts are lists of code points. The new identifier and the clock are arguments.
pub mod Releasing
pub mod Tests
use engrammic.Base.{
  ℕ, Bool, true, false, not, ◌&&◌, ◌||◌, Option, none, some, List, [], ◌∷◌, ◌++◌, map, ltb, leb,
  ◌==◌, if◌then◌else◌, or_default, length, is_empty, keep, any, find_first, contains,
}
use engrammic.Graph.{
  new_node, Node, Store, Edge, stale, fresh, invalidated, SynthesisState, wisdom, is_active,
  matches, set_where, joins, synthesized_from,
}
use engrammic.Sage.Cascade.{synthesis_threshold}
use engrammic.Sage.Supersession.{create_supersedes_edge}
use engrammic.Sage.Proposals.{
  noisy_or_aggregate, synthesis_confidence_threshold, Synthesis, synthesized, failed, timed_out_,
}
use engrammic.Sage.Results.{
  BrainError, belief_not_found, belief_not_active, belief_not_stale, revision_already,
  driver_raised, Result, ok, err, Event, compute_embedding, update_heat,
}

-- `str.strip`
abbrev pub is_space : ℕ → Bool
is_space c =
    (leb 9 c && leb c 13)
    || (leb 28 c && leb c 32)
    || contains c (133 ∷ 160 ∷ 5760 ∷ [])
    || (leb 8192 c && leb c 8202)
    || contains c (8232 ∷ 8233 ∷ 8239 ∷ 8287 ∷ 12288 ∷ [])

abbrev pub lstrip : List ℕ → List ℕ
lstrip [] = []
lstrip (c ∷ cs) = if is_space c then lstrip cs else c ∷ cs

abbrev pub rstrip : List ℕ → List ℕ
rstrip [] = []
rstrip (c ∷ cs) = let rest = rstrip cs in if is_empty rest && is_space c then [] else c ∷ rest

abbrev pub strip : List ℕ → List ℕ
strip cs = rstrip (lstrip cs)

abbrev pub same_text : List ℕ → List ℕ → Bool
same_text [] [] = true
same_text (a ∷ as_) (b ∷ bs) = a == b && same_text as_ bs
same_text as_ bs = false

-- `(b:Belief {id, silo_id})`
abbrev pub belief_node_at : ℕ → ℕ → Node → Bool
belief_node_at id silo n = n.is_belief && matches id silo n

abbrev pub is_stale : Option SynthesisState → Bool
is_stale (some stale) = true
is_stale s = false

-- What is asked of the belief that the query found.
abbrev pub revision_error : Node → Option BrainError
revision_error b =
    if not (is_active b.state)
    then some belief_not_active
    else if not (is_stale b.synthesis_state)
    then some belief_not_stale
    else if b.revision_in_progress
    then some revision_already
    else none

-- MARK_BELIEF_REVISION_IN_PROGRESS
unfoldable pub mark_revision : ℕ → ℕ → Store → Store
mark_revision id silo =
    set_where (belief_node_at id silo) (λ n. record n { revision_in_progress = true })

-- UPDATE_BELIEF_AFTER_REVISION
unfoldable pub update_belief_after_revision : ℕ → ℕ → SynthesisState → Store → Store
update_belief_after_revision id silo s =
    set_where (belief_node_at id silo)
      (λ n. record n { synthesis_state = some s; revision_in_progress = false })

-- GET_FACTS_VIA_SYNTHESIZED_FROM
abbrev pub facts_via_synthesized_from : Store → ℕ → List Node
facts_via_synthesized_from st id =
    keep (λ f. (f.is_fact && is_active f.state) && any (joins synthesized_from id f.id) st.edges)
      st.nodes

abbrev pub belief_of : ℕ → ℕ → List ℕ → ℕ → Node
belief_of new silo content confidence = record (new_node new silo wisdom content) {
  is_belief = true;
  confidence = some confidence;
  synthesis_state = some fresh;
}

abbrev pub source_edges : Store → ℕ → ℕ → List ℕ → List Edge
source_edges st new silo [] = []
source_edges st new silo (f ∷ fs) =
    let rest = source_edges st new silo fs in
    if any (matches f silo) st.nodes
    then record { type = synthesized_from; source = new; target = f; weight = 1000 } ∷ rest
    else rest

-- CREATE_BELIEF_WITH_SYNTHESIZED_FROM
unfoldable pub create_belief : ℕ → List ℕ → Node → Store → Store
create_belief silo facts b st =
    let added = record st { nodes = b ∷ st.nodes } in
    record added { edges = source_edges added b.id silo facts ++ st.edges }

pub record ReviseBeliefResult : Type 0 where
  pub new_belief_id : Option ℕ
  pub old_belief_id : ℕ
  pub content_changed : Bool
  pub is_invalidated : Bool

-- The calls that follow the mark, at which the driver may raise. The call that leaves the belief
-- stale after an error is taken to go through.
pub data Call : Type 0 where
  facts_call update_call create_call supersede_call : Call

abbrev pub Revised : Type 0
Revised = Store × Result (ReviseBeliefResult × List Event)

abbrev pub no_new_belief : ℕ → Bool → ReviseBeliefResult
no_new_belief id gone = record {
  new_belief_id = none;
  old_belief_id = id;
  content_changed = false;
  is_invalidated = gone;
}

-- The facts of a belief: those of its edges, or those of its cluster, which are none.
abbrev pub facts_of : Store → Node → ℕ → List Node
facts_of st old id = elim old.source_cluster_id [
  | none ↦ facts_via_synthesized_from st id
  | some cluster ↦ []
]

module _ (raises : Call → Bool) (id silo new now : ℕ) where
  -- The end of a revision without a new belief.
  abbrev pub settle : SynthesisState → Bool → Store → Revised
  settle s gone st =
      if raises update_call
      then (st, err driver_raised)
      else (update_belief_after_revision id silo s st, ok (no_new_belief id gone, []))

  -- The end of a revision with a new belief.
  unfoldable pub replace_belief : List ℕ → Node → Store → Revised
  unfolding create_belief
  replace_belief facts b st =
      let created = create_belief silo facts b st in
      if raises create_call
      then (st, err driver_raised)
      else if raises supersede_call
      then (created, err driver_raised)
      else (
        create_supersedes_edge created new id silo now,
        ok (
          record {
            new_belief_id = some new;
            old_belief_id = id;
            content_changed = true;
            is_invalidated = false;
          },
          compute_embedding new ∷ update_heat new ∷ [],
        ),
      )

  -- What follows on the model's answer.
  unfoldable pub answered : List ℕ → ℕ → Node → Synthesis → Store → Revised
  unfolding replace_belief update_belief_after_revision
  answered facts aggregate old failed st = settle stale false st
  answered facts aggregate old timed_out_ st = settle stale false st
  answered facts aggregate old (synthesized content) st =
      if same_text (strip content) (strip old.content)
      then settle fresh false st
      else replace_belief facts (belief_of new silo content aggregate) st

  -- `except Exception`: the belief is left stale, and the error is raised again.
  abbrev pub recover : Revised → Revised
  recover (st, err e) = (update_belief_after_revision id silo stale st, err e)
  recover (st, ok r) = (st, ok r)

  module _ (llm : List Node → List ℕ → Synthesis) where
    -- `_revise_belief_v2` and `_revise_belief_v1` on the facts that their queries return.
    unfoldable pub revise_from : Node → List Node → Store → Revised
    unfolding answered update_belief_after_revision
    revise_from old facts st =
        let aggregate = noisy_or_aggregate (map (λ f. or_default f.confidence 800) facts) in
        if raises facts_call
        then (st, err driver_raised)
        else if ltb (length facts) synthesis_threshold
        then settle invalidated true st
        else if ltb aggregate synthesis_confidence_threshold
        then settle invalidated true st
        else answered (map (λ f. f.id) facts) aggregate old (llm facts old.content) st

    unfoldable pub revise_belief : Store → Revised
    unfolding mark_revision revise_from update_belief_after_revision
    revise_belief st = elim (find_first (belief_node_at id silo) st.nodes) [
      | none ↦ (st, err belief_not_found)
      | some b ↦ elim (revision_error b) [
        | some e ↦ (st, err e)
        | none ↦
            let marked = mark_revision id silo st in
            recover (revise_from b (facts_of marked b id) marked)
      ]
    ]
