-- ===== src/Sage/Consolidation.antt =====
-- sage/consolidation.py: a conflict between two nodes is resolved and the outcome is applied.
-- A score is a number that orders like the source's floats; the score of a node, with its logarithm
-- and its freshness, and `math.isclose` are parameters. The worker gets the signals of both nodes as
-- arguments, and `store_claim`, which a merge calls, is a parameter. An error ends the run; what a
-- merge wrote before an error is not kept here.
pub mod Resolving
pub mod Outcome
pub mod Tests
use engrammic.Base.{
  ℕ, Bool, not, ◌&&◌, ◌||◌, Option, none, some, List, [], ◌∷◌, ltb, ◌==◌, if◌then◌else◌, or_default,
  any, map_where,
}
use engrammic.Graph.{
  Store, Edge, ConflictStatus, resolved_supersede, resolved_merge, resolved_coexist, contradiction,
  contradicts, link_edge, has_type, set_where, matches,
}
use engrammic.Sage.Results.{Result, ok, err, Event}
use engrammic.Sage.Supersession.{supersede}
use engrammic.Sage.Contradictions.{is_one_of}

pub data ResolutionAction : Type 0 where
  supersede_action merge_action coexist_action defer_action : ResolutionAction

pub record ConflictSignals : Type 0 where
  pub node_id : ℕ
  pub created_at : ℕ
  pub agent_id : ℕ

pub record ResolutionResult : Type 0 where
  pub action : ResolutionAction
  pub winner_id : Option ℕ
  pub loser_id : Option ℕ
  pub merged_content : Option (List ℕ)

-- Winner and loser of a tie: the newer of one agent's claims, the older of two agents', then the
-- smaller identifier.
pub tiebreak : ConflictSignals → ConflictSignals → ConflictSignals × ConflictSignals
tiebreak a b =
    if not (a.created_at == b.created_at)
    then (if a.agent_id == b.agent_id
        then (if ltb b.created_at a.created_at then (a, b) else (b, a))
        else (if ltb a.created_at b.created_at then (a, b) else (b, a)))
    else if ltb a.node_id b.node_id
    then (a, b)
    else (b, a)

abbrev pub decided : ConflictSignals × ConflictSignals → ResolutionResult
decided (winner, loser) = record {
  action = supersede_action;
  winner_id = some winner.node_id;
  loser_id = some loser.node_id;
  merged_content = none;
}

module _ (score : ConflictSignals → ℕ) (is_close : ℕ → ℕ → Bool) where
  -- `DeterministicResolver.resolve`
  pub resolve : ConflictSignals → ConflictSignals → ResolutionResult
  unfolding tiebreak
  resolve a b = decided (
      if is_close (score a) (score b)
      then tiebreak a b
      else if ltb (score b) (score a)
      then (a, b)
      else (b, a))

-- What the model answers: an action of the enumeration, if it is one, a winner, and merged content.
pub data Choice : Type 0 where
  choose_a choose_b choose_none : Choice

pub record Extracted : Type 0 where
  pub action : Option ResolutionAction
  pub winner : Choice
  pub merged_content : Option (List ℕ)

abbrev pub undecided : ResolutionAction → Option (List ℕ) → ResolutionResult
undecided action merged = record {
  action = action;
  winner_id = none;
  loser_id = none;
  merged_content = merged;
}

-- `LLMResolver.resolve`, from the answer of the call; `none` where it raised.
pub llm_resolve : Option Extracted → ConflictSignals → ConflictSignals → ResolutionResult
llm_resolve none a b = undecided defer_action none
llm_resolve (some r) a b = elim (or_default r.action defer_action) [
  | supersede_action ↦ elim r.winner [
    | choose_a ↦ decided (a, b)
    | choose_b ↦ decided (b, a)
    | choose_none ↦ undecided defer_action none
  ]
  | merge_action ↦ undecided merge_action r.merged_content
  | coexist_action ↦ undecided coexist_action none
  | defer_action ↦ undecided defer_action none
]

-- `_set_resolved_status`
pub set_resolved_status : ℕ → ℕ → ℕ → ConflictStatus → Store → Store
set_resolved_status a b silo status =
    set_where (is_one_of a b silo) (λ n. record n { conflict_status = some status })

abbrev pub between : ℕ → ℕ → Edge → Bool
between a b e = ((e.source == a) && (e.target == b)) || ((e.source == b) && (e.target == a))

-- `_set_coexist`
pub set_coexist : ℕ → ℕ → ℕ → Store → Store
unfolding set_resolved_status
set_coexist a b silo st =
    let st' = set_resolved_status a b silo resolved_coexist st in
    record st' {
      edges =
          if any (matches a silo) st'.nodes && any (matches b silo) st'.nodes
          then map_where (λ e. has_type (link_edge contradicts) e && between a b e)
              (λ e. record e { weight = 300 }) st'.edges
          else st'.edges;
    }

abbrev pub then_ : Result Store → (Store → Result Store) → Result Store
then_ (err e) k = err e
then_ (ok st) k = k st

abbrev pub supersede_result : Result (Store × List Event) → Result Store
supersede_result (err e) = err e
supersede_result (ok (st', events)) = ok st'

abbrev pub supersede_store : Store → ℕ → ℕ → ℕ → ℕ → Result Store
supersede_store st winner loser silo now =
    supersede_result (supersede st winner loser silo contradiction now)

module _ (store_claim : Store → List ℕ → Result (Store × ℕ)) where
  pub merge : Store → ℕ → ℕ → ℕ → ℕ → List ℕ → Result Store
  merge st a b silo now content = elim (store_claim st content) [
    | err e ↦ err e
    | ok (st', merged) ↦ then_ (supersede_store st' merged a silo now) (λ st₁.
        then_ (supersede_store st₁ merged b silo now)
          (λ st₂. ok (set_resolved_status a b silo resolved_merge st₂)))
  ]

  pub apply_resolution : Store → ℕ → ℕ → ℕ → ℕ → ResolutionResult → Result Store
  unfolding merge set_coexist
  apply_resolution st a b silo now r = elim r.action [
    | supersede_action ↦ elim r.winner_id [
      | none ↦ ok st
      | some winner ↦ elim r.loser_id [
        | none ↦ ok st
        | some loser ↦
            then_ (supersede_store st winner loser silo now)
              (λ st'. ok (set_resolved_status a b silo resolved_supersede st'))
      ]
    ]
    | coexist_action ↦ ok (set_coexist a b silo st)
    | merge_action ↦ elim r.merged_content [
      | none ↦ ok st
      | some [] ↦ ok st
      | some (c ∷ content) ↦ merge st a b silo now (c ∷ content)
    ]
    | defer_action ↦ ok st
  ]

  -- `ConsolidationWorker.process_conflict`, with the signals gathered.
  pub process_conflict :
      (ConflictSignals → ConflictSignals → ResolutionResult)
      → Store
      → ConflictSignals
      → ConflictSignals
      → ℕ
      → ℕ
      → Result Store
  unfolding apply_resolution
  process_conflict resolver st a b silo now =
      apply_resolution st a.node_id b.node_id silo now (resolver a b)
