-- ===== src/Sage/Linking.antt =====
-- TX17, `link`: a typed edge between two nodes.
-- `propagate_incremental` is float arithmetic of numpy: what it computes for a neighbourhood, a new
-- confidence for some nodes, is the parameter `scores`.
pub mod Cycles
pub mod Tests
use engrammic.Base.{
  ℕ, Bool, true, false, not, ◌&&◌, ◌||◌, Option, none, some, List, [], ◌∷◌, ◌==◌, if◌then◌else◌,
  any,
}
use engrammic.Graph.{
  Node, Store, Edge, LinkType, supports, contradicts, link_edge, is_acyclic_type, is_deleted,
  matches, find_node, set_where, joins,
}
use engrammic.Sage.Supersession.{would_create_cycle_check}
use engrammic.Sage.Results.{
  BrainError, node_not_found, cross_silo_violation, node_deleted, duplicate_edge,
  would_create_cycle, Result, Event, update_heat, flag_contradiction, unless,
}

-- The checks of `_validate_link` on the row that the query returned.
pub check_link : Store → Node → Node → LinkType → ℕ → Option BrainError
check_link st s t type silo =
    if not (s.silo == silo && t.silo == silo)
    then some cross_silo_violation
    else if is_deleted s.state || is_deleted t.state
    then some node_deleted
    else if any (joins (link_edge type) s.id t.id) st.edges
    then some duplicate_edge
    else if is_acyclic_type type && would_create_cycle_check st s.id t.id (link_edge type)
    then some would_create_cycle
    else none

pub validate_link : Store → ℕ → ℕ → LinkType → ℕ → Option BrainError
unfolding check_link would_create_cycle_check
validate_link st source target type silo = elim (find_node st source silo) [
  | none ↦ some node_not_found
  | some s ↦ elim (find_node st target silo) [
    | none ↦ some node_not_found
    | some t ↦ check_link st s t type silo
  ]
]

unfoldable pub typed_edge : LinkType → ℕ → ℕ → ℕ → Edge
typed_edge type source target weight = record {
  type = link_edge type;
  source = source;
  target = target;
  weight = weight;
}

abbrev pub spreads : LinkType → Bool
spreads supports = true
spreads contradicts = true
spreads t = false

-- UPDATE_PROPAGATED_CONFIDENCE: `n.confidence`, which is not the property that promotion reads.
pub write_scores : List (ℕ × ℕ) → ℕ → Store → Store
write_scores [] silo st = st
write_scores ((id, score) ∷ us) silo st =
    write_scores us silo
      (set_where (matches id silo) (λ n. record n { propagated = some score }) st)

abbrev pub link_events : LinkType → ℕ → ℕ → List Event
link_events contradicts source target =
    update_heat source ∷ update_heat target ∷ flag_contradiction source target ∷ []
link_events t source target = update_heat source ∷ update_heat target ∷ []

module _ (scores : Store → ℕ → ℕ → List (ℕ × ℕ)) where
  -- `_run_incremental_propagation` after a SUPPORTS or CONTRADICTS edge.
  pub propagate : LinkType → ℕ → ℕ → Store → Store
  propagate type target silo st =
      if spreads type then write_scores (scores st target silo) silo st else st

  pub link : Store → ℕ → ℕ → LinkType → ℕ → ℕ → Result (Store × List Event)
  unfolding propagate
  link st source target type silo weight =
      let created = record st { edges = typed_edge type source target weight ∷ st.edges } in
      unless (validate_link st source target type silo)
        (propagate type target silo created, link_events type source target)
