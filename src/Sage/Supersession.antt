-- ===== src/Sage/Supersession.antt =====
-- TX3, `supersede`: one node takes the place of another.
pub mod Checking
pub mod Cycles
pub mod Effects
pub mod Kinds
pub mod Tests
use engrammic.Base.{ℕ, Bool, not, ◌&&◌, Option, none, some, List, [], ◌∷◌, ◌==◌, if◌then◌else◌}
use engrammic.Graph.{
  Node, Store, Edge, superseded, SupersedeReason, EdgeType, link_edge, supersedes, is_active,
  matches, find_node, set_where,
}
use engrammic.Graph.Paths.{has_path}
use engrammic.Sage.Results.{
  BrainError, node_not_found, cross_silo_violation, winner_not_active, loser_not_active,
  would_create_cycle, Result, Event, cascade_staleness, unless,
}

-- `_would_create_cycle`: is there a path of the edge's type from the target to the source?
unfoldable pub would_create_cycle_check : Store → ℕ → ℕ → EdgeType → Bool
would_create_cycle_check st source target t = has_path t st.edges target source

-- The checks of `_validate_supersession` on the row that the query returned.
unfoldable pub check_pair : Store → Node → Node → ℕ → Option BrainError
unfolding would_create_cycle_check
check_pair st w l silo =
    if not (w.silo == silo && l.silo == silo)
    then some cross_silo_violation
    else if not (is_active w.state)
    then some winner_not_active
    else if not (is_active l.state)
    then some loser_not_active
    else if would_create_cycle_check st w.id l.id (link_edge supersedes)
    then some would_create_cycle
    else none

unfoldable pub validate_supersession : Store → ℕ → ℕ → ℕ → Option BrainError
validate_supersession st winner loser silo = elim (find_node st winner silo) [
  | none ↦ some node_not_found
  | some w ↦ elim (find_node st loser silo) [
    | none ↦ some node_not_found
    | some l ↦ check_pair st w l silo
  ]
]

abbrev pub supersede_node : ℕ → Node → Node
supersede_node now n = record n { state = some superseded; valid_to = some now }

unfoldable pub supersedes_edge : ℕ → ℕ → Edge
supersedes_edge winner loser = record {
  type = link_edge supersedes;
  source = winner;
  target = loser;
  weight = 1000;
}

-- `MATCH (w) MATCH (l) SET l… CREATE (w)-[:SUPERSEDES]->(l)`: both nodes were just found.
unfoldable pub create_supersedes_edge : Store → ℕ → ℕ → ℕ → ℕ → Store
unfolding supersedes_edge
create_supersedes_edge st winner loser silo now =
    let marked = set_where (matches loser silo) (supersede_node now) st in
    record marked { edges = supersedes_edge winner loser ∷ st.edges }

-- The reason is kept on the edge and read by nothing here.
unfoldable pub supersede : Store → ℕ → ℕ → ℕ → SupersedeReason → ℕ → Result (Store × List Event)
supersede st winner loser silo reason now =
    unless (validate_supersession st winner loser silo)
      (create_supersedes_edge st winner loser silo now, cascade_staleness loser ∷ [])
