-- ===== src/Sage/Contradictions.antt =====
-- Structural contradictions of sage/transactions.py: claims of one silo with the same subject and
-- predicate and different objects are looked for before a write and flagged after it.
-- Texts are numbers that are compared, and the empty text is 0. The time of a detection is new, so
-- that the MERGE of a CONTRADICTS edge, which carries it, creates the edge.
pub mod Flagging
pub mod Reporting
pub mod Consistency
pub mod Tests
use engrammic.Base.{
  ℕ, Bool, false, not, ◌&&◌, ◌||◌, Option, none, some, List, [], ◌∷◌, map, ◌==◌, if◌then◌else◌,
  keep, any,
}
use engrammic.Graph.{
  Node, Store, Edge, ConflictStatus, unresolved, contradicts, link_edge, is_active, matches,
  set_where, has_type,
}
use engrammic.Sage.Results.{Event, conflict_detected}

-- `all([…])`: an argument counts when it is neither None nor the empty text.
abbrev pub is_given : Option ℕ → Bool
is_given none = false
is_given (some a) = not (a == 0)

abbrev pub all_given : Option ℕ → Option ℕ → Option ℕ → Bool
all_given s p o = is_given s && (is_given p && is_given o)

-- `=` and `<>` of Cypher, which do not hold of a missing value.
abbrev pub same : Option ℕ → Option ℕ → Bool
same (some a) (some b) = a == b
same x y = false

abbrev pub differs : Option ℕ → Option ℕ → Bool
differs (some a) (some b) = not (a == b)
differs x y = false

-- `MATCH (c:Claim {silo_id}) WHERE …`: the active claims that say something else.
abbrev pub conflicts_with : ℕ → Option ℕ → Option ℕ → Option ℕ → Node → Bool
conflicts_with silo s p o c =
    (c.is_claim && c.silo == silo)
    && (is_active c.state && (same c.subject s && (same c.predicate p && differs c.object o)))

unfoldable pub check_contradiction_before_write :
    Store → Option ℕ → Option ℕ → Option ℕ → ℕ → List ℕ
check_contradiction_before_write st s p o silo =
    if all_given s p o then map (λ c. c.id) (keep (conflicts_with silo s p o) st.nodes) else []

unfoldable pub contradicts_edge : ℕ → ℕ → Edge
contradicts_edge source target = record {
  type = link_edge contradicts;
  source = source;
  target = target;
  weight = 1000;
}

unfoldable pub create_bidirectional_contradicts : ℕ → ℕ → ℕ → Store → Store
unfolding contradicts_edge
create_bidirectional_contradicts a b silo st =
    if any (matches a silo) st.nodes && any (matches b silo) st.nodes
    then record st { edges = contradicts_edge b a ∷ contradicts_edge a b ∷ st.edges }
    else st

abbrev pub is_one_of : ℕ → ℕ → ℕ → Node → Bool
is_one_of a b silo n = (n.silo == silo) && ((n.id == a) || (n.id == b))

unfoldable pub set_conflict_status : ℕ → ℕ → ℕ → ConflictStatus → Store → Store
set_conflict_status a b silo status =
    set_where (is_one_of a b silo) (λ n. record n { conflict_status = some status })

-- The loop of `detect_spo_conflict`.
unfoldable pub flag_conflicts : ℕ → ℕ → List ℕ → Store → Store
flag_conflicts silo new [] st = st
flag_conflicts silo new (existing ∷ es) st = flag_conflicts silo new es (
    set_conflict_status new existing silo unresolved
      (create_bidirectional_contradicts new existing silo st))

unfoldable pub conflict_ids : Store → ℕ → Option ℕ → Option ℕ → Option ℕ → ℕ → List ℕ
conflict_ids st new s p o silo =
    map (λ c. c.id) (keep (λ c. conflicts_with silo s p o c && not (c.id == new)) st.nodes)

unfoldable pub detect_spo_conflict :
    Store → ℕ → Option ℕ → Option ℕ → Option ℕ → ℕ → Store × List Event
unfolding conflict_ids
detect_spo_conflict st new s p o silo =
    if all_given s p o
    then (let ids = conflict_ids st new s p o silo in
        (flag_conflicts silo new ids st, map (conflict_detected new) ids))
    else (st, [])

-- `(a {id, silo_id})-[:CONTRADICTS]-(c)`: a neighbour, in either direction, of one of the nodes.
abbrev pub opposes : Store → ℕ → ℕ → Node → Bool
opposes st silo id c =
    any (matches id silo) st.nodes
    && any
        (λ e.
          has_type (link_edge contradicts) e
          && ((e.source == id && e.target == c.id) || (e.target == id && e.source == c.id)))
        st.edges

-- GAP-012: the active nodes that contradict one of the nodes a new node is about.
unfoldable pub check_ncb_before_write : Store → List ℕ → ℕ → List ℕ
check_ncb_before_write st about silo =
    map (λ c. c.id)
      (keep (λ c. is_active c.state && any (λ id. opposes st silo id c) about) st.nodes)
