-- ===== src/Sage/Collection.antt =====
-- TX10, `hard_delete`, with the queries GET_TOMBSTONED_FOR_GC, DELETE_EDGES_FOR_NODE and
-- HARD_DELETE_NODE of the transactions.
pub mod Collecting
pub mod Edges
pub mod Tests
use engrammic.Base.{
  ℕ, ◌+◌, Bool, false, not, ◌&&◌, ◌||◌, Option, none, some, List, [], ◌∷◌, ◌++◌, map, ltb, ◌==◌,
  if◌then◌else◌, take, keep, any,
}
use engrammic.Graph.{Node, Store, Edge, is_tombstoned, matches}

-- Where the driver raises while a candidate is deleted.
pub data Fault : Type 0 where
  no_fault at_edges at_node : Fault

abbrev pub expired : ℕ → Option ℕ → Bool
expired now none = false
expired now (some expires) = ltb expires now

-- GET_TOMBSTONED_FOR_GC
abbrev pub collectable : ℕ → ℕ → Node → Bool
collectable silo now n =
    (n.silo == silo) && (is_tombstoned n.state && expired now n.cancel_window_expires)

pub tombstoned_for_gc : ℕ → ℕ → ℕ → Store → List ℕ
tombstoned_for_gc silo now batch_size st =
    take batch_size (map (λ n. n.id) (keep (collectable silo now) st.nodes))

abbrev pub touches : ℕ → Edge → Bool
touches id e = (e.source == id) || (e.target == id)

-- DELETE_EDGES_FOR_NODE
pub delete_edges : ℕ → ℕ → Store → Store
delete_edges id silo st =
    if any (matches id silo) st.nodes
    then record st { edges = keep (λ e. not (touches id e)) st.edges }
    else st

-- HARD_DELETE_NODE
pub delete_node : ℕ → ℕ → Store → Store
delete_node id silo st = record st {
  nodes = keep (λ n. not (matches id silo n && is_tombstoned n.state)) st.nodes;
}

pub record Collected : Type 0 where
  pub store : Store
  pub deleted_ids : List ℕ
  pub skipped_count : ℕ

pub collect_one : (ℕ → Fault) → ℕ → ℕ → Collected → Collected
unfolding delete_edges delete_node
collect_one faults silo id c = elim (faults id) [
  | no_fault ↦ record {
    store = delete_node id silo (delete_edges id silo c.store);
    deleted_ids = c.deleted_ids ++ id ∷ [];
    skipped_count = c.skipped_count;
  }
  | at_edges ↦ record c { skipped_count = c.skipped_count + 1 }
  | at_node ↦ record c { store = delete_edges id silo c.store; skipped_count = c.skipped_count + 1 }
]

pub collect : (ℕ → Fault) → ℕ → List ℕ → Collected → Collected
collect faults silo [] c = c
collect faults silo (id ∷ ids) c = collect faults silo ids (collect_one faults silo id c)

pub hard_delete : (ℕ → Fault) → Store → ℕ → ℕ → ℕ → Collected
unfolding collect collect_one tombstoned_for_gc
hard_delete faults st silo now batch_size =
    collect faults silo (tombstoned_for_gc silo now batch_size st)
      (record { store = st; deleted_ids = []; skipped_count = 0 })
