-- ===== src/Sage/Cascade.antt =====
-- CASCADE_STALENESS: a node has changed, and what was derived from it is marked or tombstoned.
-- An exception of the driver is a parameter, `fails node`: the store raises before anything is
-- written for that node. The handler catches it and defers the node to the queue.
pub mod Scope
pub mod Tests
use engrammic.Base.{
  ℕ, zero, suc, ◌+◌, ◌-◌, Bool, not, ◌&&◌, ◌||◌, some, List, [], ◌∷◌, ◌++◌, ltb, ◌==◌,
  if◌then◌else◌, is_some, length, keep, any, contains,
}
use engrammic.Graph.{
  Node, Store, Edge, tombstoned, stale, link_edge, synthesized_from, derived_from, is_active,
  is_wisdom, matches, set_where, has_type,
}
use engrammic.Sage.Results.{Event, cascade_staleness}

abbrev pub synthesis_threshold : ℕ
synthesis_threshold = 3

abbrev pub max_cascade_depth : ℕ
max_cascade_depth = 10

-- GET_DEPENDENTS_FOR_CASCADE, for one edge: its source, if it is active and depends on the node.
pub dependents_by : Store → ℕ → List Edge → List Node
dependents_by st changed [] = []
dependents_by st changed (e ∷ es) =
    let here : List Node =
      if (has_type synthesized_from e || has_type (link_edge derived_from) e)
        && (e.target == changed)
      then keep (λ n. (n.id == e.source) && is_active n.state) st.nodes
      else [] in
    here ++ dependents_by st changed es

pub get_dependents : Store → ℕ → ℕ → List Node
unfolding dependents_by
get_dependents st changed silo =
    if any (matches changed silo) st.nodes then dependents_by st changed st.edges else []

-- COUNT_ACTIVE_SOURCE_FACTS: the active facts, not tombstoned, that the belief rests on.
pub count_sources : Store → ℕ → List Edge → ℕ
count_sources st belief [] = 0
count_sources st belief (e ∷ es) =
    let here : ℕ =
      if has_type synthesized_from e && (e.source == belief)
      then length (
          keep
            (λ f.
              (f.id == e.target)
              && (f.is_fact && (is_active f.state && not (is_some f.tombstoned_at))))
            st.nodes)
      else 0 in
    here + count_sources st belief es

pub count_active_source_facts : Store → ℕ → ℕ → ℕ
unfolding count_sources
count_active_source_facts st belief silo =
    if any (matches belief silo) st.nodes then count_sources st belief st.edges else 0

-- TOMBSTONE_ORPHANED_BELIEF. It sets no `cancel_window_expires`.
abbrev pub tombstone_belief : ℕ → Node → Node
tombstone_belief now n = record n { state = some tombstoned; tombstoned_at = some now }

-- MARK_BELIEF_STALE_FOR_CASCADE
abbrev pub mark_stale : Node → Node
mark_stale n = record n { synthesis_state = some stale }

abbrev pub wisdom_at : ℕ → ℕ → Node → Bool
wisdom_at id silo n = matches id silo n && is_wisdom n.layer

-- The `layer == "wisdom"` branch.
pub settle_belief : ℕ → ℕ → ℕ → Store → Store
settle_belief dep silo now st =
    if ltb (count_active_source_facts st dep silo) synthesis_threshold
    then set_where (wisdom_at dep silo) (tombstone_belief now) st
    else set_where (wisdom_at dep silo) mark_stale st

pub record Progress : Type 0 where
  pub store : Store
  pub visited : List ℕ
  pub events : List Event
  pub count : ℕ

module _ (fails : ℕ → Bool) (silo now : ℕ) where
  abbrev pub defer : ℕ → Progress → Progress
  defer node p = record p { events = p.events ++ cascade_staleness node ∷ [] }

  -- One dependent; `recurse` is the call at the next depth, which catches for itself.
  pub handle : (ℕ → Progress → Progress) → Node → Progress → Progress
  handle recurse dep p =
      if is_wisdom dep.layer
      then (if fails dep.id
          then defer dep.id p
          else record p { store = settle_belief dep.id silo now p.store; count = p.count + 1 })
      else recurse dep.id p

  pub each : (ℕ → Progress → Progress) → List Node → Progress → Progress
  each recurse [] p = p
  each recurse (dep ∷ deps) p = each recurse deps (handle recurse dep p)

  -- A call below the first, with the handler around it. `left` counts the depths that remain.
  pub cascade_from : ℕ → ℕ → Progress → Progress
  cascade_from zero node p = defer node p
  cascade_from (suc left) node p =
      let entered = record p { visited = node ∷ p.visited } in
      let deeper = each (cascade_from left) (get_dependents p.store node silo) entered in
      if contains node p.visited then p else if fails node then defer node entered else deeper

  -- The first call, at depth 1. Its own query is taken to succeed.
  unfoldable pub cascade : ℕ → Store → Progress
  unfolding cascade_from each handle
  cascade node st =
      each (cascade_from (max_cascade_depth - 1)) (get_dependents st node silo)
        (record { store = st; visited = node ∷ []; events = []; count = 0 })
