-- ===== src/Sage/Forgetting.antt =====
-- TX15 and TX16: `forget` and `cancel_forget`, with the queries TOMBSTONE_NODE and
-- RESTORE_TOMBSTONED_NODE.
-- The clock readings are arguments, in the order in which a transaction takes them.
pub mod Cancelling
pub mod Edges
pub mod Tests
use engrammic.Base.{
  ℕ, ◌+◌, Bool, true, false, not, ◌&&◌, Option, none, some, List, [], ◌∷◌, ◌++◌, map, ltb,
  if◌then◌else◌, keep,
}
use engrammic.Graph.{
  Node, Store, NodeState, active, superseded, tombstoned, deleted, is_tombstoned, matches,
  find_node, set_where,
}
use engrammic.Vectors.{Attempts, DeadLetter, delete_vector}
use engrammic.Sage.Results.{
  BrainError, node_not_found, already_tombstoned, already_deleted, invalid_state, not_tombstoned,
  cancel_window_expired, no_previous_state, Result, ok, err, Event, cascade_staleness_complete,
  chain_tombstoned, unless,
}
use engrammic.Sage.Cascade.{cascade}

abbrev pub cancel_window_seconds : ℕ
cancel_window_seconds = 3600

-- What the transaction calls and this repository does not hold: the driver's exceptions in the
-- cascade, and the vector store, if one is given.
pub record Outside : Type 0 where
  pub fails : ℕ → Bool
  pub vectors : Option Attempts

abbrev pub can_forget : Option NodeState → Bool
can_forget (some active) = true
can_forget (some superseded) = true
can_forget s = false

-- The items of the `SET` take effect one after the other: `n.properties.state = 'TOMBSTONED'` is the
-- first, and `n.properties.previous_state = n.properties.state` the last.
-- Left out, as nothing reads them back: the times, the agent and the reason that the query also
-- keeps under `properties`. A node's `tombstoned_at` is the property beside `properties`.
abbrev pub tombstone_fields : ℕ → Node → Node
tombstone_fields expires n =
    let m = record n { state = some tombstoned; cancel_window_expires = some expires } in
    record m { previous_state = m.state }

pub tombstone_node : ℕ → ℕ → ℕ → Store → Store
tombstone_node id silo expires =
    set_where (λ n. matches id silo n && can_forget n.state) (tombstone_fields expires)

abbrev pub forget_error : Option NodeState → Option BrainError
forget_error (some tombstoned) = some already_tombstoned
forget_error (some deleted) = some already_deleted
forget_error (some active) = none
forget_error (some superseded) = none
forget_error none = some invalid_state

pub record Forgotten : Type 0 where
  pub store : Store
  pub dead_letters : List DeadLetter
  pub emitted : List Event
  pub tombstoned_at : ℕ
  pub cancel_window_expires : ℕ
  pub cascade_count : ℕ

abbrev pub chain_events : Node → ℕ → List Event
chain_events n id = if n.is_chain then chain_tombstoned id ∷ [] else []

-- The optional cascade, and the events in the order in which they go out.
pub after_cascade : Outside → Bool → Node → ℕ → ℕ → ℕ → Store → Store × List Event × ℕ
after_cascade out false n id silo later st = (st, chain_events n id, 0)
after_cascade out true n id silo later st =
    let p = cascade out.fails silo later id st in
    (
      p.store,
      p.events ++ (chain_events n id ++ cascade_staleness_complete id p.count ∷ []),
      p.count,
    )

pub forget : Outside → Store → List DeadLetter → ℕ → ℕ → Bool → ℕ → ℕ → Result Forgotten
unfolding tombstone_node after_cascade
forget out st queue id silo wants_cascade now later = elim (find_node st id silo) [
  | none ↦ err node_not_found
  | some n ↦
      let expires = now + cancel_window_seconds in
      let (st', emitted, count) =
        after_cascade out wants_cascade n id silo later (tombstone_node id silo expires st) in
      let queue' : List DeadLetter = elim out.vectors [
        | none ↦ queue
        | some attempts ↦ delete_vector attempts silo id queue
      ] in
      unless (forget_error n.state) (record {
        store = st';
        dead_letters = queue';
        emitted = emitted;
        tombstoned_at = now;
        cancel_window_expires = expires;
        cascade_count = count;
      })
]

abbrev pub window_open : ℕ → Option ℕ → Bool
window_open now none = false
window_open now (some expires) = ltb now expires

-- `if cancel_expires: if now > expires: raise`
abbrev pub window_error : ℕ → Option ℕ → Option BrainError
window_error now none = none
window_error now (some expires) = if ltb expires now then some cancel_window_expired else none

abbrev pub restore_fields : ℕ → Node → Node
restore_fields now n = record n {
  state = n.previous_state;
  cancel_window_expires = none;
  restored_at = some now;
}

abbrev pub restorable : ℕ → ℕ → ℕ → Node → Bool
restorable id silo now n =
    matches id silo n && (is_tombstoned n.state && window_open now n.cancel_window_expires)

-- RESTORE_TOMBSTONED_NODE: the new store, and the rows, each with its `previous_state`.
unfoldable pub restore_node : ℕ → ℕ → ℕ → Store → Store × List (Option NodeState)
restore_node id silo now st = (
  set_where (restorable id silo now) (restore_fields now) st,
  map (λ n. n.previous_state) (keep (restorable id silo now) st.nodes),
)

-- `NodeState(restore_result[0]["previous_state"])`, or ACTIVE where there is no row.
abbrev pub reported_state : List (Option NodeState) → Result NodeState
reported_state [] = ok active
reported_state (none ∷ rows) = err no_previous_state
reported_state (some s ∷ rows) = ok s

-- The store is written before the reported state is read, so it changes in any case.
unfoldable pub restore_and_report : ℕ → ℕ → ℕ → Store → Store × Result NodeState
unfolding restore_node
restore_and_report id silo now st =
    let (st', rows) = restore_node id silo now st in (st', reported_state rows)

unfoldable pub cancel_forget : Store → ℕ → ℕ → ℕ → ℕ → Store × Result NodeState
unfolding restore_and_report
cancel_forget st id silo first second = elim (find_node st id silo) [
  | none ↦ (st, err node_not_found)
  | some n ↦
      if not (is_tombstoned n.state)
      then (st, err not_tombstoned)
      else elim (window_error first n.cancel_window_expires) [
        | some e ↦ (st, err e)
        | none ↦ restore_and_report id silo second st
      ]
]
