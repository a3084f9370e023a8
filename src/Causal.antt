-- ===== src/Causal.antt =====
-- engine/causal_invalidation.py: invalidate_derived_edges, and engine/tombstone.py: run_tombstone.
-- A set of edge identifiers is a list without repetitions; its order is that of insertion.
pub mod Derived
pub mod Walking
pub mod Reached
pub mod Selecting
pub mod Targets
pub mod Tests
use engrammic.Base.{
  map_where, ℕ, zero, suc, ◌+◌, Bool, true, false, not, ◌&&◌, ◌||◌, Option, none, some, List, [],
  ◌∷◌, ◌++◌, map, ltb, ◌==◌, if◌then◌else◌, or_default, length, is_empty, take, keep, contains,
}

-- A CAUSES edge, with the properties that are read or written. `invalidated` is missing until it is
-- first set.
pub record Cause : Type 0 where
  pub id : ℕ
  pub silo_id : ℕ
  pub inferred : Bool
  pub inferred_from_edge_ids : List ℕ
  pub consensus_confidence : Option ℕ
  pub extraction_confidence : Option ℕ
  pub created_at : Option ℕ
  pub invalidated : Option Bool
  pub invalidated_at : Option ℕ
  pub invalidation_reason : Option ℕ

-- _FIND_DERIVED_EDGES_BATCH, for one identifier.
abbrev pub derives : ℕ → ℕ → Cause → Bool
derives silo eid r = (r.silo_id == silo) && (contains eid r.inferred_from_edge_ids && r.inferred)

pub derived_of : ℕ → ℕ → List Cause → List ℕ
derived_of silo eid rs = map (λ r. r.id) (keep (derives silo eid) rs)

pub find_derived : ℕ → List ℕ → List Cause → List ℕ
unfolding derived_of
find_derived silo [] rs = []
find_derived silo (eid ∷ eids) rs = derived_of silo eid rs ++ find_derived silo eids rs

-- _TOMBSTONE_DERIVED_EDGES_BATCH, and _TOMBSTONE_EDGE for one identifier.
abbrev pub invalidate : ℕ → ℕ → Cause → Cause
invalidate now reason r = record r {
  invalidated = some true;
  invalidated_at = some now;
  invalidation_reason = some reason;
}

pub tombstone_edges : ℕ → List ℕ → ℕ → ℕ → List Cause → List Cause
tombstone_edges silo eids now reason =
    map_where (λ r. contains r.id eids && (r.silo_id == silo)) (invalidate now reason)

abbrev pub insert_id : ℕ → List ℕ → List ℕ
insert_id x s = if contains x s then s else s ++ x ∷ []

pub set_of : List ℕ → List ℕ
set_of [] = []
set_of (x ∷ xs) = insert_id x (set_of xs)

pub record Walked : Type 0 where
  pub edges : List Cause
  pub frontier : List ℕ
  pub visited : List ℕ
  pub tombstoned : ℕ

abbrev pub batch_of : Walked → List ℕ
batch_of w = keep (λ eid. not (contains eid w.visited)) w.frontier

-- One turn of the loop, with its batch.
pub walk_level : ℕ → ℕ → ℕ → List ℕ → Walked → Walked
unfolding find_derived tombstone_edges set_of
walk_level silo now reason batch w =
    let visited = w.visited ++ batch in
    let to_tombstone =
      keep (λ derived_id. not (contains derived_id visited)) (find_derived silo batch w.edges) in
    record {
      edges = tombstone_edges silo to_tombstone now reason w.edges;
      frontier = set_of to_tombstone;
      visited = visited;
      tombstoned = w.tombstoned + length to_tombstone;
    }

pub walk : ℕ → ℕ → ℕ → ℕ → Walked → Walked
unfolding walk_level
walk silo now reason zero w = w
walk silo now reason (suc depth) w =
    let rest = walk silo now reason depth (walk_level silo now reason (batch_of w) w) in
    if is_empty (batch_of w) then w else rest

abbrev pub start_at : ℕ → List Cause → Walked
start_at superseded rs = record {
  edges = rs;
  frontier = superseded ∷ [];
  visited = [];
  tombstoned = 0;
}

pub invalidate_derived_edges : ℕ → ℕ → ℕ → ℕ → ℕ → List Cause → List Cause × ℕ
unfolding walk
invalidate_derived_edges superseded silo max_depth reason now rs =
    let w = walk silo now reason max_depth (start_at superseded rs) in (w.edges, w.tombstoned)

-- The filters of `build_find_query`. A comparison with a missing value selects nothing.
pub record Criteria : Type 0 where
  pub edge_type_is_causes : Option Bool
  pub confidence_below : Option ℕ
  pub created_before : Option ℕ

abbrev pub below : Option ℕ → ℕ → Bool
below none c = false
below (some x) c = ltb x c

-- `r.invalidated IS NULL`, and `r.invalidated = false`.
abbrev pub is_never_set : Option Bool → Bool
is_never_set none = true
is_never_set (some b) = false

abbrev pub is_set_false : Option Bool → Bool
is_set_false none = false
is_set_false (some b) = not b

abbrev pub passes : Criteria → Cause → Bool
passes f r =
    or_default f.edge_type_is_causes true
    && (elim f.confidence_below [
      | none ↦ true
      | some c ↦ below r.consensus_confidence c || below r.extraction_confidence c
    ]
        && elim f.created_before [ none ↦ true | some t ↦ below r.created_at t ])

-- `WHERE a OR b AND …`: the filters follow `b` alone, since AND binds closer than OR.
pub selects : Criteria → ℕ → Cause → Bool
selects f silo r =
    (r.silo_id == silo)
    && (is_never_set r.invalidated || (is_set_false r.invalidated && passes f r))

pub find_matching : Criteria → ℕ → ℕ → List Cause → List ℕ
unfolding selects
find_matching f silo batch_limit rs = take batch_limit (map (λ r. r.id) (keep (selects f silo) rs))

-- The reasons "ops_tombstone" and "ops_tombstone_cascade".
abbrev pub ops_tombstone : ℕ
ops_tombstone = 1

abbrev pub ops_tombstone_cascade : ℕ
ops_tombstone_cascade = 2

pub record Tombstoning : Type 0 where
  pub edges : List Cause
  pub direct : ℕ
  pub derived : ℕ

-- One turn of the loop. `clock` is the time that the nested call reads.
pub tombstone_target : ℕ → ℕ → ℕ → ℕ → Tombstoning → Tombstoning
unfolding tombstone_edges invalidate_derived_edges
tombstone_target silo max_depth now edge_id t =
    let edges = tombstone_edges silo (edge_id ∷ []) now ops_tombstone t.edges in
    let (after, count) =
      invalidate_derived_edges edge_id silo max_depth ops_tombstone_cascade now edges in
    record { edges = after; direct = t.direct + 1; derived = t.derived + count }

pub tombstone_targets : ℕ → ℕ → ℕ → List ℕ → Tombstoning → Tombstoning
unfolding tombstone_target
tombstone_targets silo max_depth now [] t = t
tombstone_targets silo max_depth now (edge_id ∷ ids) t =
    tombstone_targets silo max_depth now ids (tombstone_target silo max_depth now edge_id t)

pub run_tombstone : ℕ → Option (List ℕ) → Criteria → ℕ → ℕ → ℕ → List Cause → Tombstoning
unfolding tombstone_targets find_matching
run_tombstone silo edge_ids criteria max_depth batch_limit now rs =
    tombstone_targets silo max_depth now
      (or_default edge_ids (find_matching criteria silo batch_limit rs))
      (record { edges = rs; direct = 0; derived = 0 })
