-- ===== src/Retention.antt =====
-- retention/policy.py, retention/service.py and retention/queries.py: the sweep of a silo.
-- A timestamp is a number of seconds: the code writes ISO text of one form, which orders alike. A
-- heat or a threshold counts thousandths. A query's `WHERE` on a missing property is not true.
pub mod Aging
pub mod Due
pub mod Deleting
pub mod Sweeping
pub mod Requests
pub mod Tests
use engrammic.Base.{
  ℕ, ◌+◌, ◌*◌, Bool, true, false, not, ◌&&◌, Option, none, some, List, [], ◌∷◌, ◌++◌, map, ltb, leb,
  ◌==◌, if◌then◌else◌, is_some, or_default, length, is_empty, keep, contains, map_where,
}

pub data DecayClass : Type 0 where
  ephemeral standard durable permanent unknown : DecayClass

pub data Label : Type 0 where
  memory_label event_label chain_label other_label : Label

-- `forget_requested_at` is text where the service writes it; the cutoff of a cancellation is a
-- number of microseconds.
pub data Stamp : Type 0 where
  text : ℕ → Stamp
  micros : ℕ → Stamp

-- What the retention queries read and write of a node.
pub record Item : Type 0 where
  pub id : ℕ
  pub silo : ℕ
  pub label : Label
  pub decay_class : Option DecayClass
  pub is_reflection : Bool
  pub is_reasoning_trace : Bool
  pub source_chain_id : Option ℕ
  pub created_at : Option ℕ
  pub heat_score : Option ℕ
  pub tombstoned_at : Option ℕ
  pub retention_run_id : Option ℕ
  pub heat_dirty : Bool
  pub forget_requested_at : Option Stamp

-- `links` are the edges, each from its source to its target.
pub record Vault : Type 0 where
  pub items : List Item
  pub links : List (ℕ × ℕ)

pub record RetentionPolicy : Type 0 where
  pub ephemeral_max_age_hours : ℕ
  pub standard_max_age_days : ℕ
  pub standard_heat_threshold : ℕ
  pub durable_max_age_days : ℕ
  pub durable_heat_threshold : ℕ
  pub meta_observation_max_count : ℕ
  pub grace_period_days : ℕ

abbrev pub hours : ℕ → ℕ
hours n = 3600 * n

abbrev pub days : ℕ → ℕ
days n = 86400 * n

pub is_eligible_for_tombstone : RetentionPolicy → DecayClass → ℕ → ℕ → ℕ → Bool
is_eligible_for_tombstone p permanent created heat now = false
is_eligible_for_tombstone p ephemeral created heat now =
    leb (created + hours p.ephemeral_max_age_hours) now
is_eligible_for_tombstone p standard created heat now =
    leb (created + days p.standard_max_age_days) now && ltb heat p.standard_heat_threshold
is_eligible_for_tombstone p durable created heat now =
    leb (created + days p.durable_max_age_days) now && ltb heat p.durable_heat_threshold
is_eligible_for_tombstone p unknown created heat now = false

-- `(n {id, silo_id})`
abbrev pub keyed : ℕ → ℕ → Item → Bool
keyed id silo n = (n.id == id) && (n.silo == silo)

abbrev pub live : Item → Bool
live n = not (is_some n.tombstoned_at)

-- FIND_TOMBSTONE_CANDIDATES, then the loop over its rows, which skips rows without a creation time.
abbrev pub has_aged : RetentionPolicy → ℕ → Item → Bool
has_aged p now n = elim n.decay_class [
  | none ↦ false
  | some c ↦ elim n.created_at [
    | none ↦ false
    | some created ↦ is_eligible_for_tombstone p c created (or_default n.heat_score 500) now
  ]
]

abbrev pub is_permanent : Option DecayClass → Bool
is_permanent (some permanent) = true
is_permanent c = false

abbrev pub is_candidate : RetentionPolicy → ℕ → ℕ → Item → Bool
is_candidate p silo now n =
    (n.silo == silo)
    && (is_some n.decay_class
        && (live n
            && (not (is_permanent n.decay_class) && (not n.is_reflection && has_aged p now n))))

pub find_tombstone_candidates : RetentionPolicy → ℕ → ℕ → Vault → List ℕ
find_tombstone_candidates p silo now v = map (λ n. n.id) (keep (is_candidate p silo now) v.items)

abbrev pub tombstone_item : ℕ → ℕ → Item → Item
tombstone_item now run n = record n { tombstoned_at = some now; retention_run_id = some run }

abbrev pub live_at : ℕ → ℕ → Item → Bool
live_at id silo n = keyed id silo n && live n

-- TOMBSTONE_NODES_BATCH: `UNWIND $node_ids`, row by row; the rows that it returns.
pub tombstone_batch : ℕ → ℕ → ℕ → List ℕ → List Item → List Item × List ℕ
tombstone_batch silo now run [] items = (items, [])
tombstone_batch silo now run (id ∷ ids) items =
    let (items', rows) =
      tombstone_batch silo now run ids
        (map_where (live_at id silo) (tombstone_item now run) items) in
    (items', map (λ n. n.id) (keep (live_at id silo) items) ++ rows)

abbrev pub soil : Item → Item
soil n = record n { heat_dirty = true }

-- MARK_HEAT_DIRTY
pub mark_heat_dirty : ℕ → List ℕ → List Item → List Item
mark_heat_dirty silo ids = map_where (λ n. (n.silo == silo) && contains n.id ids) soil

pub tombstone_nodes : List ℕ → ℕ → ℕ → ℕ → Vault → Vault × ℕ
unfolding tombstone_batch mark_heat_dirty
tombstone_nodes [] silo run now v = (v, 0)
tombstone_nodes (id ∷ ids) silo run now v =
    let (items, rows) = tombstone_batch silo now run (id ∷ ids) v.items in
    (
      record v { items = if is_empty rows then items else mark_heat_dirty silo rows items },
      length rows,
    )
