-- ===== src/Retention/Deleting.antt =====
-- retention/service.py `hard_delete_node` and `hard_delete_nodes`, and retention/erasure_service.py.
-- `fails node` says that the driver raises; `is_uuid node` that the identifier parses as a UUID;
-- the vector store's answers for a node are those of Vectors.
pub mod Erased
use engrammic.Base.{
  ℕ, ◌+◌, Bool, true, false, not, ◌&&◌, ◌||◌, Option, none, some, List, [], ◌∷◌, ◌++◌, ◌==◌,
  if◌then◌else◌, is_empty, keep, any, contains,
}
use engrammic.Vectors.{Attempts, DeadLetter, delete_vector}
use engrammic.Retention.{Item, Vault, keyed}

abbrev pub touched : ℕ → ℕ × ℕ → Bool
touched id (a, b) = (a == id) || (b == id)

-- HARD_DELETE_NODE: `DETACH DELETE n`, with no RETURN, so without rows.
pub hard_delete_query : ℕ → ℕ → Vault → Vault × List ℕ
hard_delete_query id silo v = (
  record {
    items = keep (λ n. not (keyed id silo n)) v.items;
    links = if any (keyed id silo) v.items then keep (λ l. not (touched id l)) v.links else v.links;
  },
  [],
)

module _ (is_uuid : ℕ → Bool) (vectors : Option (ℕ → Attempts)) (silo : ℕ) where
  pub hard_delete_node : ℕ → Vault × List DeadLetter → (Vault × List DeadLetter) × Bool
  unfolding hard_delete_query
  hard_delete_node id (v, queue) =
      let (v', rows) = hard_delete_query id silo v in
      if is_empty rows then ((v', queue), false) else elim vectors [
        | none ↦ ((v', queue), true)
        | some attempts ↦
            if not (is_uuid id)
            then ((v', queue), false)
            else ((v', delete_vector (attempts id) silo id queue), true)
      ]

  pub hard_delete_nodes : List ℕ → Vault × List DeadLetter → (Vault × List DeadLetter) × ℕ
  hard_delete_nodes [] s = (s, 0)
  hard_delete_nodes (id ∷ ids) s =
      let (s', deleted) = hard_delete_node id s in
      let (s'', count) = hard_delete_nodes ids s' in (s'', if deleted then count + 1 else count)

-- FIND_REFERENCING_NODES, each identifier once.
pub referencing : Vault → ℕ → ℕ → List Item → List ℕ
referencing v id silo [] = []
referencing v id silo (n ∷ ns) =
    let rest = referencing v id silo ns in
    if (n.silo == silo)
      && (not (n.id == id)
          && (any (λ l. (l.0 == n.id) && (l.1 == id)) v.links
              && (any (keyed id silo) v.items && not (contains n.id rest))))
    then n.id ∷ rest
    else rest

-- The inner loop: references that are not listed yet go to the end.
pub add_refs : List ℕ → List ℕ × ℕ → List ℕ × ℕ
add_refs [] acc = acc
add_refs (r ∷ rs) (all, count) =
    add_refs rs (if contains r all then (all, count) else (all ++ r ∷ [], count + 1))

pub gather : Vault → ℕ → List ℕ → List ℕ × ℕ → List ℕ × ℕ
unfolding add_refs referencing
gather v silo [] acc = acc
gather v silo (id ∷ ids) acc = gather v silo ids (add_refs (referencing v id silo v.items) acc)

pub data ErasureStatus : Type 0 where
  completed failed partial : ErasureStatus

abbrev pub status_of : List ℕ → List ℕ → ErasureStatus
status_of erased [] = completed
status_of [] (f ∷ failures) = failed
status_of (e ∷ erased) (f ∷ failures) = partial

pub record Erasure : Type 0 where
  pub vault : Vault
  pub dead_letters : List DeadLetter
  pub erased_ids : List ℕ
  pub failed_ids : List ℕ

module _ (fails is_uuid : ℕ → Bool) (vectors : Option (ℕ → Attempts)) (silo : ℕ) where
  pub erase_one : ℕ → Erasure → Erasure
  erase_one id e =
      let ((v, queue), deleted) =
        hard_delete_node is_uuid vectors silo id (e.vault, e.dead_letters) in
      if fails id
      then record e { failed_ids = e.failed_ids ++ id ∷ [] }
      else if deleted
      then record e { vault = v; dead_letters = queue; erased_ids = e.erased_ids ++ id ∷ [] }
      else record e { vault = v; dead_letters = queue; failed_ids = e.failed_ids ++ id ∷ [] }

  pub erase_each : List ℕ → Erasure → Erasure
  erase_each [] e = e
  erase_each (id ∷ ids) e = erase_each ids (erase_one id e)

  -- The final state, the status of the audit log, and the cascade count.
  pub erase : List ℕ → Bool → Vault → List DeadLetter → Erasure × ErasureStatus × ℕ
  unfolding erase_each erase_one gather
  erase node_ids cascade v queue =
      let (all, count) = if cascade then gather v silo node_ids (node_ids, 0) else (node_ids, 0) in
      let e =
        erase_each all
          (record { vault = v; dead_letters = queue; erased_ids = []; failed_ids = [] }) in
      (e, status_of e.erased_ids e.failed_ids, count)
