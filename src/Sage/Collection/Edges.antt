-- ===== src/Sage/Collection/Edges.antt =====
-- The edges after a collection.
use engrammic.Base.{ℕ, ◌≡◌, refl, ◌⊎◌, inl, inr, not, List, [], ◌∷◌, Bool-cases, any}
use engrammic.Graph.{Store, matches}
use engrammic.Graph.Thinning.{Thins, same-Thins, keep-Thins, Thins-trans}
use engrammic.Sage.Collection.{
  Fault, no_fault, at_edges, at_node, hard_delete, Collected, collect, collect_one, delete_edges,
  delete_node, tombstoned_for_gc, touches,
}

delete_edges-Thins : (id silo : ℕ) (st : Store) → Thins st (delete_edges id silo st)
unfolding delete_edges
delete_edges-Thins id silo st = elim (Bool-cases (any (matches id silo) st.nodes)) [
  | inl there ↦
      keep-Thins st (delete_edges id silo st) (λ e. not (touches id e))
        (rw (delete_edges, there) refl)
  | inr gone ↦ same-Thins st (delete_edges id silo st) (rw (delete_edges, gone) refl)
]

Fault-cases : (f : Fault) → (f ≡ no_fault) ⊎ (f ≡ at_edges) ⊎ (f ≡ at_node)
Fault-cases no_fault = inl refl
Fault-cases at_edges = inr (inl refl)
Fault-cases at_node = inr (inr refl)

collect_one-Thins :
    (faults : ℕ → Fault) (silo id : ℕ) (c : Collected)
    → Thins c.store (collect_one faults silo id c).store
unfolding collect_one delete_node
collect_one-Thins faults silo id c = elim (Fault-cases (faults id)) [
  | inl fine ↦ rw (collect_one, fine) (delete_edges-Thins id silo c.store)
  | inr (inl early) ↦ rw (collect_one, early) (λ e m. m)
  | inr (inr late) ↦ rw (collect_one, late) (delete_edges-Thins id silo c.store)
]

collect-Thins :
    (faults : ℕ → Fault) (silo : ℕ) (ids : List ℕ) (c : Collected)
    → Thins c.store (collect faults silo ids c).store
unfolding collect
collect-Thins faults silo [] c = λ e m. m
collect-Thins faults silo (id ∷ ids) c =
    Thins-trans c.store (collect_one faults silo id c).store
      (collect faults silo ids (collect_one faults silo id c)).store
      (collect_one-Thins faults silo id c)
      (collect-Thins faults silo ids (collect_one faults silo id c))

pub hard_delete-Thins :
    (faults : ℕ → Fault) (st : Store) (silo now batch_size : ℕ)
    → Thins st (hard_delete faults st silo now batch_size).store
unfolding hard_delete
hard_delete-Thins faults st silo now batch_size =
    collect-Thins faults silo (tombstoned_for_gc silo now batch_size st)
      (record { store = st; deleted_ids = []; skipped_count = 0 })
