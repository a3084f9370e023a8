-- ===== src/Sage/Collection/Tests.antt =====
-- Collections at concrete stores.
use engrammic.Base.{ℕ, ◌+◌, ◌≡◌, refl, some, [], ◌∷◌, ◌==◌, if◌then◌else◌, length, keep}
use engrammic.Graph.{Store, active, tombstoned}
use engrammic.Graph.Samples.{plain}
use engrammic.Graph.Unique.{UniqueAt}
use engrammic.Sage.Collection.{Fault, no_fault, at_node, hard_delete, tombstoned_for_gc}
use engrammic.Sage.Collection.Collecting.{
  hard_delete_exact, hard_delete_spares, survives, is_no_fault,
}

abbrev gone : Store
gone = record {
  nodes =
      record (plain 1) {
        state = some tombstoned;
        cancel_window_expires = some 3610;
        previous_state = some active;
      }
      ∷ plain 2
      ∷ [];
  edges = [];
}

abbrev faults : ℕ → Fault
faults id = if id == 2 then at_node else no_fault

hard_delete_exact_example :
    let c = hard_delete faults gone 1 4000 100 in
    let candidates = tombstoned_for_gc 1 4000 100 gone in
    (c.deleted_ids ≡ keep (λ id. is_no_fault (faults id)) candidates)
    × (length c.deleted_ids + c.skipped_count ≡ length candidates)
    × (c.store.nodes ≡ keep (survives 1 c.deleted_ids) gone.nodes)
hard_delete_exact_example = hard_delete_exact faults gone 1 4000 100

hard_delete_spares_example : UniqueAt (hard_delete faults gone 1 4000 100).store 2 1 (plain 2)
hard_delete_spares_example = hard_delete_spares faults gone 1 4000 100 2 (plain 2) refl refl
