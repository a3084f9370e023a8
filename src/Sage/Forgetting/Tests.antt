-- ===== src/Sage/Forgetting/Tests.antt =====
-- Forgetting and cancelling at concrete stores.
use engrammic.Base.{◌≡◌, refl, true, false, none, some, [], ◌∷◌, arith}
use engrammic.Graph.{Store, tombstoned, find_node, set_where}
use engrammic.Graph.Samples.{plain}
use engrammic.Graph.Unique.{UniqueAt}
use engrammic.Sage.Results.{ok, err, already_tombstoned}
use engrammic.Sage.Forgetting.{Outside, Forgotten, forget, cancel_forget}
use engrammic.Sage.Collection.{collectable}
use engrammic.Sage.Forgetting.Cancelling.{cancel_forget-forget}

abbrev outside : Outside
outside = record { fails = λ node. false; vectors = none }

abbrev both : Store
both = record { nodes = plain 1 ∷ plain 2 ∷ []; edges = [] }

abbrev forgotten : Forgotten
forgotten = record {
  store = record both {
    nodes =
        record (plain 1) {
          state = some tombstoned;
          cancel_window_expires = some 3610;
          previous_state = some tombstoned;
        }
        ∷ plain 2
        ∷ [];
  };
  dead_letters = [];
  emitted = [];
  tombstoned_at = 10;
  cancel_window_expires = 3610;
  cascade_count = 0;
}

forgets : forget outside both [] 1 1 false 10 11 ≡ ok forgotten
unfolding forget find_node set_where
forgets = refl

cancel_forget-forget_example :
    let (after, result) = cancel_forget forgotten.store 1 1 20 21 in
    let stuck = record (plain 1) {
      state = some tombstoned;
      previous_state = some tombstoned;
      cancel_window_expires = none;
      restored_at = some 21;
    } in
    (result ≡ ok tombstoned)
    × UniqueAt after 1 1 stuck
    × (collectable 1 9000 stuck ≡ false)
    × (forget outside after [] 1 1 true 30 31 ≡ err already_tombstoned)
cancel_forget-forget_example =
    cancel_forget-forget outside outside both [] [] 1 1 10 11 20 21 30 31 9000 true (plain 1)
      forgotten refl forgets (omega arith) (omega arith)
