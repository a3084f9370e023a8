-- ===== src/Sage/History/Tests.antt =====
-- A history at a concrete store.
use engrammic.Base.{◌≡◌, refl, some, [], ◌∷◌, arith}
use engrammic.Graph.{Store, find_node, set_where, contradiction, supersedes, superseded}
use engrammic.Graph.Samples.{plain, edge_of}
use engrammic.Graph.Paths.{has_path}
use engrammic.Graph.Paths.Cycles.{nil-IsAcyclic}
use engrammic.Sage.Results.{ok, cascade_staleness}
use engrammic.Sage.Supersession.{
  supersede, validate_supersession, check_pair, create_supersedes_edge,
}
use engrammic.Sage.Forgetting.{cancel_forget}
use engrammic.Sage.History.{superseded_by, cancelled, History, start, next}
use engrammic.Sage.History.Hierarchy.{IsHierarchy, History-IsHierarchy}

abbrev first_store : Store
first_store = record { nodes = plain 2 ∷ plain 3 ∷ []; edges = [] }

abbrev second_store : Store
second_store = record {
  nodes = record (plain 2) { state = some superseded; valid_to = some 9 } ∷ plain 3 ∷ [];
  edges = edge_of supersedes 3 2 ∷ [];
}

supersedes_2 :
    supersede first_store 3 2 1 contradiction 9 ≡ ok (second_store, cascade_staleness 2 ∷ [])
unfolding supersede validate_supersession find_node check_pair has_path create_supersedes_edge
    set_where
supersedes_2 = refl

history : History first_store (cancel_forget second_store 2 1 20 21).0
history =
    next
      (next start (
        superseded_by 3 2 1 contradiction 9 second_store (cascade_staleness 2 ∷ []) (ground arith)
          supersedes_2))
      (cancelled 2 1 20 21)

History-IsHierarchy_example : IsHierarchy (cancel_forget second_store 2 1 20 21).0
History-IsHierarchy_example =
    History-IsHierarchy first_store (cancel_forget second_store 2 1 20 21).0 history
      (λ kind k. nil-IsAcyclic _)
