-- ===== src/Sage/Supersession/Tests.antt =====
-- Supersessions at concrete stores.
use engrammic.Base.{◌≡◌, refl, ◌↔◌, true, false, some, List, [], ◌∷◌, arith}
use engrammic.Graph.{Store, find_node, set_where, link_edge, supersedes, superseded, contradiction}
use engrammic.Graph.Samples.{plain, edge_of}
use engrammic.Graph.Paths.{has_path}
use engrammic.Graph.Paths.Walks.{IsAcyclic, Walk}
use engrammic.Sage.Supersession.{would_create_cycle_check}
use engrammic.Sage.Supersession.Checking.{would_create_cycle_check_iff}
use engrammic.Graph.Paths.Cycles.{cons-IsAcyclic, nil-IsAcyclic}
use engrammic.Sage.Results.{Event, ok, cascade_staleness}
use engrammic.Sage.Supersession.{
  supersede, validate_supersession, check_pair, create_supersedes_edge,
}
use engrammic.Sage.Supersession.Cycles.{Supersedable, supersede_ok_iff, supersede-IsAcyclic}

-- 2 supersedes 1, and 3 is new.
abbrev before : Store
before = record {
  nodes = record (plain 1) { state = some superseded; valid_to = some 5 } ∷ plain 2 ∷ plain 3 ∷ [];
  edges = edge_of supersedes 2 1 ∷ [];
}

abbrev after : Store
after = record {
  nodes =
      record (plain 1) { state = some superseded; valid_to = some 5 }
      ∷ record (plain 2) { state = some superseded; valid_to = some 9 }
      ∷ plain 3
      ∷ [];
  edges = edge_of supersedes 3 2 ∷ edge_of supersedes 2 1 ∷ [];
}

supersedes_2 : supersede before 3 2 1 contradiction 9 ≡ ok (after, cascade_staleness 2 ∷ [])
unfolding supersede validate_supersession find_node check_pair has_path create_supersedes_edge
    set_where
supersedes_2 = refl

before-IsAcyclic : IsAcyclic (link_edge supersedes) before.edges
unfolding has_path
before-IsAcyclic =
    cons-IsAcyclic (link_edge supersedes) (edge_of supersedes 2 1) []
      (nil-IsAcyclic (link_edge supersedes)) (ground arith) refl

would_create_cycle_check_iff_example :
    ((would_create_cycle_check before 1 2 (link_edge supersedes) ≡ true)
      ↔ Walk (link_edge supersedes) before.edges 1 2)
    × ((would_create_cycle_check before 1 2 (link_edge supersedes) ≡ false)
        ↔ IsAcyclic (link_edge supersedes) (edge_of supersedes 1 2 ∷ before.edges))
would_create_cycle_check_iff_example =
    would_create_cycle_check_iff before 1 2 1000 (link_edge supersedes) before-IsAcyclic
      (ground arith)

supersede_ok_iff_example :
    (((r : Store × List Event) × (supersede before 3 2 1 contradiction 9 ≡ ok r))
      ↔ Supersedable before 3 2 1)
    × (((st' : Store) × (supersede before 3 2 1 contradiction 9
            ≡ ok (st', cascade_staleness 2 ∷ []))
          × (st'.edges ≡ edge_of supersedes 3 2 ∷ edge_of supersedes 2 1 ∷ []))
        ↔ Supersedable before 3 2 1)
supersede_ok_iff_example = supersede_ok_iff before 3 2 1 contradiction 9

supersede-IsAcyclic_example : IsAcyclic (link_edge supersedes) after.edges
supersede-IsAcyclic_example =
    supersede-IsAcyclic before 3 2 1 contradiction 9 after (cascade_staleness 2 ∷ []) (ground arith)
      before-IsAcyclic supersedes_2
