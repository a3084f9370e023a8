-- ===== src/Sage/Linking/Tests.antt =====
-- Links at concrete stores.
use engrammic.Base.{ℕ, ◌≡◌, refl, List, [], ◌∷◌, arith}
use engrammic.Graph.{Store, find_node, link_edge, refines}
use engrammic.Graph.Samples.{plain, edge_of}
use engrammic.Graph.Paths.{has_path}
use engrammic.Graph.Paths.Walks.{IsAcyclic}
use engrammic.Graph.Paths.Cycles.{cons-IsAcyclic, nil-IsAcyclic}
use engrammic.Sage.Results.{ok, update_heat}
use engrammic.Sage.Linking.{typed_edge, link, validate_link}
use engrammic.Sage.Linking.Cycles.{link-IsAcyclic}

abbrev no_scores : Store → ℕ → ℕ → List (ℕ × ℕ)
no_scores st target silo = []

-- 1 refines 2.
abbrev before : Store
before = record { nodes = plain 1 ∷ plain 2 ∷ plain 3 ∷ []; edges = edge_of refines 1 2 ∷ [] }

abbrev after : Store
after = record before { edges = edge_of refines 2 3 ∷ edge_of refines 1 2 ∷ [] }

linked : link no_scores before 2 3 refines 1 1000 ≡ ok (after, update_heat 2 ∷ update_heat 3 ∷ [])
unfolding link validate_link find_node has_path typed_edge
linked = refl

before-IsAcyclic : IsAcyclic (link_edge refines) before.edges
unfolding has_path
before-IsAcyclic =
    cons-IsAcyclic (link_edge refines) (edge_of refines 1 2) [] (nil-IsAcyclic (link_edge refines))
      (ground arith) refl

link-IsAcyclic_example : IsAcyclic (link_edge refines) after.edges
link-IsAcyclic_example =
    link-IsAcyclic before 2 3 refines 1 no_scores 1000 after (update_heat 2 ∷ update_heat 3 ∷ [])
      refines (ground arith) refl before-IsAcyclic linked
