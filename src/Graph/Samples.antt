-- ===== src/Graph/Samples.antt =====
-- Nodes and edges for the tests.
use engrammic.Base.{ℕ, some, []}
use engrammic.Graph.{Node, new_node, Edge, memory, LinkType, link_edge}

-- An active memory node of silo 1, without labels.
abbrev pub plain : ℕ → Node
plain id = record (new_node id 1 memory []) { confidence = some 500 }

abbrev pub edge_of : LinkType → ℕ → ℕ → Edge
edge_of type source target = record {
  type = link_edge type;
  source = source;
  target = target;
  weight = 1000;
}
