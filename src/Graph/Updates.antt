-- ===== src/Graph/Updates.antt =====
-- What a `SET` does to the node that a later `MATCH` finds.
use engrammic.Base.{
  find_first-true, change, find_first-map_where, ℕ, ◌≡◌, refl, Bool, true, some, List,
}
use engrammic.Graph.{Node, Store, matches, find_node, set_where, Edge}

-- A `SET` of properties keeps the key of a node.
abbrev pub Keeps : (Node → Node) → Type 0
Keeps g = (n : Node) → ((g n).id ≡ n.id) × ((g n).silo ≡ n.silo)

matches-Keeps :
    (g : Node → Node) → Keeps g → (i s : ℕ) (n : Node) → matches i s (g n) ≡ matches i s n
matches-Keeps g k i s n = rw ((k n).0, (k n).1)

-- The node that is found after a `SET` is the one that was found before, changed if it fits.
pub find_node-set_where :
    (p : Node → Bool) (g : Node → Node) (st : Store) (i s : ℕ)
    → Keeps g
    → find_node (set_where p g st) i s ≡ change p g (find_node st i s)
unfolding find_node set_where
find_node-set_where p g st i s k =
    find_first-map_where (matches i s) p g st.nodes (matches-Keeps g k i s)

pub find_node-matches :
    (st : Store) (i s : ℕ) (n : Node) → find_node st i s ≡ some n → matches i s n ≡ true
unfolding find_node
find_node-matches st i s n e = find_first-true (matches i s) n st.nodes e

-- The edges matter to no node.
pub find_node-edges :
    (st : Store) (es : List Edge) (i s : ℕ)
    → find_node (record st { edges = es }) i s ≡ find_node st i s
unfolding find_node
find_node-edges st es i s = refl
