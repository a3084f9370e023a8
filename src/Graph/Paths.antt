-- ===== src/Graph/Paths.antt =====
-- Cycle checks. `(a)-[:T*]->(b)` of Cypher looks for a trail: a path of one edge or more that uses
-- no edge twice. `has_path` searches for one; the children compare it with the relation.
pub mod Walks
pub mod Search
pub mod Cycles
use engrammic.Base.{ℕ, zero, suc, Bool, false, ◌&&◌, ◌||◌, List, [], ◌∷◌, ◌++◌, ◌==◌, length}
use engrammic.Graph.{Edge, EdgeType, has_type}

-- Tries each edge of type `t` that leaves `a`; `rest` searches on from its end, without that edge.
pub scan : (List Edge → ℕ → Bool) → EdgeType → ℕ → ℕ → List Edge → List Edge → Bool
scan rest t a b before [] = false
scan rest t a b before (e ∷ after) =
    (has_type t e && (e.source == a) && ((e.target == b) || rest (before ++ after) e.target))
    || scan rest t a b (before ++ e ∷ []) after

pub trail : EdgeType → ℕ → List Edge → ℕ → ℕ → Bool
trail t zero es a b = false
trail t (suc k) es a b = scan (λ rest c. trail t k rest c b) t a b [] es

-- As many steps as there are edges suffice, since none is used twice.
unfoldable pub has_path : EdgeType → List Edge → ℕ → ℕ → Bool
unfolding trail scan
has_path t es a b = trail t (length es) es a b
