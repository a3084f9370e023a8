-- ===== src/Graph/Unique.antt =====
-- Stores where one node has a given key.
use engrammic.Base.{
  ℕ, ◌≡◌, refl, ◌∙◌, Bool, true, ◌&&◌, some, List, [], ◌∷◌, arith, if◌then◌else◌, keep, find_first,
  keep-and, map_where, keep-map_where,
}
use engrammic.Graph.{Node, Store, matches, find_node, set_where}

-- `n` is the only node with this identifier in this silo.
abbrev pub UniqueAt : Store → ℕ → ℕ → Node → Type 0
UniqueAt st id silo n = keep (matches id silo) st.nodes ≡ n ∷ []

find_first-keep :
    (q : Node → Bool) (n : Node) (rest ns : List Node)
    → keep q ns ≡ n ∷ rest
    → find_first q ns ≡ some n
find_first-keep q n rest [] h = cc
find_first-keep q n rest (m ∷ ms) h = ground (arith, find_first-keep q n rest ms)

-- A restriction of a unique match keeps that node or none.
pub keep-UniqueAt :
    (st : Store) (id silo : ℕ) (n : Node) (r : Node → Bool)
    → UniqueAt st id silo n
    → keep (λ m. matches id silo m && r m) st.nodes ≡ (if r n then n ∷ [] else [])
keep-UniqueAt st id silo n r u = keep-and (matches id silo) r st.nodes ∙ rw u refl

pub find_node-UniqueAt :
    (st : Store) (id silo : ℕ) (n : Node) → UniqueAt st id silo n → find_node st id silo ≡ some n
unfolding find_node
find_node-UniqueAt st id silo n u = find_first-keep (matches id silo) n [] st.nodes u

-- A test that the unique match passes does not change what is found.
pub find_first-and :
    (r q : Node → Bool) (n : Node) (ns : List Node)
    → keep q ns ≡ n ∷ []
    → r n ≡ true
    → find_first (λ m. r m && q m) ns ≡ some n
find_first-and r q n [] h k = absurd (cc)
find_first-and r q n (m ∷ ms) h k = ground (arith, find_first-and r q n ms)

map_where-none :
    (p : Node → Bool) (g : Node → Node) (ns : List Node) → keep p ns ≡ [] → map_where p g ns ≡ ns
map_where-none p g [] h = refl
map_where-none p g (n ∷ ns) h = ground (arith, map_where-none p g ns)

-- A `SET` whose `MATCH` finds nothing changes nothing.
pub set_where-none :
    (p : Node → Bool) (g : Node → Node) (st : Store) → keep p st.nodes ≡ [] → set_where p g st ≡ st
unfolding set_where
set_where-none p g st h = rw (map_where-none p g st.nodes h) refl

-- Uniqueness survives a `SET` of properties, and the node is the one that was set.
pub set_where-UniqueAt :
    (p : Node → Bool) (g : Node → Node) (st : Store) (id silo : ℕ) (n : Node)
    → ((m : Node) → matches id silo (g m) ≡ matches id silo m)
    → UniqueAt st id silo n
    → UniqueAt (set_where p g st) id silo (if p n then g n else n)
unfolding set_where
set_where-UniqueAt p g st id silo n k u =
    keep-map_where (matches id silo) p g st.nodes k ∙ rw u refl
