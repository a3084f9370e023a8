-- ===== src/Sage/Supersession/Checking.antt =====
-- `_would_create_cycle`, the check that `supersede` and `link` make before they create an edge.
use engrammic.Base.{ℕ, ◌≡◌, refl, ◌≢◌, ◌↔◌, true, false, List, ◌∷◌, ==_self}
use mathlib.Core.List.{Memᴰ}
use engrammic.Graph.{Store, Edge, EdgeType, edge_code}
use engrammic.Graph.Paths.Walks.{Walk, IsAcyclic, Walk-mono}
use engrammic.Graph.Paths.Search.{has_path_iff, no_path_iff}
use engrammic.Graph.Paths.Cycles.{cons-IsAcyclic}
use engrammic.Sage.Supersession.{would_create_cycle_check}

closing :
    (t : EdgeType) (e : Edge) (es : List Edge)
    → e.type ≡ t
    → Walk t es e.source e.target
    → Walk t (e ∷ es) e.source e.source
closing t e es same w =
    Walk.step e.target e (Memᴰ.head refl) (rw same (==_self (edge_code t)), refl, refl)
      (Walk-mono (λ x m. Memᴰ.tail m) w)

-- Among edges of a type that form no cycle, the check of a new edge of this type between two
-- different nodes answers true exactly where a walk along such edges leads from its target to its
-- source, and false exactly where the edges with the new one still form no cycle.
pub would_create_cycle_check_iff :
    (st : Store) (source target weight : ℕ) (t : EdgeType)
    → IsAcyclic t st.edges
    → source ≢ target
    → ((would_create_cycle_check st source target t ≡ true) ↔ Walk t st.edges source target)
      × ((would_create_cycle_check st source target t ≡ false)
          ↔ IsAcyclic t
              (record { type = t; source = source; target = target; weight = weight } ∷ st.edges))
unfolding would_create_cycle_check
would_create_cycle_check_iff st source target weight t acyclic distinct = (
  has_path_iff t st.edges target source,
  (
    λ clear.
        cons-IsAcyclic t (record { type = t; source = source; target = target; weight = weight })
          st.edges acyclic distinct clear,
    λ still. (no_path_iff t st.edges target source).1 (λ w. still source (
        closing t (record { type = t; source = source; target = target; weight = weight }) st.edges
          refl w)),
  ),
)
