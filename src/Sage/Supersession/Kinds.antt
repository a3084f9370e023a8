-- ===== src/Sage/Supersession/Kinds.antt =====
-- A supersession and the hierarchical edge types.
use mathlib.Core.Path.{subst}
use engrammic.Base.{ℕ, ◌≡◌, sym, ◌≢◌, inl, inr, List, ◌==◌, ==→eq, Bool-cases}
use engrammic.Graph.{Store, LinkType, SupersedeReason, supersedes, link_edge, link_code, set_where}
use engrammic.Graph.Types.{link_code_injective}
use engrammic.Graph.Paths.Walks.{IsAcyclic}
use engrammic.Graph.Paths.Cycles.{cons-IsAcyclic_other}
use engrammic.Sage.Results.{ok, Event}
use engrammic.Sage.Supersession.{supersede, create_supersedes_edge, supersedes_edge}
use engrammic.Sage.Supersession.Cycles.{supersede-IsAcyclic, supersede_inv}

-- A supersession by another node keeps the edges of whatever one type acyclic.
pub supersede-IsAcyclic_any :
    (st : Store) (winner loser silo : ℕ) (reason : SupersedeReason) (now : ℕ) (st' : Store)
    (events : List Event) (kind : LinkType)
    → winner ≢ loser
    → IsAcyclic (link_edge kind) st.edges
    → supersede st winner loser silo reason now ≡ ok (st', events)
    → IsAcyclic (link_edge kind) st'.edges
unfolding create_supersedes_edge supersedes_edge set_where
supersede-IsAcyclic_any st winner loser silo reason now st' events kind distinct acyclic h =
    elim (Bool-cases (link_code supersedes == link_code kind)) [
      | inl same ↦
          let kinds : supersedes ≡ kind = link_code_injective supersedes kind (==→eq _ _ same) in
          subst (λ k. IsAcyclic (link_edge k) st'.edges) kinds
            (supersede-IsAcyclic st winner loser silo reason now st' events distinct
              (subst (λ k. IsAcyclic (link_edge k) st.edges) (sym kinds) acyclic) h)
      | inr other ↦
          let created = (supersede_inv st winner loser silo reason now st' events h).1 in
          subst (λ (s : Store). IsAcyclic (link_edge kind) s.edges) (sym created)
            (cons-IsAcyclic_other (link_edge kind) (supersedes_edge winner loser) st.edges acyclic
              other)
    ]
