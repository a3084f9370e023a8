-- ===== src/Sage/History/Hierarchy.antt =====
-- The hierarchy of the graph over histories.
use mathlib.Core.Path.{subst}
use engrammic.Base.{◌≡◌, sym, true}
use engrammic.Graph.{Store, LinkType, link_edge, is_acyclic_type}
use engrammic.Graph.Paths.Walks.{IsAcyclic}
use engrammic.Graph.Paths.Cycles.{IsAcyclic-mono}
use engrammic.Graph.Thinning.{Thins}
use engrammic.Sage.Supersession.Kinds.{supersede-IsAcyclic_any}
use engrammic.Sage.Linking.Cycles.{link-IsAcyclic}
use engrammic.Sage.Cascade.Scope.{cascade-Evolves}
use engrammic.Sage.Forgetting.{cancel_forget}
use engrammic.Sage.Collection.{hard_delete}
use engrammic.Sage.Forgetting.Edges.{forget-Thins, cancel_forget-Thins}
use engrammic.Sage.Collection.Edges.{hard_delete-Thins}
use engrammic.Sage.Promotion.Edges.{promote-Thins}
use engrammic.Sage.Storing.Hierarchy.{store_claim-IsAcyclic}
use engrammic.Sage.Demotion.Edges.{demote-Thins}
use engrammic.Sage.History.{
  Step, superseded_by, linked, cascaded, forgotten, cancelled, collected, promoted_at, demoted_at,
  claimed, History, start, next,
}

-- INV4: the edges of each hierarchical type form no cycle.
abbrev pub IsHierarchy : Store → Type 0
IsHierarchy st =
    (kind : LinkType) → is_acyclic_type kind ≡ true → IsAcyclic (link_edge kind) st.edges

Thins-IsHierarchy : (st st' : Store) → Thins st st' → IsHierarchy st → IsHierarchy st'
Thins-IsHierarchy st st' thin h kind k =
    IsAcyclic-mono (link_edge kind) st.edges st'.edges thin (h kind k)

Step-IsHierarchy : {st st' : Store} → Step st st' → IsHierarchy st → IsHierarchy st'
Step-IsHierarchy {st = st} (superseded_by w l silo reason now st' events distinct e) h kind k =
    supersede-IsAcyclic_any st w l silo reason now st' events kind distinct (h kind k) e
Step-IsHierarchy {st = st} (linked scores s t type silo weight st' events distinct e) h kind k =
    link-IsAcyclic st s t type silo scores weight st' events kind distinct k (h kind k) e
Step-IsHierarchy {st = st} (cascaded fails silo now node) h kind k =
    subst (IsAcyclic (link_edge kind)) (sym (cascade-Evolves fails silo now node st).edges_same)
      (h kind k)
Step-IsHierarchy {st = st} (forgotten out queue id silo wants now later f e) h kind k =
    Thins-IsHierarchy st f.store (forget-Thins out st queue id silo wants now later f e) h kind k
Step-IsHierarchy {st = st} (cancelled id silo first second) h kind k =
    Thins-IsHierarchy st (cancel_forget st id silo first second).0
      (cancel_forget-Thins st id silo first second) h kind k
Step-IsHierarchy {st = st} (collected faults silo now batch_size) h kind k =
    Thins-IsHierarchy st (hard_delete faults st silo now batch_size).store
      (hard_delete-Thins faults st silo now batch_size) h kind k
Step-IsHierarchy {st = st} (promoted_at fails llm id silo passed st' r e) h kind k =
    Thins-IsHierarchy st st' (promote-Thins fails llm st id silo passed st' r e) h kind k
Step-IsHierarchy {st = st} (demoted_at id silo d e) h kind k =
    Thins-IsHierarchy st d.store (demote-Thins st id silo d e) h kind k
Step-IsHierarchy {st = st}
      (claimed triples contents enforced service r id silo now st' result events fresh e) h kind k =
    store_claim-IsAcyclic triples contents enforced service st r id silo now st' result events kind
      fresh k (h kind k) e

-- If the edges of each hierarchical type form no cycle, they form none after any history of
-- supersessions and links between different nodes, claims stored under new identifiers, cascades,
-- forgettings, cancellations, collections, promotions and demotions.
pub History-IsHierarchy : (st st' : Store) → History st st' → IsHierarchy st → IsHierarchy st'
History-IsHierarchy st st' start h = h
History-IsHierarchy st st' (next past one) h =
    Step-IsHierarchy one (History-IsHierarchy st _ past h)
