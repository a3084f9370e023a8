-- ===== src/Sage/Demotion/Edges.antt =====
-- The edges after a demotion.
use engrammic.Base.{ℕ, ◌≡◌, arith}
use engrammic.Graph.{Store, set_where}
use engrammic.Graph.Thinning.{Thins, same-Thins}
use engrammic.Sage.Results.{ok}
use engrammic.Sage.Demotion.{Demoted, demote, demote_promoted, update_fact_to_demoted}

pub demote-Thins :
    (st : Store) (id silo : ℕ) (d : Demoted) → demote st id silo ≡ ok d → Thins st d.store
unfolding demote demote_promoted update_fact_to_demoted set_where
demote-Thins st id silo d h = same-Thins st d.store (ground arith)
