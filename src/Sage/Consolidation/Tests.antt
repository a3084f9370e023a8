-- ===== src/Sage/Consolidation/Tests.antt =====
-- A conflict between two nodes of a concrete store.
use engrammic.Base.{ℕ, ◌-◌, ◌≡◌, refl, ◌⊎◌, Bool, some, List, [], ◌∷◌, arith, ◌==◌}
use engrammic.Graph.{
  Store, find_node, set_where, superseded, supersedes, link_edge, resolved_supersede,
}
use engrammic.Graph.Samples.{plain}
use engrammic.Graph.Paths.{has_path}
use engrammic.Sage.Results.{Result, ok, err, node_not_found}
use engrammic.Sage.Supersession.{
  supersede, validate_supersession, check_pair, create_supersedes_edge,
}
use engrammic.Sage.Consolidation.{ConflictSignals, resolve, process_conflict}
use engrammic.Sage.Consolidation.Outcome.{Settled, process_conflict-Settled}

abbrev signals : ℕ → ℕ → ConflictSignals
signals id created = record { node_id = id; created_at = created; agent_id = 8 }

abbrev by_age : ConflictSignals → ℕ
by_age s = 100 - s.created_at

abbrev same_score : ℕ → ℕ → Bool
same_score x y = x == y

abbrev no_store_claim : Store → List ℕ → Result (Store × ℕ)
no_store_claim st content = err node_not_found

abbrev both : Store
both = record { nodes = plain 1 ∷ plain 2 ∷ []; edges = [] }

abbrev after : Store
after = record {
  nodes =
      record (plain 1) {
        state = some superseded;
        valid_to = some 9;
        conflict_status = some resolved_supersede;
      }
      ∷ record (plain 2) { conflict_status = some resolved_supersede }
      ∷ [];
  edges = record { type = link_edge supersedes; source = 2; target = 1; weight = 1000 } ∷ [];
}

processed :
    process_conflict no_store_claim
      (resolve by_age same_score)
      both
      (signals 1 50)
      (signals 2 4)
      1
      9
    ≡ ok after
unfolding process_conflict resolve supersede validate_supersession find_node check_pair has_path
    set_where create_supersedes_edge
processed = refl

process_conflict-Settled_example : Settled both after 1 2 1 9 ⊎ Settled both after 2 1 1 9
process_conflict-Settled_example =
    process_conflict-Settled no_store_claim by_age same_score both (signals 1 50) (signals 2 4) 1 9
      after (ground arith) processed
