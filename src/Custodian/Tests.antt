-- ===== src/Custodian/Tests.antt =====
-- Visits and validations at concrete inputs.
use engrammic.Base.{
  ℕ, ◌≡◌, ◌↔◌, Bool, true, false, not, none, List, [], ◌∷◌, ◌++◌, map, length, keep,
}
use engrammic.Custodian.{
  Citation, Claim, ProposedEdge, FindingOutput, cluster, ContentNode, citation_ids, validate_claim,
  validate_proposed_edge, validate_finding, run_validation, is_silo_scope,
}
use engrammic.Custodian.Citations.{validate_finding_each}
use engrammic.Custodian.Surviving.{all_citable, is_acceptable, run_validation_exact}
use engrammic.Custodian.Visits.{
  VisitState, node_seen, claim_committed, visit_finalized, new_visit, emit, emit_all, snapshot,
  replay,
}
use engrammic.Custodian.Visits.Replaying.{begun, emitted, replay-snapshot}

abbrev cite : ℕ → Citation
cite id = record { node_id = id; is_primary = true }

abbrev claim : List ℕ → Claim
claim ids = record { text = 1; citations = map cite ids }

abbrev edge : ℕ → ℕ → ProposedEdge
edge a b = record {
  source_node_id = a;
  target_node_id = b;
  relationship = 2;
  source_type = 3;
  target_type = 3;
  supporting_node_ids = a ∷ b ∷ [];
  confidence = 900;
}

-- Node 3 is of another silo.
abbrev graph : List ContentNode
graph =
    record { id = 1; silo_id = 7 }
    ∷ record { id = 2; silo_id = 7 }
    ∷ record { id = 3; silo_id = 8 }
    ∷ []

abbrev finding : FindingOutput
finding = record {
  silo_id = 7;
  scope = cluster;
  claims = claim (1 ∷ 2 ∷ []) ∷ claim (1 ∷ 3 ∷ []) ∷ claim (4 ∷ []) ∷ [];
  inferred_relations = edge 1 2 ∷ edge 1 3 ∷ [];
}

abbrev any_kind : ℕ → ℕ → ℕ → Bool
any_kind s r t = true

abbrev seen : List ℕ
seen = 1 ∷ 2 ∷ 3 ∷ []

validate_finding_each_example : validate_finding any_kind 700 graph finding seen ≡ (
  map (validate_claim graph 7 seen) finding.claims,
  map (validate_proposed_edge any_kind 700 graph 7 seen) finding.inferred_relations,
)
validate_finding_each_example = validate_finding_each any_kind 700 graph finding seen

run_validation_exact_example :
    let r = run_validation any_kind 700 (λ cs es. length cs) graph finding seen in
    let cites_well : Claim → Bool = λ c. all_citable graph 7 seen (citation_ids c) in
    let acceptable = is_acceptable any_kind 700 graph 7 seen in
    (r.citation.surviving_claims ≡ keep cites_well finding.claims)
    × (r.citation.claims_rejected ≡ length (keep (λ c. not (cites_well c)) finding.claims))
    × (r.citation.surviving_edges ≡ keep acceptable finding.inferred_relations)
    × (r.citation.edges_rejected
        ≡ length (keep (λ e. not (acceptable e)) finding.inferred_relations))
    × ((r.business ≡ none)
        ↔ ((keep cites_well finding.claims ≡ []) × (is_silo_scope finding.scope ≡ false)))
run_validation_exact_example =
    run_validation_exact any_kind 700 (λ cs es. length cs) graph finding seen

abbrev visit : VisitState
visit = emit (claim_committed 9 1 2 3) (emit (node_seen 4) (new_visit 1 2 3))

replay-snapshot_example :
    replay (snapshot visit ++ visit_finalized 5 ∷ []) 1 2 3
    ≡ emit_all (visit_finalized 5 ∷ []) visit
replay-snapshot_example =
    replay-snapshot 1 2 3 visit (visit_finalized 5 ∷ [])
      (emitted (claim_committed 9 1 2 3) (emitted (node_seen 4) begun))
