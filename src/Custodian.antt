-- ===== src/Custodian.antt =====
-- custodian/validators.py: CitationValidator, with custodian/business_rules.py and
-- custodian/pipeline.py. The extraction schema and the quality score are arguments. A set of node
-- identifiers is a list, of which the queries and the tests read the members only. A confidence
-- counts thousandths of one.
pub mod Visits
pub mod Citations
pub mod Surviving
pub mod Tests
use engrammic.Base.{
  ℕ, ◌+◌, Bool, true, false, not, ◌&&◌, Option, none, some, List, [], ◌∷◌, ◌++◌, map, ltb, ◌==◌,
  if◌then◌else◌, is_empty, keep, contains,
}

pub record Citation : Type 0 where
  pub node_id : ℕ
  pub is_primary : Bool

pub record Claim : Type 0 where
  pub text : ℕ
  pub citations : List Citation

pub record ProposedEdge : Type 0 where
  pub source_node_id : ℕ
  pub target_node_id : ℕ
  pub relationship : ℕ
  pub source_type : ℕ
  pub target_type : ℕ
  pub supporting_node_ids : List ℕ
  pub confidence : ℕ

pub data Scope : Type 0 where
  cluster silo : Scope

pub record FindingOutput : Type 0 where
  pub silo_id : ℕ
  pub scope : Scope
  pub claims : List Claim
  pub inferred_relations : List ProposedEdge

pub data Rejection : Type 0 where
  hallucinated_node_id invalid_citation cross_silo low_confidence schema_violation : Rejection

pub record ValidationResult : Type 0 where
  pub accepted : Bool
  pub rejection_reason : Option Rejection
  pub offending_node_ids : List ℕ

abbrev pub accepting : ValidationResult
accepting = record { accepted = true; rejection_reason = none; offending_node_ids = [] }

abbrev pub rejecting : Rejection → List ℕ → ValidationResult
rejecting reason offenders = record {
  accepted = false;
  rejection_reason = some reason;
  offending_node_ids = offenders;
}

-- A content node: its identifier and its silo.
pub record ContentNode : Type 0 where
  pub id : ℕ
  pub silo_id : ℕ

-- `_lookup_nodes`, and a reading of the dictionary that it gives.
pub lookup_nodes : List ℕ → List ContentNode → List ContentNode
lookup_nodes node_ids = keep (λ n. contains n.id node_ids)

pub silo_of : ℕ → List ContentNode → Option ℕ
silo_of nid [] = none
silo_of nid (n ∷ ns) = elim (silo_of nid ns) [
  | some s ↦ some s
  | none ↦ if n.id == nid then some n.silo_id else none
]

abbrev pub is_missing : Option ℕ → Bool
is_missing none = true
is_missing (some s) = false

abbrev pub is_elsewhere : ℕ → Option ℕ → Bool
is_elsewhere silo_id none = false
is_elsewhere silo_id (some s) = not (s == silo_id)

-- In the order of first occurrence.
pub dedupe_from : List ℕ → List ℕ → List ℕ
dedupe_from seen [] = []
dedupe_from seen (x ∷ xs) =
    let later = dedupe_from (x ∷ seen) xs in
    if contains x seen then dedupe_from seen xs else x ∷ later

abbrev pub first_reason : List ℕ → List ℕ → List ℕ → Option Rejection
first_reason [] [] [] = none
first_reason [] [] (c ∷ cs) = some cross_silo
first_reason [] (m ∷ ms) cs = some invalid_citation
first_reason (h ∷ hs) ms cs = some hallucinated_node_id

abbrev pub verdict : List ℕ → List ℕ → List ℕ → ValidationResult
verdict hallucinated missing elsewhere = elim (first_reason hallucinated missing elsewhere) [
  | none ↦ accepting
  | some reason ↦ rejecting reason (dedupe_from [] (hallucinated ++ missing ++ elsewhere))
]

-- `_check_node_ids_sync`, with the result that `_evaluate_claim_ids` and `_evaluate_edge_ids` make.
pub check_node_ids : List ℕ → ℕ → List ℕ → List ContentNode → ValidationResult
unfolding silo_of dedupe_from
check_node_ids node_ids silo_id seen lookup_map =
    let survivors = keep (λ nid. contains nid seen) node_ids in
    verdict (keep (λ nid. not (contains nid seen)) node_ids)
      (keep (λ nid. is_missing (silo_of nid lookup_map)) survivors)
      (keep (λ nid. is_elsewhere silo_id (silo_of nid lookup_map)) survivors)

abbrev pub citation_ids : Claim → List ℕ
citation_ids c = map (λ r. r.node_id) c.citations

pub edge_node_ids : ProposedEdge → List ℕ
unfolding dedupe_from
edge_node_ids e = dedupe_from [] (e.source_node_id ∷ e.target_node_id ∷ e.supporting_node_ids)

pub validate_claim : List ContentNode → ℕ → List ℕ → Claim → ValidationResult
unfolding check_node_ids lookup_nodes
validate_claim graph silo_id seen c =
    let survivors = keep (λ nid. contains nid seen) (citation_ids c) in
    check_node_ids (citation_ids c) silo_id seen (lookup_nodes survivors graph)

pub claim_survivors : List ℕ → List Claim → List ℕ
claim_survivors seen [] = []
claim_survivors seen (c ∷ cs) =
    keep (λ nid. contains nid seen) (citation_ids c) ++ claim_survivors seen cs

-- What a rejection before the lookup leaves of an edge's result and of its identifiers.
abbrev pub unless : Option ValidationResult → ValidationResult → ValidationResult
unless (some pre) r = pre
unless none r = r

abbrev pub ids_unless : Option ValidationResult → List ℕ → List ℕ
ids_unless (some pre) ids = []
ids_unless none ids = ids

module _ (schema_is_valid : ℕ → ℕ → ℕ → Bool) (min_edge_confidence : ℕ) where
  pub pre_check_edge : ProposedEdge → Option ValidationResult
  pre_check_edge e =
      if ltb e.confidence min_edge_confidence
      then some (rejecting low_confidence [])
      else if not (schema_is_valid e.source_type e.relationship e.target_type)
      then some (rejecting schema_violation [])
      else none

  pub validate_proposed_edge : List ContentNode → ℕ → List ℕ → ProposedEdge → ValidationResult
  unfolding pre_check_edge check_node_ids lookup_nodes edge_node_ids
  validate_proposed_edge graph silo_id seen e =
      let survivors = keep (λ nid. contains nid seen) (edge_node_ids e) in
      unless (pre_check_edge e)
        (check_node_ids (edge_node_ids e) silo_id seen (lookup_nodes survivors graph))

  pub edge_survivors : List ℕ → List ProposedEdge → List ℕ
  unfolding pre_check_edge edge_node_ids
  edge_survivors seen [] = []
  edge_survivors seen (e ∷ es) =
      ids_unless (pre_check_edge e) (keep (λ nid. contains nid seen) (edge_node_ids e))
      ++ edge_survivors seen es

  -- One edge against the lookup that all share.
  pub evaluate_edge : List ContentNode → ℕ → List ℕ → ProposedEdge → ValidationResult
  unfolding pre_check_edge check_node_ids edge_node_ids
  evaluate_edge lookup_map silo_id seen e =
      unless (pre_check_edge e) (check_node_ids (edge_node_ids e) silo_id seen lookup_map)

  -- The whole finding, with one lookup.
  pub validate_finding :
      List ContentNode → FindingOutput → List ℕ → List ValidationResult × List ValidationResult
  unfolding claim_survivors edge_survivors evaluate_edge check_node_ids lookup_nodes
  validate_finding graph f seen =
      let survivor_ids =
        claim_survivors seen f.claims ++ edge_survivors seen f.inferred_relations in
      let lookup_map = lookup_nodes survivor_ids graph in
      (
        map (λ c. check_node_ids (citation_ids c) f.silo_id seen lookup_map) f.claims,
        map (λ e. evaluate_edge lookup_map f.silo_id seen e) f.inferred_relations,
      )

-- The items whose result accepts them, and the number of the others.
pub surviving {ℓ} : {A : Type ℓ} → List A → List ValidationResult → List A × ℕ
surviving [] rs = ([], 0)
surviving (x ∷ xs) [] = ([], 0)
surviving (x ∷ xs) (r ∷ rs) =
    let (kept, rejected) = surviving xs rs in
    if r.accepted then (x ∷ kept, rejected) else (kept, rejected + 1)

pub record CitationStageResult : Type 0 where
  pub surviving_claims : List Claim
  pub surviving_edges : List ProposedEdge
  pub claims_rejected : ℕ
  pub edges_rejected : ℕ

abbrev pub is_silo_scope : Scope → Bool
is_silo_scope cluster = false
is_silo_scope silo = true

-- `BusinessRuleValidator.evaluate`: the quality of the visit, or none where it is skipped.
pub evaluate :
    (List Claim → List ProposedEdge → ℕ) → FindingOutput → List Claim → List ProposedEdge → Option ℕ
evaluate quality_score f claims edges =
    if is_empty claims && not (is_silo_scope f.scope)
    then none
    else some (quality_score claims edges)

pub record PipelineResult : Type 0 where
  pub citation : CitationStageResult
  pub business : Option ℕ

pub run_validation :
    (ℕ → ℕ → ℕ → Bool)
    → ℕ
    → (List Claim → List ProposedEdge → ℕ)
    → List ContentNode
    → FindingOutput
    → List ℕ
    → PipelineResult
unfolding validate_finding surviving evaluate
run_validation schema_is_valid min_edge_confidence quality_score graph f seen =
    let (claim_results, edge_results) =
      validate_finding schema_is_valid min_edge_confidence graph f seen in
    let (claims, claims_rejected) = surviving f.claims claim_results in
    let (edges, edges_rejected) = surviving f.inferred_relations edge_results in
    record {
      citation = record {
        surviving_claims = claims;
        surviving_edges = edges;
        claims_rejected = claims_rejected;
        edges_rejected = edges_rejected;
      };
      business = evaluate quality_score f claims edges;
    }
