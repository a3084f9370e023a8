-- ===== src/Sage/Storing.antt =====
-- TX2, `store_claim`: a claim is written to the knowledge layer with its evidence.
-- The new identifier is an argument. Of the properties, those that the graph model keeps are
-- written; `metadata` writes over them, as the source merges it last. What is written to Postgres
-- afterwards is not modelled.
pub mod Fields
pub mod Evidence
pub mod Rejecting
pub mod Hierarchy
pub mod Tests
use engrammic.Base.{
  ℕ, Bool, true, false, not, ◌&&◌, Option, none, some, List, [], ◌∷◌, ◌++◌, ◌==◌, if◌then◌else◌,
  is_empty, keep, any,
}
use engrammic.Graph.{
  new_node, Node, Store, EvidenceRef, node_ref, uri, NodeState, Layer, memory, knowledge,
  ClaimStatus, unpromoted, derived_from, link_edge, is_tombstoned, matches, joins,
}
use engrammic.Sage.Linking.{typed_edge}
use engrammic.Sage.Supersession.{create_supersedes_edge}
use engrammic.Sage.Contradictions.{all_given, check_contradiction_before_write, detect_spo_conflict}
use engrammic.Sage.Corroboration.{Triple, claim_corroboration}
use engrammic.Sage.Results.{
  first_error, BrainError, no_evidence, evidence_not_found, cross_silo_violation,
  evidence_tombstoned, no_memory_evidence, contradiction_rejected, Result, Event, compute_embedding,
  update_heat, cascade_staleness, unless,
}

-- A property that the caller's metadata sets.
pub data Property : Type 0 where
  set_layer : Layer → Property
  set_state : NodeState → Property
  set_claim_status : ClaimStatus → Property
  set_confidence set_subject set_predicate set_object : ℕ → Property
  set_evidence : List EvidenceRef → Property
  set_other : ℕ → Property

abbrev pub write_property : Property → Node → Node
write_property (set_layer l) n = record n { layer = l }
write_property (set_state s) n = record n { state = some s }
write_property (set_claim_status s) n = record n { claim_status = some s }
write_property (set_confidence c) n = record n { confidence = some c }
write_property (set_subject s) n = record n { subject = some s }
write_property (set_predicate p) n = record n { predicate = some p }
write_property (set_object o) n = record n { object = some o }
write_property (set_evidence es) n = record n { evidence = es }
write_property (set_other k) n = n

abbrev pub write_properties : List Property → Node → Node
write_properties [] n = n
write_properties (p ∷ ps) n = write_properties ps (write_property p n)

-- The arguments of `store_claim` that matter here.
pub record ClaimRequest : Type 0 where
  pub content : List ℕ
  pub evidence_refs : List EvidenceRef
  pub subject : Option ℕ
  pub predicate : Option ℕ
  pub object_value : Option ℕ
  pub confidence : ℕ
  pub supersedes : Option ℕ
  pub metadata : List Property
  pub is_embedded : Bool
  pub skip_sage_triggers : Bool

-- `[ref[5:] for ref in evidence_refs if ref.startswith("node:")]`
abbrev pub node_refs : List EvidenceRef → List ℕ
node_refs [] = []
node_refs (node_ref id ∷ rs) = id ∷ node_refs rs
node_refs (uri u ∷ rs) = node_refs rs

abbrev pub is_memory : Layer → Bool
is_memory memory = true
is_memory l = false

-- The rows of the query of `_validate_evidence_nodes`.
abbrev pub evidence_rows : Store → ℕ → List ℕ → List Node
evidence_rows st silo [] = []
evidence_rows st silo (id ∷ ids) = keep (matches id silo) st.nodes ++ evidence_rows st silo ids

abbrev pub is_missing : List Node → ℕ → Bool
is_missing rows id = not (any (λ n. n.id == id) rows)

abbrev pub check_rows : List ℕ → ℕ → List Node → Option BrainError
check_rows ids silo rows =
    if any (is_missing rows) ids
    then some evidence_not_found
    else if any (λ n. not (n.silo == silo)) rows
    then some cross_silo_violation
    else if any (λ n. is_tombstoned n.state) rows
    then some evidence_tombstoned
    else if not (any (λ n. is_memory n.layer) rows)
    then some no_memory_evidence
    else none

-- `_validate_evidence_nodes` and the layer test, when some reference names a node.
unfoldable pub validate_evidence : Store → List EvidenceRef → ℕ → Option BrainError
validate_evidence st [] silo = some no_evidence
validate_evidence st refs silo =
    let ids = node_refs refs in
    if is_empty ids then none else check_rows ids silo (evidence_rows st silo ids)

abbrev pub rejection : List ℕ → Option BrainError
rejection [] = none
rejection (id ∷ ids) = some (contradiction_rejected (id ∷ ids))

-- What `store_claim` checks before it writes; `enforced` is `contradiction_enforcement_enabled`.
unfoldable pub claim_error : Bool → Store → ClaimRequest → ℕ → Option BrainError
unfolding validate_evidence
claim_error enforced st r silo = first_error (validate_evidence st r.evidence_refs silo) (
    if enforced
    then rejection (check_contradiction_before_write st r.subject r.predicate r.object_value silo)
    else none)

abbrev pub fresh_claim : ℕ → ClaimRequest → ℕ → Node
fresh_claim id r silo = record (new_node id silo knowledge r.content) {
  is_claim = true;
  claim_status = some unpromoted;
  confidence = some r.confidence;
  evidence = r.evidence_refs;
}

-- The node that `CREATE` writes: the triple is set last, and only as a whole.
unfoldable pub claim_node : ℕ → ClaimRequest → ℕ → Node
claim_node id r silo =
    let n = write_properties r.metadata (fresh_claim id r silo) in
    if all_given r.subject r.predicate r.object_value
    then record n { subject = r.subject; predicate = r.predicate; object = r.object_value }
    else n

-- One row of `_create_derived_from_edges`: `MERGE` keeps an edge that is there.
unfoldable pub derive_one : ℕ → ℕ → ℕ → Store → Store
unfolding typed_edge
derive_one claim silo e st =
    if (any (matches claim silo) st.nodes && any (matches e silo) st.nodes)
      && not (any (joins (link_edge derived_from) claim e) st.edges)
    then record st { edges = typed_edge derived_from claim e 1000 ∷ st.edges }
    else st

unfoldable pub create_derived_from_edges : ℕ → ℕ → List ℕ → Store → Store
unfolding derive_one
create_derived_from_edges claim silo [] st = st
create_derived_from_edges claim silo (e ∷ es) st =
    create_derived_from_edges claim silo es (derive_one claim silo e st)

-- `_create_supersedes_edge` matches the superseded node; without it nothing is written.
unfoldable pub supersede_named : Option ℕ → ℕ → ℕ → ℕ → Store → Store
supersede_named none id silo now st = st
supersede_named (some loser) id silo now st =
    if any (matches loser silo) st.nodes then create_supersedes_edge st id loser silo now else st

pub record StoreClaimResult : Type 0 where
  pub node_id : ℕ
  pub superseded_id : Option ℕ
  pub corroboration_count : ℕ

abbrev pub claim_events : ClaimRequest → ℕ → List Event → List Event
claim_events r id conflicts =
    (if r.is_embedded then [] else compute_embedding id ∷ [])
    ++ update_heat id ∷ elim r.supersedes [ none ↦ [] | some loser ↦ cascade_staleness loser ∷ [] ]
    ++ conflicts

unfoldable pub write_claim : Store → ClaimRequest → ℕ → ℕ → ℕ → Store
unfolding claim_node create_derived_from_edges supersede_named
write_claim st r id silo now = supersede_named r.supersedes id silo now (
    create_derived_from_edges id silo (node_refs r.evidence_refs)
      (record st { nodes = claim_node id r silo ∷ st.nodes }))

-- `with_service`: an embedding service is given, whose judgements are the two functions.
module _ (triple_close : Triple → Triple → Bool) (content_close : List ℕ → List ℕ → Bool)
    (enforced with_service : Bool) where
  unfoldable pub store_claim :
      Store → ClaimRequest → ℕ → ℕ → ℕ → Result (Store × StoreClaimResult × List Event)
  unfolding claim_error write_claim claim_corroboration
  store_claim st r id silo now =
      let written = write_claim st r id silo now in
      let detected = detect_spo_conflict written id r.subject r.predicate r.object_value silo in
      unless (claim_error enforced st r silo) (
        detected.0,
        record {
          node_id = id;
          superseded_id = r.supersedes;
          corroboration_count =
              if r.skip_sage_triggers
              then 0
              else (claim_corroboration triple_close content_close with_service written id silo).0;
        },
        claim_events r id detected.1,
      )
