-- ===== src/Graph.antt =====
-- The graph store as sage/transactions.py and db/queries.py see it: nodes with the properties that
-- the transactions read, typed edges, and the shapes of Cypher that the queries are made of.
-- Identifiers, silos and agents are numbers that are only compared; times are numbers (the source
-- compares ISO timestamps); a confidence or a weight counts thousandths. A missing property is
-- `none`: a test on it is not true, as a comparison with null.
pub mod Types
pub mod Updates
pub mod Unique
pub mod Paths
pub mod Samples
pub mod Thinning
use engrammic.Base.{
  ℕ, Bool, true, false, ◌&&◌, Option, none, some, List, [], map, ◌==◌, find_first, map_where,
}

pub data NodeState : Type 0 where
  active superseded tombstoned deleted : NodeState

pub data SupersedeReason : Type 0 where
  contradiction evidence_shift author_update evidence_erased : SupersedeReason

pub data ConflictStatus : Type 0 where
  unconflicted unresolved resolved_supersede resolved_merge resolved_coexist : ConflictStatus

pub data LinkType : Type 0 where
  related_to contradicts supports refines generalizes caused_by temporal_before : LinkType
  temporal_after references derived_from causes prevents supersedes : LinkType

pub data SynthesisState : Type 0 where
  fresh stale invalidated : SynthesisState

pub data ClaimStatus : Type 0 where
  unpromoted promoted : ClaimStatus

pub data Layer : Type 0 where
  memory knowledge wisdom intelligence : Layer

-- A reference to evidence: `node:` and an identifier, or another text, a URI.
pub data EvidenceRef : Type 0 where
  node_ref uri : ℕ → EvidenceRef

-- The types of LinkType, and those that synthesis and commitments write.
pub data EdgeType : Type 0 where
  link_edge : LinkType → EdgeType
  synthesized_from about : EdgeType

abbrev pub link_code : LinkType → ℕ
link_code related_to = 0
link_code contradicts = 1
link_code supports = 2
link_code refines = 3
link_code generalizes = 4
link_code caused_by = 5
link_code temporal_before = 6
link_code temporal_after = 7
link_code references = 8
link_code derived_from = 9
link_code causes = 10
link_code prevents = 11
link_code supersedes = 12

abbrev pub edge_code : EdgeType → ℕ
edge_code (link_edge t) = link_code t
edge_code synthesized_from = 13
edge_code about = 14

-- ACYCLIC_EDGE_TYPES
abbrev pub is_acyclic_type : LinkType → Bool
is_acyclic_type supersedes = true
is_acyclic_type derived_from = true
is_acyclic_type refines = true
is_acyclic_type generalizes = true
is_acyclic_type caused_by = true
is_acyclic_type t = false

pub record Node : Type 0 where
  pub id : ℕ
  pub silo : ℕ
  pub is_claim : Bool
  pub is_fact : Bool
  pub is_source : Bool
  pub is_chain : Bool
  pub layer : Layer
  pub state : Option NodeState
  pub previous_state : Option NodeState
  pub claim_status : Option ClaimStatus
  pub confidence : Option ℕ
  pub corroboration_count : Option ℕ
  pub cancel_window_expires : Option ℕ
  pub tombstoned_at : Option ℕ
  pub synthesis_state : Option SynthesisState
  pub valid_to : Option ℕ
  pub conflict_status : Option ConflictStatus
  pub restored_at : Option ℕ
  pub propagated : Option ℕ
  pub content : List ℕ
  pub subject : Option ℕ
  pub predicate : Option ℕ
  pub object : Option ℕ
  pub evidence : List EvidenceRef
  pub is_belief : Bool
  pub revision_in_progress : Bool
  pub source_cluster_id : Option ℕ

-- An active node with this content and otherwise without labels and properties.
abbrev pub new_node : ℕ → ℕ → Layer → List ℕ → Node
new_node id silo layer content = record {
  id = id;
  silo = silo;
  is_claim = false;
  is_fact = false;
  is_source = false;
  is_chain = false;
  layer = layer;
  state = some active;
  previous_state = none;
  claim_status = none;
  confidence = none;
  corroboration_count = none;
  cancel_window_expires = none;
  tombstoned_at = none;
  synthesis_state = none;
  valid_to = none;
  conflict_status = none;
  restored_at = none;
  propagated = none;
  content = content;
  subject = none;
  predicate = none;
  object = none;
  evidence = [];
  is_belief = false;
  revision_in_progress = false;
  source_cluster_id = none;
}

pub record Edge : Type 0 where
  pub type : EdgeType
  pub source : ℕ
  pub target : ℕ
  pub weight : ℕ

pub record Store : Type 0 where
  pub nodes : List Node
  pub edges : List Edge

abbrev pub is_active : Option NodeState → Bool
is_active (some active) = true
is_active s = false

abbrev pub is_tombstoned : Option NodeState → Bool
is_tombstoned (some tombstoned) = true
is_tombstoned s = false

abbrev pub is_deleted : Option NodeState → Bool
is_deleted (some deleted) = true
is_deleted s = false

abbrev pub is_promoted : Option ClaimStatus → Bool
is_promoted (some promoted) = true
is_promoted s = false

abbrev pub is_unpromoted : Option ClaimStatus → Bool
is_unpromoted (some unpromoted) = true
is_unpromoted s = false

abbrev pub is_wisdom : Layer → Bool
is_wisdom wisdom = true
is_wisdom l = false

-- `(n {id: $id, silo_id: $silo_id})`
abbrev pub matches : ℕ → ℕ → Node → Bool
matches id silo n = n.id == id && n.silo == silo

-- `MATCH (n {id, silo_id}) RETURN …`, first row.
unfoldable pub find_node : Store → ℕ → ℕ → Option Node
find_node st id silo = find_first (matches id silo) st.nodes

-- `MATCH (n) WHERE p SET …`
unfoldable pub set_where : (Node → Bool) → (Node → Node) → Store → Store
set_where p g st = record st { nodes = map_where p g st.nodes }

abbrev pub has_type : EdgeType → Edge → Bool
has_type t e = edge_code e.type == edge_code t

-- `(s {id})-[:t]->(t {id})`
abbrev pub joins : EdgeType → ℕ → ℕ → Edge → Bool
joins t source target e = has_type t e && (e.source == source && e.target == target)

-- The identifiers of the nodes that match.
abbrev pub node_ids : List Node → List ℕ
node_ids ns = map (λ n. n.id) ns
