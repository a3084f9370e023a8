-- ===== src/Sage/Promotion.antt =====
-- TX18, `promote`, with its queries. A confidence counts thousandths, so the
-- boost of 0.1 is 100 and the ceiling 1000.
-- The language model is a parameter: what it says of a claim and a source, or that it raises.
pub mod Gate
pub mod Writing
pub mod Edges
pub mod Tests
use engrammic.Base.{
  ℕ, ◌+◌, ◌-◌, ◌*◌, min, Bool, true, false, not, ◌&&◌, ◌||◌, Option, none, some, List, [], ◌∷◌, map,
  ltb, ◌==◌, if◌then◌else◌, or_default, is_empty, keep, any, find_first,
}
use engrammic.Graph.{
  Node, Store, Edge, promoted, derived_from, link_edge, is_active, is_promoted, is_unpromoted,
  matches, set_where, has_type,
}
use engrammic.Sage.Results.{
  claim_not_found, claim_not_active, insufficient_corroboration, no_confidence, Result, ok, err,
}

abbrev pub promotion_threshold : ℕ
promotion_threshold = 3

pub data Verdict : Type 0 where
  says : Bool → Verdict
  raises : Verdict

-- `verify_claim_against_source`: an error counts as support.
abbrev pub verify_claim_against_source : Verdict → Bool
verify_claim_against_source (says supported) = supported
verify_claim_against_source raises = true

abbrev pub Model : Type 0
Model = List ℕ → List ℕ → Verdict

-- `(c:Claim {id, silo_id})`
abbrev pub claim_at : ℕ → ℕ → Node → Bool
claim_at id silo n = n.is_claim && matches id silo n

-- `(c)-[:DERIVED_FROM]->(s:Source)`
abbrev pub derives : ℕ → ℕ → Edge → Bool
derives id target e =
    has_type (link_edge derived_from) e && ((e.source == id) && (e.target == target))

abbrev pub is_linked_source : Store → ℕ → Node → Bool
is_linked_source st id s = s.is_source && any (derives id s.id) st.edges

pub source_contents : Store → ℕ → List (List ℕ)
source_contents st id =
    keep (λ c. not (is_empty c)) (map (λ s. s.content) (keep (is_linked_source st id) st.nodes))

abbrev pub all_support : Model → List ℕ → List (List ℕ) → Bool
all_support llm claim [] = true
all_support llm claim (s ∷ ss) =
    verify_claim_against_source (llm claim s) && all_support llm claim ss

-- No model, no content or no source content: nothing to verify.
pub verified : Option Model → Store → Node → ℕ → Bool
unfolding source_contents
verified none st c id = true
verified (some llm) st c id =
    is_empty c.content || all_support llm c.content (source_contents st id)

abbrev pub promote_fields : ℕ → Node → Node
promote_fields new_confidence n = record n {
  claim_status = some promoted;
  confidence = some new_confidence;
  is_fact = true;
}

-- UPDATE_CLAIM_TO_PROMOTED
pub update_claim_to_promoted : ℕ → ℕ → ℕ → Store → Store
update_claim_to_promoted id silo new_confidence =
    set_where (λ n. claim_at id silo n && (is_active n.state && is_unpromoted n.claim_status))
      (promote_fields new_confidence)

-- `DETACH DELETE s` for the sources of the fact. A failure is logged and changes nothing.
pub cleanup_sources : Bool → ℕ → ℕ → Store → Store
cleanup_sources true id silo st = st
cleanup_sources false id silo st =
    if any (matches id silo) st.nodes
    then record {
      nodes = keep (λ n. not (is_linked_source st id n)) st.nodes;
      edges =
          keep
            (λ e. not (
              any (λ s. is_linked_source st id s && ((e.source == s.id) || (e.target == s.id)))
                st.nodes))
            st.edges;
    }
    else st

pub record Promoted : Type 0 where
  pub new_confidence : Option ℕ
  pub corroboration_count : ℕ

abbrev pub boosted : ℕ → ℕ → ℕ
boosted confidence count = min 1000 (confidence + 100 * (count - promotion_threshold + 1))

pub promote_unpromoted :
    Bool → Option Model → Store → Node → ℕ → ℕ → ℕ → Result (Store × Option Promoted)
unfolding verified update_claim_to_promoted cleanup_sources
promote_unpromoted cleanup_fails llm st c id silo count =
    if ltb count promotion_threshold
    then err insufficient_corroboration
    else if not (verified llm st c id)
    then ok (st, none)
    else elim c.confidence [
      | none ↦ err no_confidence
      | some confidence ↦ ok (
        cleanup_sources cleanup_fails id silo
            (update_claim_to_promoted id silo (boosted confidence count) st),
        some (record {
          new_confidence = some (boosted confidence count);
          corroboration_count = count;
        }),
      )
    ]

-- `passed` is the caller's corroboration count; without one the stored count serves.
pub promote : Bool → Option Model → Store → ℕ → ℕ → Option ℕ → Result (Store × Option Promoted)
unfolding promote_unpromoted
promote cleanup_fails llm st id silo passed = elim (find_first (claim_at id silo) st.nodes) [
  | none ↦ err claim_not_found
  | some c ↦
      let count = or_default passed (or_default c.corroboration_count 0) in
      if not (is_active c.state)
      then err claim_not_active
      else if is_promoted c.claim_status
      then ok (st, some (record { new_confidence = c.confidence; corroboration_count = count }))
      else promote_unpromoted cleanup_fails llm st c id silo count
]
