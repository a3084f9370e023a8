-- ===== src/Sage/Demotion.antt =====
-- TX19, `demote`, with its queries. A confidence counts thousandths, as in Promotion.
pub mod Demoting
pub mod Edges
pub mod Tests
use engrammic.Base.{
  ℕ, ◌-◌, max, Bool, false, not, ◌&&◌, Option, none, some, List, [], ◌∷◌, leb, ◌==◌, if◌then◌else◌,
  length, keep, any, find_first, contains,
}
use engrammic.Graph.{Node, Store, unpromoted, is_active, is_promoted, matches, set_where}
use engrammic.Sage.Results.{
  fact_not_found, fact_not_active, no_confidence, Result, ok, err, Event, cascade_staleness,
}
use engrammic.Sage.Promotion.{claim_at, derives, promotion_threshold}

-- `(f:Fact {id, silo_id})`
abbrev pub fact_at : ℕ → ℕ → Node → Bool
fact_at id silo n = n.is_fact && matches id silo n

-- `=` of Cypher: null equals nothing.
abbrev pub same_value : Option ℕ → Option ℕ → Bool
same_value none b = false
same_value (some a) none = false
same_value (some a) (some b) = a == b

abbrev pub corroborates : Node → ℕ → Node → Bool
corroborates c silo m =
    m.is_claim
    && ((m.silo == silo)
        && (is_active m.state
            && (same_value m.subject c.subject
                && (same_value m.predicate c.predicate && same_value m.object c.object))))

-- Identifiers of the evidence of the corroborating claims, each once.
pub evidence_ids : Store → List Node → List Node → List ℕ
evidence_ids st claims [] = []
evidence_ids st claims (e ∷ es) =
    let rest = evidence_ids st claims es in
    if any (λ m. any (derives m.id e.id) st.edges) claims && not (contains e.id rest)
    then e.id ∷ rest
    else rest

-- RECOUNT_CORROBORATION
pub recount_corroboration : Store → ℕ → ℕ → ℕ
unfolding evidence_ids
recount_corroboration st id silo = elim (find_first (claim_at id silo) st.nodes) [
  | none ↦ 0
  | some c ↦ length (evidence_ids st (keep (corroborates c silo) st.nodes) st.nodes)
]

abbrev pub demote_fields : ℕ → Node → Node
demote_fields new_confidence n = record n {
  claim_status = some unpromoted;
  confidence = some new_confidence;
  is_fact = false;
}

-- UPDATE_FACT_TO_DEMOTED
pub update_fact_to_demoted : ℕ → ℕ → ℕ → Store → Store
update_fact_to_demoted id silo new_confidence =
    set_where (λ n. fact_at id silo n && (is_active n.state && is_promoted n.claim_status))
      (demote_fields new_confidence)

pub record Demoted : Type 0 where
  pub store : Store
  pub new_confidence : Option ℕ
  pub corroboration_count : Option ℕ
  pub events : List Event

pub demote_promoted : Store → Node → ℕ → ℕ → Result Demoted
unfolding recount_corroboration update_fact_to_demoted
demote_promoted st f id silo =
    let count = recount_corroboration st id silo in
    if leb promotion_threshold count
    then ok (record {
      store = st;
      new_confidence = f.confidence;
      corroboration_count = some count;
      events = [];
    })
    else elim f.confidence [
      | none ↦ err no_confidence
      | some confidence ↦ ok (record {
        store = update_fact_to_demoted id silo (max 100 (confidence - 100)) st;
        new_confidence = some (max 100 (confidence - 100));
        corroboration_count = some count;
        events = cascade_staleness id ∷ [];
      })
    ]

pub demote : Store → ℕ → ℕ → Result Demoted
unfolding demote_promoted
demote st id silo = elim (find_first (fact_at id silo) st.nodes) [
  | none ↦ err fact_not_found
  | some f ↦
      if not (is_active f.state)
      then err fact_not_active
      else if not (is_promoted f.claim_status)
      then ok (record {
        store = st;
        new_confidence = f.confidence;
        corroboration_count = f.corroboration_count;
        events = [];
      })
      else demote_promoted st f id silo
]
