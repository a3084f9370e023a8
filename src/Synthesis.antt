-- ===== src/Synthesis.antt =====
-- synthesis/independence.py and synthesis/trigger.py. Scores count tenths of one, times are seconds;
-- the rows of the two queries are arguments.
pub mod Threshold
pub mod Tests
use engrammic.Base.{
  ℕ, ◌+◌, ◌-◌, min, Bool, false, not, Option, none, some, List, [], ◌∷◌, ◌++◌, ltb, leb, ◌==◌,
  if◌then◌else◌, length,
}

pub record FactMetadata : Type 0 where
  pub fact_id : ℕ
  pub document_id : Option ℕ
  pub agent_id : Option ℕ
  pub created_at : Option ℕ
  pub source_tier : Option ℕ

-- Both known, and different.
abbrev pub differ : Option ℕ → Option ℕ → Bool
differ none b = false
differ (some x) none = false
differ (some x) (some y) = not (x == y)

abbrev pub temporal_gap_seconds : ℕ
temporal_gap_seconds = 86400

-- Both known, and more than a day apart.
abbrev pub far_apart : Option ℕ → Option ℕ → Bool
far_apart none b = false
far_apart (some x) none = false
far_apart (some x) (some y) = ltb temporal_gap_seconds ((x - y) + (y - x))

abbrev pub bonus : Bool → ℕ → ℕ
bonus holds score = if holds then score else 0

pub calculate_independence : FactMetadata → FactMetadata → ℕ
calculate_independence a b =
    min
      (2
        + bonus (differ a.document_id b.document_id) 3
        + bonus (differ a.agent_id b.agent_id) 3
        + bonus (far_apart a.created_at b.created_at) 2
        + bonus (differ a.source_tier b.source_tier) 2)
      10

abbrev pub against : FactMetadata → List FactMetadata → ℕ
against a [] = 0
against a (b ∷ bs) = calculate_independence a b + against a bs

-- The sum over all unordered pairs.
pub pairwise : List FactMetadata → ℕ
pairwise [] = 0
pairwise (f ∷ fs) = against f fs + pairwise fs

pub check_synthesis_threshold : List FactMetadata → ℕ → Bool
unfolding pairwise
check_synthesis_threshold facts threshold =
    if ltb (length facts) 2 then false else leb threshold (pairwise facts)

pub record CorroborationCandidate : Type 0 where
  pub fact_ids : List ℕ
  pub shared_entities : List ℕ
  pub independence_score : ℕ

pub record CorroborationRow : Type 0 where
  pub fact_a_id : Option ℕ
  pub fact_b_id : Option ℕ
  pub shared_entities : List ℕ

-- A row without one of the identifiers is passed over.
abbrev pub candidate_of : List ℕ → Option ℕ → Option ℕ → List CorroborationCandidate
candidate_of shared none b = []
candidate_of shared (some a) none = []
candidate_of shared (some a) (some b) =
    record { fact_ids = a ∷ b ∷ []; shared_entities = shared; independence_score = 0 } ∷ []

pub find_corroborating_facts : List CorroborationRow → List CorroborationCandidate
find_corroborating_facts [] = []
find_corroborating_facts (r ∷ rs) =
    candidate_of r.shared_entities r.fact_a_id r.fact_b_id ++ find_corroborating_facts rs

-- `metadata_by_id`, where the last row with an identifier counts.
abbrev pub last_with : ℕ → List FactMetadata → Option FactMetadata
last_with id [] = none
last_with id (m ∷ ms) = elim (last_with id ms) [
  | some n ↦ some n
  | none ↦ if m.fact_id == id then some m else none
]

abbrev pub known : Option FactMetadata → List FactMetadata
known none = []
known (some m) = m ∷ []

abbrev pub resolve_facts : List FactMetadata → List ℕ → List FactMetadata
resolve_facts ms [] = []
resolve_facts ms (id ∷ ids) = known (last_with id ms) ++ resolve_facts ms ids

pub evaluate_synthesis_candidates :
    List FactMetadata → ℕ → List CorroborationCandidate → List CorroborationCandidate
unfolding pairwise check_synthesis_threshold
evaluate_synthesis_candidates ms threshold [] = []
evaluate_synthesis_candidates ms threshold (c ∷ cs) =
    let rest = evaluate_synthesis_candidates ms threshold cs in
    let facts = resolve_facts ms c.fact_ids in
    if ltb (length facts) 2
    then rest
    else if check_synthesis_threshold facts threshold
    then record c { independence_score = pairwise facts } ∷ rest
    else rest

pub record SynthesisSettings : Type 0 where
  pub disabled : Bool
  pub independence_threshold : ℕ

-- The candidates for which a request is emitted.
pub trigger_synthesis :
    SynthesisSettings → List CorroborationRow → List FactMetadata → List CorroborationCandidate
unfolding find_corroborating_facts evaluate_synthesis_candidates
trigger_synthesis settings rows ms =
    if settings.disabled
    then []
    else evaluate_synthesis_candidates ms settings.independence_threshold
        (find_corroborating_facts rows)
