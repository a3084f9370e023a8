-- ===== src/Sage/Proposals.antt =====
-- Proposed beliefs: `synthesize_from_facts`, which writes them, and `accept_proposal`.
-- The queries of both read and write properties of the nodes themselves and not of `properties`, so
-- that beliefs and facts have a view of their own here; the graph store serves the check of the
-- neighbourhood alone. The language model is a parameter. A confidence counts thousandths; an
-- aggregate is rounded down, which changes no comparison with a threshold. A new identifier is an
-- argument. What is written to Postgres, and when a proposal expires, is not modelled.
pub mod Accepting
pub mod Outcomes
pub mod Tests
use Prim.Native.Nat.{◌/◌}
use engrammic.Base.{
  ℕ, ◌-◌, ◌*◌, min, Bool, true, false, not, ◌&&◌, Option, none, some, List, [], ◌∷◌, ◌++◌, map, ltb,
  ◌==◌, if◌then◌else◌, length, keep, contains,
}
use engrammic.Sage.Cascade.{synthesis_threshold}
use engrammic.Sage.Results.{Event, compute_embedding}

-- `:Belief` and `:ProposedBelief`
pub data Label : Type 0 where
  belief_label proposed_label : Label

pub data Status : Type 0 where
  pending accepted rejected active_status : Status
  other_status : ℕ → Status

pub record BeliefNode : Type 0 where
  pub id : ℕ
  pub silo : ℕ
  pub label : Label
  pub status : Option Status
  pub content : List ℕ
  pub confidence : Option ℕ
  pub accepted_at : Option ℕ
  pub acceptance_reason : Option ℕ
  -- The targets of its SYNTHESIZED_FROM edges that are facts, and of its PROMOTED_FROM edges.
  pub source_fact_ids : List ℕ
  pub promoted_from : List ℕ

pub record FactNode : Type 0 where
  pub id : ℕ
  pub silo : ℕ
  pub is_active : Bool
  pub content : List ℕ
  pub confidence : ℕ

abbrev pub synthesis_confidence_threshold : ℕ
synthesis_confidence_threshold = 600

abbrev pub is_belief : Label → Bool
is_belief belief_label = true
is_belief proposed_label = false

abbrev pub is_pending : Option Status → Bool
is_pending (some pending) = true
is_pending s = false

-- `(b:Belief {id, silo_id})`
abbrev pub belief_at : ℕ → ℕ → BeliefNode → Bool
belief_at id silo b = is_belief b.label && (b.id == id && b.silo == silo)

abbrev pub proposal_at : ℕ → ℕ → BeliefNode → Bool
proposal_at id silo b = not (is_belief b.label) && (b.id == id && b.silo == silo)

-- `noisy_or_aggregate`: one less the product of the doubts, each of 1000 parts.
abbrev pub doubt : List ℕ → ℕ
doubt [] = 1
doubt (c ∷ cs) = (1000 - min 1000 c) * doubt cs

abbrev pub scale : List ℕ → ℕ
scale [] = 1
scale (c ∷ cs) = 1000 * scale cs

unfoldable pub noisy_or_aggregate : List ℕ → ℕ
noisy_or_aggregate [] = 0
noisy_or_aggregate (c ∷ cs) = (1000 * (scale (c ∷ cs) - doubt (c ∷ cs))) / scale (c ∷ cs)

-- What the model's call comes to: a text, an exception or a timeout.
pub data Synthesis : Type 0 where
  synthesized : List ℕ → Synthesis
  failed timed_out_ : Synthesis

pub record SynthesizeFromFactsResult : Type 0 where
  pub belief_id : Option ℕ
  pub fact_count : ℕ
  pub confidence : Option ℕ
  pub timed_out : Bool

-- GET_FACTS_BY_IDS
abbrev pub facts_by_ids : List FactNode → List ℕ → ℕ → List FactNode
facts_by_ids fs ids silo = keep (λ f. f.silo == silo && (contains f.id ids && f.is_active)) fs

abbrev pub fact_ids_of : List FactNode → ℕ → List ℕ → List ℕ
fact_ids_of fs silo [] = []
fact_ids_of fs silo (id ∷ ids) =
    map (λ f. f.id) (keep (λ f. f.id == id && f.silo == silo) fs) ++ fact_ids_of fs silo ids

-- CREATE_PROPOSED_BELIEF_V2
unfoldable pub create_proposed_belief : List FactNode → ℕ → ℕ → List ℕ → List ℕ → ℕ → BeliefNode
create_proposed_belief fs id silo ids content confidence = record {
  id = id;
  silo = silo;
  label = proposed_label;
  status = some pending;
  content = content;
  confidence = some confidence;
  accepted_at = none;
  acceptance_reason = none;
  source_fact_ids = fact_ids_of fs silo ids;
  promoted_from = [];
}

abbrev pub no_belief :
    ℕ → Option ℕ → Bool → List BeliefNode → List BeliefNode × SynthesizeFromFactsResult × List Event
no_belief count confidence late bs = (
  bs,
  record { belief_id = none; fact_count = count; confidence = confidence; timed_out = late },
  [],
)

-- What follows on the model's answer.
unfoldable pub propose :
    List FactNode
    → List BeliefNode
    → List ℕ
    → ℕ
    → ℕ
    → ℕ
    → ℕ
    → Synthesis
    → List BeliefNode × SynthesizeFromFactsResult × List Event
unfolding create_proposed_belief
propose fs bs ids silo id count aggregate failed = no_belief count (some aggregate) false bs
propose fs bs ids silo id count aggregate timed_out_ = no_belief count (some aggregate) true bs
propose fs bs ids silo id count aggregate (synthesized content) = (
  create_proposed_belief fs id silo ids content aggregate ∷ bs,
  record {
    belief_id = some id;
    fact_count = count;
    confidence = some aggregate;
    timed_out = false;
  },
  compute_embedding id ∷ [],
)

module _ (llm : List (List ℕ) → Synthesis) where
  unfoldable pub synthesize_from_facts :
      List FactNode
      → List BeliefNode
      → List ℕ
      → ℕ
      → ℕ
      → List BeliefNode × SynthesizeFromFactsResult × List Event
  unfolding propose
  synthesize_from_facts fs bs ids silo id =
      let facts = facts_by_ids fs ids silo in
      let aggregate = noisy_or_aggregate (map (λ f. f.confidence) facts) in
      if ltb (length ids) synthesis_threshold
      then no_belief (length ids) none false bs
      else if ltb (length facts) synthesis_threshold
      then no_belief (length facts) none false bs
      else if ltb aggregate synthesis_confidence_threshold
      then no_belief (length facts) (some aggregate) false bs
      else propose fs bs ids silo id (length facts) aggregate (llm (map (λ f. f.content) facts))
