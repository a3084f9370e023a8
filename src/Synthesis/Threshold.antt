-- ===== src/Synthesis/Threshold.antt =====
-- Which candidates clear the threshold.
use engrammic.Base.{
  ℕ, ◌≤◌, ◌<◌, ◌≡◌, refl, inl, inr, Option, none, some, List, [], ◌∷◌, ◌++◌, arith, Bool-cases,
  length, All, length-append,
}
use engrammic.Synthesis.{
  FactMetadata, calculate_independence, pairwise, check_synthesis_threshold, CorroborationCandidate,
  CorroborationRow, candidate_of, find_corroborating_facts, last_with, known, resolve_facts,
  evaluate_synthesis_candidates, SynthesisSettings, trigger_synthesis,
}

pub calculate_independence_bounds :
    (a b : FactMetadata) → (2 ≤ calculate_independence a b) × (calculate_independence a b ≤ 10)
unfolding calculate_independence
calculate_independence_bounds a b = (omega arith, omega arith)

pairwise_two : (fs : List FactMetadata) → length fs ≤ 2 → pairwise fs ≤ 10
unfolding pairwise
pairwise_two [] h = omega arith
pairwise_two (a ∷ []) h = omega arith
pairwise_two (a ∷ b ∷ []) h = omega (arith, (calculate_independence_bounds a b).1)
pairwise_two (a ∷ b ∷ c ∷ fs) h = absurd (omega arith)

length-known : (o : Option FactMetadata) → length (known o) ≤ 1
length-known none = omega arith
length-known (some m) = omega arith

length-resolve_facts :
    (ms : List FactMetadata) (ids : List ℕ) → length (resolve_facts ms ids) ≤ length ids
length-resolve_facts ms [] = omega arith
length-resolve_facts ms (id ∷ ids) = omega (
  arith,
  length-append (known (last_with id ms)) (resolve_facts ms ids),
  length-known (last_with id ms),
  length-resolve_facts ms ids,
)

abbrev pub IsPair : CorroborationCandidate → Type 0
IsPair c = length c.fact_ids ≤ 2

find_corroborating_facts-IsPair :
    (rows : List CorroborationRow) → All IsPair (find_corroborating_facts rows)
unfolding find_corroborating_facts
find_corroborating_facts-IsPair [] = tt
find_corroborating_facts-IsPair (r ∷ rs) =
    of_row r.fact_a_id r.fact_b_id (find_corroborating_facts-IsPair rs)
  where
    of_row :
        (a b : Option ℕ)
        → All IsPair (find_corroborating_facts rs)
        → All IsPair (candidate_of r.shared_entities a b ++ find_corroborating_facts rs)
    of_row none b h = h
    of_row (some a) none h = h
    of_row (some a) (some b) h = (omega arith, h)

-- No set of facts clears a threshold that is above its score.
unqualified :
    (ms : List FactMetadata) (threshold : ℕ) (cs : List CorroborationCandidate)
    → 10 < threshold
    → All IsPair cs
    → evaluate_synthesis_candidates ms threshold cs ≡ []
unfolding evaluate_synthesis_candidates check_synthesis_threshold
unqualified ms threshold [] h ps = refl
unqualified ms threshold (c ∷ cs) h ps = ground (
  arith,
  unqualified ms threshold cs h ps.1,
  pairwise_two (resolve_facts ms c.fact_ids),
  length-resolve_facts ms c.fact_ids,
  ps.0,
)

-- With an independence threshold above 1.0, such as the default of 2.0, no synthesis is ever
-- requested, whatever the graph holds: a candidate is a pair, and the score of a pair is at most 1.0.
pub trigger_synthesis_never :
    (settings : SynthesisSettings) (rows : List CorroborationRow) (ms : List FactMetadata)
    → 10 < settings.independence_threshold
    → trigger_synthesis settings rows ms ≡ []
unfolding trigger_synthesis
trigger_synthesis_never settings rows ms h = elim (Bool-cases settings.disabled) [
  | inl off ↦ rw off refl
  | inr on ↦ rw on (
      unqualified ms settings.independence_threshold (find_corroborating_facts rows) h
        (find_corroborating_facts-IsPair rows))
]
