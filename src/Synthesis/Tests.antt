-- ===== src/Synthesis/Tests.antt =====
-- Synthesis requests at concrete inputs.
use engrammic.Base.{ℕ, ◌*◌, ◌≡◌, refl, false, none, some, [], ◌∷◌, map, arith}
use engrammic.Synthesis.{
  FactMetadata, calculate_independence, pairwise, check_synthesis_threshold, CorroborationRow,
  find_corroborating_facts, evaluate_synthesis_candidates, SynthesisSettings, trigger_synthesis,
}
use engrammic.Synthesis.Threshold.{trigger_synthesis_never}

abbrev fact : ℕ → FactMetadata
fact id = record {
  fact_id = id;
  document_id = some id;
  agent_id = some id;
  created_at = some (id * 90000);
  source_tier = none;
}

abbrev corroboration : CorroborationRow
corroboration = record { fact_a_id = some 1; fact_b_id = some 2; shared_entities = 7 ∷ [] }

abbrev settings : ℕ → SynthesisSettings
settings threshold = record { disabled = false; independence_threshold = threshold }

requested :
    map
      (λ c. c.independence_score)
      (trigger_synthesis (settings 10) (corroboration ∷ []) (fact 1 ∷ fact 2 ∷ []))
    ≡ 10 ∷ []
unfolding trigger_synthesis find_corroborating_facts evaluate_synthesis_candidates
    check_synthesis_threshold pairwise calculate_independence
requested = refl

trigger_synthesis_never_example :
    trigger_synthesis (settings 20) (corroboration ∷ []) (fact 1 ∷ fact 2 ∷ []) ≡ []
trigger_synthesis_never_example =
    trigger_synthesis_never (settings 20) (corroboration ∷ []) (fact 1 ∷ fact 2 ∷ []) (omega arith)
