-- ===== src/Sage/Demotion/Tests.antt =====
-- Demotions at concrete stores.
use engrammic.Base.{ℕ, ◌-◌, ◌≤◌, ◌<◌, max, ◌≡◌, refl, ◌⊎◌, true, false, some, [], ◌∷◌}
use engrammic.Graph.{set_where, Node, Store, is_active, is_promoted, promoted, unpromoted}
use engrammic.Graph.Samples.{plain}
use engrammic.Graph.Unique.{UniqueAt}
use engrammic.Sage.Results.{ok, cascade_staleness}
use engrammic.Sage.Demotion.{Demoted, demote, recount_corroboration, demote_fields}
use engrammic.Sage.Demotion.Demoting.{demote_gate}

abbrev fact : Node
fact = record (plain 1) {
  is_claim = true;
  is_fact = true;
  claim_status = some promoted;
  confidence = some 600;
}

abbrev facts : Store
facts = record { nodes = fact ∷ []; edges = [] }

abbrev demoted : Demoted
demoted = record {
  store = record { nodes = demote_fields 500 fact ∷ []; edges = [] };
  new_confidence = some 500;
  corroboration_count = some 0;
  events = cascade_staleness 1 ∷ [];
}

demotes : demote facts 1 1 ≡ ok demoted
unfolding demote set_where
demotes = refl

demote_gate_example :
    (is_active fact.state ≡ true)
    × (((is_promoted fact.claim_status ≡ false) ⊎ (3 ≤ recount_corroboration facts 1 1))
          × (demoted.store ≡ facts)
          × (demoted.events ≡ [])
        ⊎ (is_promoted fact.claim_status ≡ true)
          × (recount_corroboration facts 1 1 < 3)
          × (demoted.events ≡ cascade_staleness 1 ∷ [])
          × ((confidence : ℕ) × (fact.confidence ≡ some confidence)
              × UniqueAt demoted.store 1 1 (record fact {
                claim_status = some unpromoted;
                confidence = some (max 100 (confidence - 100));
                is_fact = false;
              })))
demote_gate_example = demote_gate facts 1 1 fact demoted refl refl demotes
