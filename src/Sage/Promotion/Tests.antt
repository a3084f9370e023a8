-- ===== src/Sage/Promotion/Tests.antt =====
-- Promotions at concrete stores.
use engrammic.Base.{◌≤◌, ◌≡◌, refl, ◌⊎◌, true, false, some, [], ◌∷◌, find_first}
use engrammic.Graph.{set_where, Node, Store, unpromoted, is_active, is_promoted, derived_from}
use engrammic.Graph.Samples.{plain, edge_of}
use engrammic.Sage.Results.{ok}
use engrammic.Sage.Promotion.{
  Model, Promoted, claim_at, verified, promote, promotion_threshold, promote_fields, says,
}
use engrammic.Sage.Promotion.Gate.{promote_gate}

abbrev claim : Node
claim = record (plain 1) { is_claim = true; claim_status = some unpromoted; content = 5 ∷ [] }

abbrev evidence : Node
evidence = record (plain 2) { is_source = true; content = 6 ∷ [] }

abbrev claims : Store
claims = record { nodes = claim ∷ evidence ∷ []; edges = edge_of derived_from 1 2 ∷ [] }

abbrev agreeable : Model
agreeable c s = says true

abbrev promoted_claim : Node
promoted_claim = promote_fields 600 claim

abbrev result : Promoted
result = record { new_confidence = some 600; corroboration_count = 3 }

abbrev facts : Store
facts = record { nodes = promoted_claim ∷ []; edges = [] }

promotes : promote false (some agreeable) claims 1 1 (some 3) ≡ ok (facts, some result)
unfolding promote set_where
promotes = refl

promote_gate_example :
    (c : Node) × (find_first (claim_at 1 1) claims.nodes ≡ some c)
    × (is_active c.state ≡ true)
    × ((is_promoted c.claim_status ≡ true) × (facts ≡ claims)
        ⊎ (is_promoted c.claim_status ≡ false)
          × (promotion_threshold ≤ result.corroboration_count)
          × (verified (some agreeable) claims c 1 ≡ true))
promote_gate_example = promote_gate false (some agreeable) claims 1 1 (some 3) facts result promotes
