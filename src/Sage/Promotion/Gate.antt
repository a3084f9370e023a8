-- ===== src/Sage/Promotion/Gate.antt =====
-- When a claim becomes a fact.
use engrammic.Base.{
  ℕ, ◌≤◌, ◌≡◌, ◌⊎◌, inl, inr, Bool, true, false, Option, some, arith, Option-cases, find_first,
}
use engrammic.Graph.{Node, Store, is_active, is_promoted}
use engrammic.Sage.Results.{ok}
use engrammic.Sage.Promotion.{
  Model, Promoted, claim_at, verified, boosted, promote_unpromoted, promote, promotion_threshold,
}

-- The new confidence is within bounds and at least the old one.
pub boosted_bounds :
    (confidence count : ℕ)
    → confidence ≤ 1000
    → (confidence ≤ boosted confidence count) × (boosted confidence count ≤ 1000)
boosted_bounds confidence count h = (omega arith, omega arith)

-- `promote` returns a result only for an active claim, and then either the claim was promoted
-- already and the store is as it was, or at least three corroborations were counted and the source
-- verification passed.
pub promote_gate :
    (cleanup_fails : Bool) (llm : Option Model) (st : Store) (id silo : ℕ) (passed : Option ℕ)
    (st' : Store) (r : Promoted)
    → promote cleanup_fails llm st id silo passed ≡ ok (st', some r)
    → (c : Node) × (find_first (claim_at id silo) st.nodes ≡ some c)
      × (is_active c.state ≡ true)
      × ((is_promoted c.claim_status ≡ true) × (st' ≡ st)
          ⊎ (is_promoted c.claim_status ≡ false)
            × (promotion_threshold ≤ r.corroboration_count)
            × (verified llm st c id ≡ true))
unfolding promote promote_unpromoted
promote_gate cleanup_fails llm st id silo passed st' r h =
    elim (Option-cases (find_first (claim_at id silo) st.nodes)) [
      | inl miss ↦ absurd (ground arith)
      | inr (c, found) ↦ (c, found, ground arith, ground arith)
    ]
