-- ===== src/Sage/Promotion/Writing.antt =====
-- What a promotion writes to the claim.
use mathlib.Core.Path.{subst}
use engrammic.Base.{
  ℕ, ◌≡◌, refl, ◌∙◌, inl, inr, Bool, true, false, not, ◌&&◌, Option, some, List, [], ◌∷◌, arith,
  if◌then◌else◌, Bool-cases, Option-cases, keep, any,
}
use engrammic.Graph.{Node, Store, is_active, is_promoted, is_unpromoted, matches}
use engrammic.Graph.Updates.{find_node-matches}
use engrammic.Graph.Unique.{UniqueAt, find_node-UniqueAt, set_where-UniqueAt, find_first-and}
use engrammic.Sage.Results.{ok}
use engrammic.Sage.Promotion.{
  Model, Promoted, claim_at, promote_fields, update_claim_to_promoted, cleanup_sources, boosted,
  promote, promote_unpromoted, is_linked_source,
}

keep-keep : (q r : Node → Bool) (ns : List Node) → keep q (keep r ns) ≡ keep r (keep q ns)
keep-keep q r [] = refl
keep-keep q r (n ∷ ns) = ground (arith, keep-keep q r ns)

-- Clearing away the sources spares a node that is not one.
cleanup_sources-UniqueAt :
    (fails : Bool) (id silo : ℕ) (st : Store) (n : Node)
    → UniqueAt st id silo n
    → n.is_source ≡ false
    → UniqueAt (cleanup_sources fails id silo st) id silo n
unfolding cleanup_sources
cleanup_sources-UniqueAt true id silo st n unique plain = unique
cleanup_sources-UniqueAt false id silo st n unique plain =
    elim (Bool-cases (any (matches id silo) st.nodes)) [
      | inr nothing ↦ rw nothing unique
      | inl some_match ↦ rw some_match (
          keep-keep (matches id silo) (λ m. not (is_linked_source st id m)) st.nodes
          ∙ rw (unique, plain) refl)
    ]

written : Node → ℕ → Node
written c new = if is_unpromoted c.claim_status then promote_fields new c else c

update_claim_to_promoted-UniqueAt :
    (st : Store) (id silo new : ℕ) (c : Node)
    → UniqueAt st id silo c
    → c.is_claim ≡ true
    → is_active c.state ≡ true
    → UniqueAt (update_claim_to_promoted id silo new st) id silo (written c new)
unfolding update_claim_to_promoted written
update_claim_to_promoted-UniqueAt st id silo new c unique claim live =
    subst (UniqueAt (update_claim_to_promoted id silo new st) id silo) fits (
      unfold update_claim_to_promoted in
      set_where-UniqueAt
        (λ n. claim_at id silo n && (is_active n.state && is_unpromoted n.claim_status))
        (promote_fields new) st id silo c (λ m. refl) unique)
  where
    fits :
        (if claim_at id silo c && (is_active c.state && is_unpromoted c.claim_status)
          then promote_fields new c
          else c)
        ≡ written c new
    fits =
        rw (claim, find_node-matches st id silo c (find_node-UniqueAt st id silo c unique), live)
          refl

-- A promotion that reports a result, of a claim alone with its key, which is no source and was not
-- promoted: the claim had a confidence, and if its status was UNPROMOTED it is now a fact with the
-- boosted confidence. If the status was missing, the claim is as it was, although the result
-- reports the boosted confidence.
pub promote_writes :
    (cleanup_fails : Bool) (llm : Option Model) (st : Store) (id silo : ℕ) (passed : Option ℕ)
    (c : Node) (st' : Store) (r : Promoted)
    → UniqueAt st id silo c
    → c.is_claim ≡ true
    → c.is_source ≡ false
    → is_promoted c.claim_status ≡ false
    → promote cleanup_fails llm st id silo passed ≡ ok (st', some r)
    → (confidence : ℕ) × (c.confidence ≡ some confidence)
      × (r.new_confidence ≡ some (boosted confidence r.corroboration_count))
      × UniqueAt st' id silo (
          if is_unpromoted c.claim_status
          then promote_fields (boosted confidence r.corroboration_count) c
          else c)
unfolding promote promote_unpromoted written
promote_writes cleanup_fails llm st id silo passed c st' r unique claim plain fresh h =
    let found = find_first-and (λ n. n.is_claim) (matches id silo) c st.nodes unique claim in
    elim (Option-cases c.confidence) [
      | inl missing ↦ absurd (ground arith)
      | inr (confidence, given) ↦
          let new = boosted confidence r.corroboration_count in
          let stored : cleanup_sources cleanup_fails id silo
                (update_claim_to_promoted id silo new st)
              ≡ st' =
            ground arith in
          let settled =
            subst (λ (s : Store). UniqueAt s id silo (written c new)) stored
              (cleanup_sources-UniqueAt cleanup_fails id silo _ (written c new)
                (update_claim_to_promoted-UniqueAt st id silo new c unique claim (ground arith))
                (ground arith)) in
          (confidence, given, ground arith, settled)
    ]
