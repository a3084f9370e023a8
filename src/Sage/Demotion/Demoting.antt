-- ===== src/Sage/Demotion/Demoting.antt =====
-- What a demotion writes.
use engrammic.Base.{
  ℕ, ◌-◌, ◌≤◌, ◌<◌, max, ◌≡◌, refl, ◌⊎◌, inl, inr, true, false, ◌&&◌, some, [], ◌∷◌, arith, leb,
  if◌then◌else◌, leb→le, Bool-cases, Option-cases,
}
use mathlib.Core.Path.{subst}
use engrammic.Graph.Updates.{find_node-matches}
use engrammic.Sage.Results.{ok, cascade_staleness}
use engrammic.Graph.{Node, Store, is_active, is_promoted, matches, unpromoted}
use engrammic.Graph.Unique.{UniqueAt, set_where-UniqueAt, find_first-and, find_node-UniqueAt}
use engrammic.Sage.Promotion.{promotion_threshold}
use engrammic.Sage.Demotion.{
  Demoted, fact_at, demote_fields, update_fact_to_demoted, demote, demote_promoted,
  recount_corroboration,
}

-- The write of a demotion.
update_fact_to_demoted-UniqueAt :
    (st : Store) (id silo new : ℕ) (f : Node)
    → UniqueAt st id silo f
    → f.is_fact ≡ true
    → is_active f.state ≡ true
    → is_promoted f.claim_status ≡ true
    → UniqueAt (update_fact_to_demoted id silo new st) id silo (demote_fields new f)
unfolding update_fact_to_demoted
update_fact_to_demoted-UniqueAt st id silo new f unique fact live was =
    subst (UniqueAt (update_fact_to_demoted id silo new st) id silo) fits (
      unfold update_fact_to_demoted in
      set_where-UniqueAt
        (λ n. fact_at id silo n && (is_active n.state && is_promoted n.claim_status))
        (demote_fields new) st id silo f (λ m. refl) unique)
  where
    fits :
        (if fact_at id silo f && (is_active f.state && is_promoted f.claim_status)
          then demote_fields new f
          else f)
        ≡ demote_fields new f
    fits =
        rw
          (fact, find_node-matches st id silo f (find_node-UniqueAt st id silo f unique), live, was)
          refl

-- A demotion of a node alone with its key and labelled a fact that reports success: the node is
-- active. The store is left alone, because the fact was not promoted or three sources still
-- corroborate it; or fewer than three do, and then its status becomes UNPROMOTED, its confidence
-- falls by a tenth, never below a tenth, it loses its fact label, it stays alone with its key and the
-- same in all else, and the change is passed on.
pub demote_gate :
    (st : Store) (id silo : ℕ) (f : Node) (d : Demoted)
    → UniqueAt st id silo f
    → f.is_fact ≡ true
    → demote st id silo ≡ ok d
    → (is_active f.state ≡ true)
      × (((is_promoted f.claim_status ≡ false) ⊎ (3 ≤ recount_corroboration st id silo))
            × (d.store ≡ st)
            × (d.events ≡ [])
          ⊎ (is_promoted f.claim_status ≡ true)
            × (recount_corroboration st id silo < 3)
            × (d.events ≡ cascade_staleness id ∷ [])
            × ((confidence : ℕ) × (f.confidence ≡ some confidence)
                × UniqueAt d.store id silo (record f {
                  claim_status = some unpromoted;
                  confidence = some (max 100 (confidence - 100));
                  is_fact = false;
                })))
unfolding demote demote_promoted
demote_gate st id silo f d unique fact h =
    let found = find_first-and (λ n. n.is_fact) (matches id silo) f st.nodes unique fact in
    elim (Bool-cases (is_active f.state)) [
      | inr dead ↦ absurd (ground arith)
      | inl live ↦ elim (Bool-cases (is_promoted f.claim_status)) [
        | inr never ↦ (live, inl (inl never, ground arith, ground arith))
        | inl was ↦ elim (Bool-cases (leb promotion_threshold (recount_corroboration st id silo))) [
          | inl still ↦ (live, inl (inr (leb→le _ _ still), ground arith, ground arith))
          | inr few ↦ elim (Option-cases f.confidence) [
            | inl missing ↦ absurd (ground arith)
            | inr (confidence, given) ↦
                let less = max 100 (confidence - 100) in
                let written : update_fact_to_demoted id silo less st ≡ d.store = ground arith in
                let settled =
                  subst (λ (st' : Store). UniqueAt st' id silo (demote_fields less f)) written
                    (update_fact_to_demoted-UniqueAt st id silo less f unique fact live was) in
                (live, inr (was, ground arith, ground arith, (confidence, given, settled)))
          ]
        ]
      ]
    ]
