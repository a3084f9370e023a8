-- ===== src/Sage/Consolidation/Outcome.antt =====
-- What a resolved conflict leaves in the graph.
use mathlib.Core.Path.{subst}
use engrammic.Base.{ℕ, ◌≡◌, refl, sym, ap, ◌∙◌, ◌≢◌, ◌⊎◌, inl, inr, Bool, some, List, arith}
use engrammic.Graph.{Node, Store, superseded, contradiction, resolved_supersede, find_node}
use engrammic.Graph.Updates.{find_node-set_where, find_node-matches}
use engrammic.Sage.Results.{Result, ok, err, Event, BrainError}
use engrammic.Sage.Supersession.{supersede}
use engrammic.Sage.Supersession.Cycles.{supersede_inv}
use engrammic.Sage.Supersession.Effects.{supersede_effects}
use engrammic.Sage.Contradictions.{is_one_of}
use engrammic.Sage.Consolidation.{
  ConflictSignals, tiebreak, decided, resolve, set_resolved_status, apply_resolution,
  process_conflict,
}

Result-cases :
    (r : Result (Store × List Event))
    → ((st' : Store) × (events : List Event) × (r ≡ ok (st', events)))
      ⊎ ((e : BrainError) × (r ≡ err e))
Result-cases (ok (st', events)) = inl (st', events, refl)
Result-cases (err e) = inr (e, refl)

module _ (a b silo : ℕ) (st : Store) where
  -- The mark on one of the two nodes.
  marked :
      (i : ℕ) (n : Node)
      → (i ≡ a) ⊎ (i ≡ b)
      → find_node st i silo ≡ some n
      → find_node (set_resolved_status a b silo resolved_supersede st) i silo
        ≡ some (record n { conflict_status = some resolved_supersede })
  unfolding set_resolved_status
  marked i n party found =
      find_node-set_where (is_one_of a b silo) mark st i silo (λ m. (refl, refl))
      ∙ rw found (ground (arith, find_node-matches st i silo n found))
    where
      mark : Node → Node
      mark n = record n { conflict_status = some resolved_supersede }

-- The loser is superseded, with its end time, and both nodes bear the mark of a resolved conflict;
-- nothing else of the two has changed.
pub record Settled (st st' : Store) (winner loser silo now : ℕ) : Type 0 where
  pub winner_node : Node
  pub loser_node : Node
  pub winner_before : find_node st winner silo ≡ some winner_node
  pub loser_before : find_node st loser silo ≡ some loser_node
  pub winner_after :
      find_node st' winner silo
      ≡ some (record winner_node { conflict_status = some resolved_supersede })
  pub loser_after :
      find_node st' loser silo
      ≡ some (record loser_node {
        state = some superseded;
        valid_to = some now;
        conflict_status = some resolved_supersede;
      })

apply_resolution-decided :
    (store_claim : Store → List ℕ → Result (Store × ℕ)) (st : Store)
    (winner loser : ConflictSignals) (a b silo now : ℕ) (st' : Store)
    → ((winner.node_id ≡ a) × (loser.node_id ≡ b)) ⊎ ((winner.node_id ≡ b) × (loser.node_id ≡ a))
    → winner.node_id ≢ loser.node_id
    → apply_resolution store_claim st a b silo now (decided (winner, loser)) ≡ ok st'
    → Settled st st' winner.node_id loser.node_id silo now
unfolding apply_resolution set_resolved_status
apply_resolution-decided store_claim st winner loser a b silo now st' parties distinct h =
    elim (Result-cases (supersede st winner.node_id loser.node_id silo contradiction now)) [
      | inr (e, refused) ↦ absurd (ground arith)
      | inl (st₁, events, done) ↦
          let ((l, there, gone), others) =
            supersede_effects st winner.node_id loser.node_id silo contradiction now st₁ events
              done in
          let ready =
            (supersede_inv st winner.node_id loser.node_id silo contradiction now st₁ events
              done).0 in
          let stays : find_node st₁ winner.node_id silo ≡ some ready.winner_node =
            others winner.node_id silo (ground arith) ∙ ready.winner_found in
          let stored : set_resolved_status a b silo resolved_supersede st₁ ≡ st' = ground arith in
          record {
            winner_node = ready.winner_node;
            loser_node = l;
            winner_before = ready.winner_found;
            loser_before = there;
            winner_after =
                ap (λ (s : Store). find_node s winner.node_id silo) (sym stored)
                ∙ marked a b silo st₁ winner.node_id ready.winner_node
                    (elim parties [ inl p ↦ inl p.0 | inr p ↦ inr p.0 ]) stays;
            loser_after =
                ap (λ (s : Store). find_node s loser.node_id silo) (sym stored)
                ∙ marked a b silo st₁ loser.node_id
                    (record l { state = some superseded; valid_to = some now })
                    (elim parties [ inl p ↦ inr p.1 | inr p ↦ inl p.1 ]) gone;
          }
    ]

resolve_parties :
    (score : ConflictSignals → ℕ) (is_close : ℕ → ℕ → Bool) (a b : ConflictSignals)
    → (resolve score is_close a b ≡ decided (a, b)) ⊎ (resolve score is_close a b ≡ decided (b, a))
unfolding resolve tiebreak
resolve_parties score is_close a b = ground arith

-- A conflict between two nodes with different identifiers that the deterministic resolver settled
-- without an error: one of the two won. The loser is superseded, with its end time, both bear the
-- mark of a resolved conflict, and nothing else of the two has changed.
pub process_conflict-Settled :
    (store_claim : Store → List ℕ → Result (Store × ℕ)) (score : ConflictSignals → ℕ)
    (is_close : ℕ → ℕ → Bool) (st : Store) (a b : ConflictSignals) (silo now : ℕ) (st' : Store)
    → a.node_id ≢ b.node_id
    → process_conflict store_claim (resolve score is_close) st a b silo now ≡ ok st'
    → Settled st st' a.node_id b.node_id silo now ⊎ Settled st st' b.node_id a.node_id silo now
unfolding process_conflict
process_conflict-Settled store_claim score is_close st a b silo now st' distinct h =
    elim (resolve_parties score is_close a b) [
      | inl first ↦ inl (
          apply_resolution-decided store_claim st a b a.node_id b.node_id silo now st'
            (inl (refl, refl)) distinct
            (subst (λ r. apply_resolution store_claim st a.node_id b.node_id silo now r ≡ ok st')
              first h))
      | inr second ↦ inr (
          apply_resolution-decided store_claim st b a a.node_id b.node_id silo now st'
            (inr (refl, refl)) (λ e. distinct (sym e))
            (subst (λ r. apply_resolution store_claim st a.node_id b.node_id silo now r ≡ ok st')
              second h))
    ]
