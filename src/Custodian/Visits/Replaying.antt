-- ===== src/Custodian/Visits/Replaying.antt =====
-- The replay of a visit's snapshot.
use mathlib.Core.List.{append_assoc}
use engrammic.Base.{ℕ, ◌≡◌, refl, List, [], ◌∷◌, ◌++◌}
use engrammic.Custodian.Visits.{
  VisitEvent, node_seen, claim_committed, budget_debited, phase_started, visit_finalized,
  VisitState, new_visit, emit, emit_all, snapshot, replay,
}

-- The states of a visit.
pub data Visits (org silo cluster : ℕ) : VisitState → Type 0 where
  begun : Visits org silo cluster (new_visit org silo cluster)
  emitted :
      {s : VisitState} (ev : VisitEvent)
      → Visits org silo cluster s
      → Visits org silo cluster (emit ev s)

events-emit : (ev : VisitEvent) (s : VisitState) → (emit ev s).events ≡ s.events ++ ev ∷ []
unfolding emit
events-emit (node_seen id) s = refl
events-emit (claim_committed id subject predicate object) s = refl
events-emit (budget_debited phase tool_calls tokens) s = refl
events-emit (phase_started phase) s = refl
events-emit (visit_finalized reason) s = refl

emit_all-append :
    (xs ys : List VisitEvent) (s : VisitState) → emit_all (xs ++ ys) s ≡ emit_all ys (emit_all xs s)
unfolding emit_all
emit_all-append [] ys s = refl
emit_all-append (x ∷ xs) ys s = emit_all-append xs ys (emit x s)

-- A visit is what its snapshot says: replayed from the snapshot in any state that a visit reaches,
-- and continued with further events, it comes to the state in which the visit itself, continued
-- with these events, would be.
pub replay-snapshot :
    (org silo cluster : ℕ) (s : VisitState) (more : List VisitEvent)
    → Visits org silo cluster s
    → replay (snapshot s ++ more) org silo cluster ≡ emit_all more s
unfolding replay new_visit
replay-snapshot org silo cluster _ more begun = refl
replay-snapshot org silo cluster _ more (emitted {s = s} ev v) =
    rw (events-emit ev s, append_assoc s.events (ev ∷ []) more)
      (replay-snapshot org silo cluster s (ev ∷ more) v)
