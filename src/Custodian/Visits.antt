-- ===== src/Custodian/Visits.antt =====
-- custodian/visit_state.py: the event log of a visit and the state that is replayed from it.
pub mod Replaying
use engrammic.Base.{ℕ, Bool, true, false, List, [], ◌∷◌, ◌++◌, if◌then◌else◌, contains}

pub data VisitEvent : Type 0 where
  node_seen : ℕ → VisitEvent
  claim_committed : ℕ → ℕ → ℕ → ℕ → VisitEvent
  budget_debited : ℕ → ℕ → ℕ → VisitEvent
  phase_started : ℕ → VisitEvent
  visit_finalized : ℕ → VisitEvent

-- Subject, predicate and object.
abbrev pub Triple : Type 0
Triple = ℕ × ℕ × ℕ

pub record VisitState : Type 0 where
  pub org_id : ℕ
  pub silo_id : ℕ
  pub cluster_id : ℕ
  pub events : List VisitEvent
  pub seen_node_ids : List ℕ
  pub claims : List Triple
  pub finalized : Bool

pub new_visit : ℕ → ℕ → ℕ → VisitState
new_visit org silo cluster = record {
  org_id = org;
  silo_id = silo;
  cluster_id = cluster;
  events = [];
  seen_node_ids = [];
  claims = [];
  finalized = false;
}

abbrev pub add_seen : ℕ → List ℕ → List ℕ
add_seen id seen = if contains id seen then seen else seen ++ id ∷ []

abbrev pub apply : VisitEvent → VisitState → VisitState
apply (node_seen id) s = record s { seen_node_ids = add_seen id s.seen_node_ids }
apply (claim_committed id subject predicate object) s = record s {
  claims = s.claims ++ (subject, predicate, object) ∷ [];
}
apply (budget_debited phase tool_calls tokens) s = s
apply (phase_started phase) s = s
apply (visit_finalized reason) s = record s { finalized = true }

pub emit : VisitEvent → VisitState → VisitState
emit ev s = apply ev (record s { events = s.events ++ ev ∷ [] })

pub emit_all : List VisitEvent → VisitState → VisitState
unfolding emit
emit_all [] s = s
emit_all (ev ∷ evs) s = emit_all evs (emit ev s)

abbrev pub snapshot : VisitState → List VisitEvent
snapshot s = s.events

pub replay : List VisitEvent → ℕ → ℕ → ℕ → VisitState
unfolding emit_all new_visit
replay events org silo cluster = emit_all events (new_visit org silo cluster)
