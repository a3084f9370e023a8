-- ===== src/Sage/Results.antt =====
-- Errors, results and reaction events of the transactions.
use engrammic.Base.{ℕ, ◌≡◌, refl, Option, none, some, List}

-- The codes of BrainError and its subclasses. `no_confidence` is the TypeError that arithmetic on a
-- missing confidence raises, `no_previous_state` the ValueError of a missing previous state.
pub data BrainError : Type 0 where
  node_not_found cross_silo_violation winner_not_active loser_not_active : BrainError
  would_create_cycle node_deleted duplicate_edge : BrainError
  already_tombstoned already_deleted invalid_state : BrainError
  not_tombstoned cancel_window_expired no_previous_state : BrainError
  claim_not_found claim_not_active insufficient_corroboration : BrainError
  fact_not_found fact_not_active no_confidence : BrainError
  no_evidence evidence_not_found evidence_tombstoned no_memory_evidence : BrainError
  contradiction_rejected neighborhood_inconsistent : List ℕ → BrainError
  proposal_not_found inconsistent_state proposal_rejected invalid_status : BrainError
  insufficient_derivation accept_failed : BrainError
  belief_not_found belief_not_active belief_not_stale revision_already : BrainError
  driver_raised empty_about_refs about_ref_not_found about_ref_tombstoned : BrainError
  hypothesis_not_found hypothesis_tombstoned already_crystallized : BrainError

pub data Result {ℓ} (A : Type ℓ) : Type ℓ where
  ok : A → Result A
  err : BrainError → Result A

-- ReactionEvent: the event's type, its node, and the payload that matters.
pub data Event : Type 0 where
  cascade_staleness : ℕ → Event
  cascade_staleness_complete : ℕ → ℕ → Event
  chain_tombstoned : ℕ → Event
  update_heat : ℕ → Event
  flag_contradiction : ℕ → ℕ → Event
  compute_embedding propagate_confidence : ℕ → Event
  conflict_detected : ℕ → ℕ → Event

-- A validation that returns `{"error": e}` raises `e`; one that returns no error goes on.
abbrev pub unless {ℓ} : {A : Type ℓ} → Option BrainError → A → Result A
unless none a = ok a
unless (some e) a = err e

pub unless-eq-ok {ℓ} :
    {A : Type ℓ} (o : Option BrainError) (a b : A) → unless o a ≡ ok b → (o ≡ none) × (a ≡ b)
unless-eq-ok none a b h = (refl, cc)
unless-eq-ok (some e) a b h = cc

-- Checks in turn: the first error is raised.
abbrev pub first_error : Option BrainError → Option BrainError → Option BrainError
first_error none e = e
first_error (some d) e = some d

pub first_error-none : (d e : Option BrainError) → first_error d e ≡ none → (d ≡ none) × (e ≡ none)
first_error-none none e h = (refl, h)
first_error-none (some d) e h = cc
