-- ===== src/Sage/Storing/Tests.antt =====
-- Claims stored in a concrete store.
use engrammic.Base.{ℕ, ◌≡◌, refl, Bool, true, false, Option, none, some, List, [], ◌∷◌, any, All}
use engrammic.Sage.Forgetting.{cancel_forget, restore_and_report, restore_node}
use engrammic.Graph.{
  find_node, tombstoned, active, Node, Store, knowledge, node_ref, uri, derived_from, link_edge,
  joins, set_where,
}
use engrammic.Graph.Samples.{plain}
use engrammic.Sage.Contradictions.{
  check_contradiction_before_write, detect_spo_conflict, conflict_ids, flag_conflicts,
}
use engrammic.Sage.Contradictions.Consistency.{IsConsistent, clash}
use engrammic.Sage.Corroboration.{Triple, claim_corroboration, check_corroboration, count_distinct}
use engrammic.Sage.Results.{
  ok, err, Event, compute_embedding, update_heat, conflict_detected, contradiction_rejected,
}
use engrammic.Sage.Storing.{
  ClaimRequest, StoreClaimResult, store_claim, write_claim, claim_node, claim_error,
  validate_evidence, create_derived_from_edges, derive_one, supersede_named,
}
use engrammic.Sage.Storing.Evidence.{Sound, store_claim_evidence}
use engrammic.Sage.Storing.Rejecting.{store_claim-IsConsistent}

abbrev never_close : Triple → Triple → Bool
never_close a b = false

abbrev never_alike : List ℕ → List ℕ → Bool
never_alike a b = false

abbrev says : ℕ → ℕ → Node
says id object = record (plain id) {
  is_claim = true;
  layer = knowledge;
  subject = some 7;
  predicate = some 8;
  object = some object;
}

-- A memory and an active claim.
abbrev before : Store
before = record { nodes = plain 1 ∷ says 4 1 ∷ []; edges = [] }

abbrev request : ℕ → Option ℕ → ClaimRequest
request object old = record {
  content = 5 ∷ [];
  evidence_refs = node_ref 1 ∷ uri 9 ∷ [];
  subject = some 7;
  predicate = some 8;
  object_value = some object;
  confidence = 800;
  supersedes = old;
  metadata = [];
  is_embedded = false;
  skip_sage_triggers = false;
}

abbrev after : ClaimRequest → Store
after r =
    (detect_spo_conflict (write_claim before r 10 1 50) 10 r.subject r.predicate r.object_value 1).0

abbrev result : StoreClaimResult
result = record { node_id = 10; superseded_id = none; corroboration_count = 2 }

abbrev quiet_events : List Event
quiet_events = compute_embedding 10 ∷ update_heat 10 ∷ []

abbrev loud_events : List Event
loud_events = compute_embedding 10 ∷ update_heat 10 ∷ conflict_detected 10 4 ∷ []

-- A claim that agrees is accepted under enforcement.
agreeing :
    store_claim never_close never_alike true false before (request 1 none) 10 1 50
    ≡ ok (after (request 1 none), result, quiet_events)
unfolding store_claim claim_error validate_evidence check_contradiction_before_write write_claim
    supersede_named create_derived_from_edges derive_one claim_node detect_spo_conflict conflict_ids
    claim_corroboration check_corroboration count_distinct flag_conflicts
agreeing = refl

-- Without enforcement a claim that disagrees is stored, and the conflict is reported.
disagreeing :
    store_claim never_close never_alike false false before (request 2 none) 10 1 50
    ≡ ok (after (request 2 none), result, loud_events)
unfolding store_claim claim_error validate_evidence write_claim supersede_named
    create_derived_from_edges derive_one claim_node detect_spo_conflict conflict_ids
    claim_corroboration check_corroboration count_distinct flag_conflicts
disagreeing = refl

store_claim-IsConsistent_example : IsConsistent 1 (after (request 1 none)).nodes
store_claim-IsConsistent_example =
    store_claim-IsConsistent never_close never_alike false before (request 1 none) 10 1 50 1
      (after (request 1 none)) result quiet_events ((refl, (refl, tt)), ((refl, (refl, tt)), tt))
      refl agreeing

store_claim_evidence_example :
    Sound before 1 (1 ∷ [])
    × All
        (λ e. any (joins (link_edge derived_from) 10 e) (after (request 2 none)).edges ≡ true)
        (1 ∷ [])
store_claim_evidence_example =
    store_claim_evidence never_close never_alike false false before (request 2 none) 10 1 50
      (after (request 2 none)) result loud_events refl disagreeing

-- With enforcement even a claim that supersedes the one it contradicts is rejected.
superseding_rejected :
    store_claim never_close never_alike true false before (request 2 (some 4)) 10 1 50
    ≡ err (contradiction_rejected (4 ∷ []))
unfolding store_claim claim_error validate_evidence check_contradiction_before_write
superseding_rejected = refl

-- A claim that was forgotten while it was active.
abbrev forgotten : Store
forgotten = record {
  nodes =
      plain 1
      ∷ record (says 4 1) {
        state = some tombstoned;
        previous_state = some active;
        cancel_window_expires = some 100;
      }
      ∷ [];
  edges = [];
}

abbrev meanwhile : Store
meanwhile =
    (detect_spo_conflict (write_claim forgotten (request 2 none) 10 1 50) 10 (some 7) (some 8)
      (some 2) 1).0

-- Enforcement accepts the claim that contradicts it; when the forgetting is then cancelled, the
-- silo has two active claims that contradict each other.
accepted_meanwhile : claim_error true forgotten (request 2 none) 1 ≡ none
unfolding claim_error validate_evidence check_contradiction_before_write
accepted_meanwhile = refl

restored_clash :
    any
      (λ a. any (clash 1 a) (cancel_forget meanwhile 4 1 60 60).0.nodes)
      (cancel_forget meanwhile 4 1 60 60).0.nodes
    ≡ true
unfolding cancel_forget restore_and_report restore_node find_node set_where write_claim
    supersede_named create_derived_from_edges derive_one claim_node detect_spo_conflict conflict_ids
    flag_conflicts
restored_clash = refl
