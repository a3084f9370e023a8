-- ===== src/Sage/Storing/Rejecting.antt =====
-- `store_claim` with contradiction enforcement, and INV1.
use mathlib.Core.Path.{subst}
use engrammic.Base.{
  ℕ, ◌≡◌, refl, sym, ap, ◌∙◌, inl, inr, Bool, true, false, not, ◌||◌, Option, none, some, List, [],
  ◌∷◌, map, arith, ◌==◌, ==→eq, Bool-cases, keep, any, All,
}
use engrammic.Graph.{Node, Store, matches, set_where}
use engrammic.Sage.Supersession.{create_supersedes_edge, supersede_node}
use engrammic.Sage.Contradictions.{
  all_given, same, conflicts_with, check_contradiction_before_write, detect_spo_conflict,
  conflict_ids,
}
use engrammic.Sage.Contradictions.Consistency.{
  clash, ClearOf, IsConsistent, Calms, cons-IsConsistent, map_where-IsConsistent,
  flag_conflicts-IsConsistent,
}
use engrammic.Sage.Corroboration.{Triple}
use engrammic.Sage.Results.{ok, Event, unless-eq-ok, first_error-none}
use engrammic.Sage.Storing.Fields.{sets_triple, write_properties_triple, claim_node-silo}
use engrammic.Sage.Storing.Evidence.{derived_nodes}
use engrammic.Sage.Storing.{
  ClaimRequest, validate_evidence, rejection, claim_error, fresh_claim, claim_node, node_refs,
  supersede_named, write_claim, StoreClaimResult, store_claim,
}

-- The triple is given as a whole, or the metadata sets no part of it.
abbrev pub owns_triple : ClaimRequest → Bool
owns_triple r = all_given r.subject r.predicate r.object_value || not (any sets_triple r.metadata)

same_none : (x : Option ℕ) → same x none ≡ false
same_none none = refl
same_none (some a) = refl

none_kept :
    (q : Node → Bool) (ns : List Node)
    → map (λ c. c.id) (keep q ns) ≡ []
    → All (λ n. q n ≡ false) ns
none_kept q [] h = tt
none_kept q (n ∷ ns) h = elim (Bool-cases (q n)) [
  | inl yes_ ↦ absurd (ground arith)
  | inr no_ ↦ (no_, none_kept q ns (ground arith))
]

rejection-none : (ids : List ℕ) → rejection ids ≡ none → ids ≡ []
rejection-none [] h = refl
rejection-none (i ∷ is) h = cc

-- The claim that is about to be written clashes with no node of any silo.
module _ (st : Store) (r : ClaimRequest) (id silo kind : ℕ) where
  given_clear :
      all_given r.subject r.predicate r.object_value ≡ true
      → check_contradiction_before_write st r.subject r.predicate r.object_value silo ≡ []
      → ClearOf kind (claim_node id r silo) st.nodes
  unfolding check_contradiction_before_write
  given_clear given unopposed = each st.nodes (
      none_kept (conflicts_with silo r.subject r.predicate r.object_value) st.nodes
        (sym (rw given refl) ∙ unopposed))
    where
      each :
          (ns : List Node)
          → All (λ n. conflicts_with silo r.subject r.predicate r.object_value n ≡ false) ns
          → ClearOf kind (claim_node id r silo) ns
      each [] h = tt
      each (n ∷ ns) (h, hs) = (one n h, each ns hs)
        where
          one :
              (m : Node)
              → conflicts_with silo r.subject r.predicate r.object_value m ≡ false
              → clash kind (claim_node id r silo) m ≡ false
          one m h = elim (Bool-cases (silo == kind)) [
            | inl same_ ↦
                subst (λ k. clash k (claim_node id r silo) m ≡ false) (==→eq silo kind same_)
                  (unfold claim_node in rw given (ground arith))
            | inr other ↦
                let theirs = claim_node-silo id r silo in rw (theirs, other) (ground arith)
          ]

  unsaid_clear :
      all_given r.subject r.predicate r.object_value ≡ false
      → any sets_triple r.metadata ≡ false
      → ClearOf kind (claim_node id r silo) st.nodes
  unsaid_clear given quiet = each st.nodes
    where
      unsaid : (claim_node id r silo).subject ≡ none
      unsaid =
          unfold claim_node in
          rw given (write_properties_triple r.metadata (fresh_claim id r silo) quiet)

      each : (ns : List Node) → ClearOf kind (claim_node id r silo) ns
      each [] = tt
      each (n ∷ ns) = (rw unsaid (ground (arith, same_none n.subject)), each ns)

  accepted_clear :
      owns_triple r ≡ true
      → claim_error true st r silo ≡ none
      → ClearOf kind (claim_node id r silo) st.nodes
  unfolding claim_error
  accepted_clear owned accepted =
      let (valid, free) = first_error-none (validate_evidence st r.evidence_refs silo) _ accepted in
      elim (Bool-cases (all_given r.subject r.predicate r.object_value)) [
        | inl yes_ ↦ given_clear yes_ (rejection-none _ free)
        | inr no_ ↦ unsaid_clear no_ (ground arith)
      ]

supersede-Calms : (now : ℕ) → Calms (supersede_node now)
supersede-Calms now silo n m = (λ h. ground arith, λ h. ground arith)

supersede_named-IsConsistent :
    (named : Option ℕ) (id silo now kind : ℕ) (st : Store)
    → IsConsistent kind st.nodes
    → IsConsistent kind (supersede_named named id silo now st).nodes
unfolding supersede_named create_supersedes_edge set_where
supersede_named-IsConsistent none id silo now kind st h = h
supersede_named-IsConsistent (some loser) id silo now kind st h =
    elim (Bool-cases (any (matches loser silo) st.nodes)) [
      | inl yes_ ↦ rw yes_ (
          map_where-IsConsistent kind (matches loser silo) (supersede_node now)
            (supersede-Calms now) st.nodes h)
      | inr no_ ↦ rw no_ h
    ]

detect-IsConsistent :
    (st : Store) (new : ℕ) (s p o : Option ℕ) (silo kind : ℕ)
    → IsConsistent kind st.nodes
    → IsConsistent kind (detect_spo_conflict st new s p o silo).0.nodes
unfolding detect_spo_conflict
detect-IsConsistent st new s p o silo kind h = elim (Bool-cases (all_given s p o)) [
  | inl yes_ ↦
      rw yes_ (flag_conflicts-IsConsistent silo kind new (conflict_ids st new s p o silo) st h)
  | inr no_ ↦ rw no_ h
]

module _ (triple_close : Triple → Triple → Bool) (content_close : List ℕ → List ℕ → Bool)
    (with_service : Bool) where
  -- INV1: with contradiction enforcement, a claim that `store_claim` accepts leaves every silo
  -- without two active claims that share subject and predicate and differ in the object, if there
  -- were none before and if the triple is given as a whole or the metadata sets no part of it.
  pub store_claim-IsConsistent :
      (st : Store) (r : ClaimRequest) (id silo now kind : ℕ) (st' : Store)
      (result : StoreClaimResult) (events : List Event)
      → IsConsistent kind st.nodes
      → owns_triple r ≡ true
      → store_claim triple_close content_close true with_service st r id silo now
        ≡ ok (st', result, events)
      → IsConsistent kind st'.nodes
  unfolding store_claim write_claim
  store_claim-IsConsistent st r id silo now kind st' result events before owned stored =
      let (accepted, same_) = unless-eq-ok (claim_error true st r silo) _ _ stored in
      let added =
        cons-IsConsistent kind (claim_node id r silo) st.nodes
          (accepted_clear st r id silo kind owned accepted) before in
      subst (λ s. IsConsistent kind s.nodes) (ap (λ t. t.0) same_)
        (detect-IsConsistent (write_claim st r id silo now) id r.subject r.predicate r.object_value
          silo kind
          (supersede_named-IsConsistent r.supersedes id silo now kind _ (
            rw
              (derived_nodes id silo (node_refs r.evidence_refs)
                (record st { nodes = claim_node id r silo ∷ st.nodes }))
              added)))
