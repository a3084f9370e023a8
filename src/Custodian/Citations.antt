-- ===== src/Custodian/Citations.antt =====
-- What the citation rules let through.
use mathlib.Core.Path.{subst}
use mathlib.Core.Bool.{or-true}
use engrammic.Base.{
  ℕ, ◌≡◌, refl, sym, ap, ◌∙◌, ◌≢◌, inl, inr, Bool, true, false, ◌||◌, Option, none, some, List, [],
  ◌∷◌, ◌++◌, map, arith, ◌==◌, ==→eq, ==_self, Bool-cases, Option-cases, keep, contains,
}
use engrammic.Custodian.{
  Claim, ProposedEdge, FindingOutput, ValidationResult, ContentNode, lookup_nodes, silo_of,
  is_missing, is_elsewhere, check_node_ids, citation_ids, edge_node_ids, validate_claim,
  pre_check_edge, validate_proposed_edge, claim_survivors, unless, ids_unless, edge_survivors,
  evaluate_edge, validate_finding,
}

true-ne-false : true ≢ false
true-ne-false = λ e. cc

-- A lookup of some identifiers reads as the whole graph at each of them.
silo_of-lookup_nodes :
    (nid : ℕ) (ids : List ℕ) (ns : List ContentNode)
    → contains nid ids ≡ true
    → silo_of nid (lookup_nodes ids ns) ≡ silo_of nid ns
unfolding silo_of lookup_nodes
silo_of-lookup_nodes nid ids [] h = refl
silo_of-lookup_nodes nid ids (n ∷ ns) h = elim (Bool-cases (contains n.id ids)) [
  | inl asked ↦ rw asked (rw (silo_of-lookup_nodes nid ids ns h, silo_of) refl)
  | inr unasked ↦ rw unasked (
      silo_of-lookup_nodes nid ids ns h ∙ elim (Option-cases (silo_of nid ns)) [
        | inl none_there ↦ rw (none_there, unnamed unasked) refl
        | inr (s, there) ↦ rw there refl
      ])
]
  where
    unnamed : contains n.id ids ≡ false → (n.id == nid) ≡ false
    unnamed u = elim (Bool-cases (n.id == nid)) [
      | inr other ↦ other
      | inl same ↦
          absurd
            (true-ne-false (sym h ∙ subst (λ x. contains x ids ≡ false) (==→eq n.id nid same) u))
    ]

keep-ext :
    (p q : ℕ → Bool) (xs : List ℕ)
    → ((x : ℕ) → contains x xs ≡ true → p x ≡ q x)
    → keep p xs ≡ keep q xs
keep-ext p q [] h = refl
keep-ext p q (x ∷ xs) h =
    rw (h x (rw (==_self x) refl), keep-ext p q xs (λ y m. h y (rw m (or-true _)))) refl

-- A check reads the lookup at the seen identifiers only.
check_node_ids-ext :
    (ids : List ℕ) (silo_id : ℕ) (seen : List ℕ) (m m' : List ContentNode)
    → ((x : ℕ)
        → contains x (keep (λ nid. contains nid seen) ids) ≡ true
        → silo_of x m ≡ silo_of x m')
    → check_node_ids ids silo_id seen m ≡ check_node_ids ids silo_id seen m'
unfolding check_node_ids
check_node_ids-ext ids silo_id seen m m' h =
    rw
      (
        check_node_ids,
        keep-ext (λ nid. is_missing (silo_of nid m)) (λ nid. is_missing (silo_of nid m')) survivors
            (λ x k. ap is_missing (h x k)),
        keep-ext (λ nid. is_elsewhere silo_id (silo_of nid m))
            (λ nid. is_elsewhere silo_id (silo_of nid m')) survivors
            (λ x k. ap (is_elsewhere silo_id) (h x k)),
      )
      refl
  where
    survivors : List ℕ
    survivors = keep (λ nid. contains nid seen) ids

contains-append :
    (x : ℕ) (xs ys : List ℕ) → contains x (xs ++ ys) ≡ (contains x xs || contains x ys)
contains-append x [] ys = refl
contains-append x (z ∷ xs) ys = ground (arith, contains-append x xs ys)

-- A check gives the same with any lookup of the seen identifiers, and perhaps more.
check_node_ids-lookup_nodes :
    (ids : List ℕ) (silo_id : ℕ) (seen asked : List ℕ) (ns : List ContentNode)
    → ((x : ℕ) → contains x (keep (λ nid. contains nid seen) ids) ≡ true → contains x asked ≡ true)
    → check_node_ids ids silo_id seen (lookup_nodes asked ns) ≡ check_node_ids ids silo_id seen ns
check_node_ids-lookup_nodes ids silo_id seen asked ns h =
    check_node_ids-ext ids silo_id seen (lookup_nodes asked ns) ns
      (λ x m. silo_of-lookup_nodes x asked ns (h x m))

pub validate_claim_lem :
    (graph : List ContentNode) (silo_id : ℕ) (seen : List ℕ) (c : Claim)
    → validate_claim graph silo_id seen c ≡ check_node_ids (citation_ids c) silo_id seen graph
unfolding validate_claim
validate_claim_lem graph silo_id seen c =
    check_node_ids-lookup_nodes (citation_ids c) silo_id seen
      (keep (λ nid. contains nid seen) (citation_ids c)) graph (λ x m. m)

module _ (graph : List ContentNode) (silo_id : ℕ) (seen asked : List ℕ) where
  abbrev seen_of : List ℕ → List ℕ
  seen_of ids = keep (λ nid. contains nid seen) ids

  claims_each :
      (cs : List Claim)
      → ((x : ℕ) → contains x (claim_survivors seen cs) ≡ true → contains x asked ≡ true)
      → map (λ c. check_node_ids (citation_ids c) silo_id seen (lookup_nodes asked graph)) cs
        ≡ map (validate_claim graph silo_id seen) cs
  unfolding claim_survivors
  claims_each [] h = refl
  claims_each (c ∷ cs) h =
      rw
        (
          check_node_ids-lookup_nodes (citation_ids c) silo_id seen asked graph
              (λ x m. h x (contains-append x (seen_of (citation_ids c)) _ ∙ rw m refl)),
          claims_each cs
              (λ x m. h x (contains-append x (seen_of (citation_ids c)) _ ∙ rw m (or-true _))),
          validate_claim_lem graph silo_id seen c,
        )
        refl

  edge_unless :
      (pre : Option ValidationResult) (ids : List ℕ)
      → ((x : ℕ) → contains x (ids_unless pre (seen_of ids)) ≡ true → contains x asked ≡ true)
      → unless pre (check_node_ids ids silo_id seen (lookup_nodes asked graph))
        ≡ unless pre (check_node_ids ids silo_id seen graph)
  edge_unless (some pre) ids h = refl
  edge_unless none ids h = check_node_ids-lookup_nodes ids silo_id seen asked graph h

module _ (schema_is_valid : ℕ → ℕ → ℕ → Bool) (min_edge_confidence : ℕ) (graph : List ContentNode)
    (silo_id : ℕ) (seen : List ℕ) where
  abbrev pre_of : ProposedEdge → Option ValidationResult
  pre_of = pre_check_edge schema_is_valid min_edge_confidence

  pub validate_proposed_edge_lem :
      (e : ProposedEdge)
      → validate_proposed_edge schema_is_valid min_edge_confidence graph silo_id seen e
        ≡ unless (pre_of e) (check_node_ids (edge_node_ids e) silo_id seen graph)
  unfolding validate_proposed_edge
  validate_proposed_edge_lem e =
      edge_unless graph silo_id seen (seen_of graph silo_id seen [] (edge_node_ids e)) (pre_of e)
        (edge_node_ids e) (asked_for (pre_of e) (seen_of graph silo_id seen [] (edge_node_ids e)))
    where
      asked_for :
          (pre : Option ValidationResult) (ids : List ℕ) (x : ℕ)
          → contains x (ids_unless pre ids) ≡ true
          → contains x ids ≡ true
      asked_for (some pre) ids x m = cc
      asked_for none ids x m = m

  edges_each :
      (asked : List ℕ) (es : List ProposedEdge)
      → ((x : ℕ)
          → contains x (edge_survivors schema_is_valid min_edge_confidence seen es) ≡ true
          → contains x asked ≡ true)
      → map
          (evaluate_edge schema_is_valid min_edge_confidence
            (lookup_nodes asked graph)
            silo_id
            seen)
          es
        ≡ map (validate_proposed_edge schema_is_valid min_edge_confidence graph silo_id seen) es
  unfolding edge_survivors evaluate_edge
  edges_each asked [] h = refl
  edges_each asked (e ∷ es) h =
      rw
        (
          edge_unless graph silo_id seen asked (pre_of e) (edge_node_ids e) (λ x m. h x (
              contains-append x
                (ids_unless (pre_of e) (seen_of graph silo_id seen [] (edge_node_ids e))) _
              ∙ rw m refl)),
          edges_each asked es (λ x m. h x (
              contains-append x
                (ids_unless (pre_of e) (seen_of graph silo_id seen [] (edge_node_ids e))) _
              ∙ rw m (or-true _))),
          validate_proposed_edge_lem e,
        )
        refl

-- The validation of a whole finding, with its single lookup, gives for each claim and each proposed
-- edge the result that its own validation, with its own lookup, would give.
pub validate_finding_each :
    (schema_is_valid : ℕ → ℕ → ℕ → Bool) (min_edge_confidence : ℕ) (graph : List ContentNode)
    (f : FindingOutput) (seen : List ℕ)
    → validate_finding schema_is_valid min_edge_confidence graph f seen ≡ (
      map (validate_claim graph f.silo_id seen) f.claims,
      map
          (validate_proposed_edge schema_is_valid min_edge_confidence graph f.silo_id seen)
          f.inferred_relations,
    )
unfolding validate_finding
validate_finding_each schema_is_valid min_edge_confidence graph f seen =
    rw
      (
        claims_each graph f.silo_id seen asked f.claims
            (λ x m. contains-append x (claim_survivors seen f.claims) _ ∙ rw m refl),
        edges_each schema_is_valid min_edge_confidence graph f.silo_id seen asked
            f.inferred_relations
            (λ x m. contains-append x (claim_survivors seen f.claims) _ ∙ rw m (or-true _)),
      )
      refl
  where
    asked : List ℕ
    asked =
        claim_survivors seen f.claims
        ++ edge_survivors schema_is_valid min_edge_confidence seen f.inferred_relations
