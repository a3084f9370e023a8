-- ===== src/Custodian/Surviving.antt =====
-- Which claims and edges the pipeline lets through.
use mathlib.Core.Path.{subst}
use mathlib.Core.Bool.{or-false}
use engrammic.Base.{
  ℕ, ◌≡◌, refl, sym, ap, ◌∙◌, ◌≢◌, inl, inr, ◌↔◌, Bool, true, false, not, ◌&&◌, ◌||◌, Option, none,
  some, List, [], ◌∷◌, map, arith, ltb, leb, ◌==◌, ==→eq, Bool-cases, Option-cases, length,
  is_empty, keep, any, contains,
}
use engrammic.Custodian.{
  Claim, ProposedEdge, FindingOutput, ValidationResult, ContentNode, silo_of, is_missing,
  is_elsewhere, dedupe_from, verdict, check_node_ids, citation_ids, edge_node_ids, validate_claim,
  pre_check_edge, validate_proposed_edge, surviving, evaluate, validate_finding, run_validation,
  is_silo_scope,
}
use engrammic.Custodian.Citations.{
  validate_claim_lem, validate_proposed_edge_lem, validate_finding_each,
}

abbrev pub is_in : ℕ → Option ℕ → Bool
is_in silo_id none = false
is_in silo_id (some s) = s == silo_id

-- Seen during the visit, and in the graph as a content node of the silo.
abbrev pub is_citable : List ContentNode → ℕ → List ℕ → ℕ → Bool
is_citable graph silo_id seen nid = contains nid seen && is_in silo_id (silo_of nid graph)

abbrev pub all_citable : List ContentNode → ℕ → List ℕ → List ℕ → Bool
all_citable graph silo_id seen ids = not (any (λ nid. not (is_citable graph silo_id seen nid)) ids)

accepted-verdict :
    (h m e : List ℕ) → (verdict h m e).accepted ≡ (is_empty h && (is_empty m && is_empty e))
accepted-verdict [] [] [] = refl
accepted-verdict [] [] (z ∷ zs) = refl
accepted-verdict [] (y ∷ ys) e = refl
accepted-verdict (x ∷ xs) m e = refl

module _ (graph : List ContentNode) (silo_id : ℕ) (seen : List ℕ) where
  abbrev unseen : List ℕ → List ℕ
  unseen ids = keep (λ nid. not (contains nid seen)) ids

  abbrev missing : List ℕ → List ℕ
  missing ids = keep (λ nid. is_missing (silo_of nid graph)) (keep (λ nid. contains nid seen) ids)

  abbrev elsewhere : List ℕ → List ℕ
  elsewhere ids =
      keep (λ nid. is_elsewhere silo_id (silo_of nid graph)) (keep (λ nid. contains nid seen) ids)

  no_offenders :
      (ids : List ℕ)
      → (is_empty (unseen ids) && (is_empty (missing ids) && is_empty (elsewhere ids)))
        ≡ all_citable graph silo_id seen ids
  no_offenders [] = refl
  no_offenders (x ∷ xs) = elim (Bool-cases (contains x seen)) [
    | inr unknown ↦ rw unknown refl
    | inl known ↦ elim (Option-cases (silo_of x graph)) [
      | inl gone ↦ rw (known, gone) (ground arith)
      | inr (s, there) ↦ elim (Bool-cases (s == silo_id)) [
        | inl home ↦ rw (known, there, home) (no_offenders xs)
        | inr other ↦ rw (known, there, other) (ground arith)
      ]
    ]
  ]

  accepted-check_node_ids :
      (ids : List ℕ)
      → (check_node_ids ids silo_id seen graph).accepted ≡ all_citable graph silo_id seen ids
  unfolding check_node_ids
  accepted-check_node_ids ids =
      accepted-verdict (unseen ids) (missing ids) (elsewhere ids) ∙ no_offenders ids

any-contains :
    (p : ℕ → Bool) (x : ℕ) (xs : List ℕ) → contains x xs ≡ true → (p x || any p xs) ≡ any p xs
any-contains p x [] h = cc
any-contains p x (y ∷ ys) h = elim (Bool-cases (x == y)) [
  | inl same ↦
      subst (λ z. (p x || (p z || any p ys)) ≡ (p z || any p ys)) (==→eq x y same) (ground arith)
  | inr other ↦ ground (arith, any-contains p x ys)
]

any-dedupe_from :
    (p : ℕ → Bool) (seen xs : List ℕ)
    → (any p (dedupe_from seen xs) || any p seen) ≡ (any p xs || any p seen)
unfolding dedupe_from
any-dedupe_from p seen [] = refl
any-dedupe_from p seen (x ∷ xs) = elim (Bool-cases (contains x seen)) [
  | inl old ↦ rw old (ground (arith, any-dedupe_from p seen xs, any-contains p x seen old))
  | inr new ↦ rw new (ground (arith, any-dedupe_from p (x ∷ seen) xs))
]

surviving-map {ℓ} :
    {A : Type ℓ} (f : A → ValidationResult) (xs : List A)
    → surviving xs (map f xs)
      ≡ (keep (λ x. (f x).accepted) xs, length (keep (λ x. not (f x).accepted) xs))
unfolding surviving
surviving-map f [] = refl
surviving-map f (x ∷ xs) = elim (Bool-cases (f x).accepted) [
  | inl in_it ↦ rw (surviving-map f xs, in_it) refl
  | inr out ↦
      rw (surviving-map f xs, out) (ap (λ n. (keep (λ x. (f x).accepted) xs, n)) (omega arith))
]

not_leb : (a b : ℕ) → ltb a b ≡ true → leb b a ≡ false
not_leb a b h = ground arith

is_leb : (a b : ℕ) → ltb a b ≡ false → leb b a ≡ true
is_leb a b h = ground arith

module _ (schema_is_valid : ℕ → ℕ → ℕ → Bool) (min_edge_confidence : ℕ) (graph : List ContentNode)
    (silo_id : ℕ) (seen : List ℕ) where
  accepted-validate_claim :
      (c : Claim)
      → (validate_claim graph silo_id seen c).accepted
        ≡ all_citable graph silo_id seen (citation_ids c)
  accepted-validate_claim c =
      rw (validate_claim_lem graph silo_id seen c)
        (accepted-check_node_ids graph silo_id seen (citation_ids c))

  -- An edge with enough confidence, of a kind in the schema, whose nodes may all be cited.
  abbrev pub is_acceptable : ProposedEdge → Bool
  is_acceptable e =
      leb min_edge_confidence e.confidence
      && (schema_is_valid e.source_type e.relationship e.target_type
          && all_citable graph silo_id seen
              (e.source_node_id ∷ e.target_node_id ∷ e.supporting_node_ids))

  accepted-validate_proposed_edge :
      (e : ProposedEdge)
      → (validate_proposed_edge schema_is_valid min_edge_confidence graph silo_id seen e).accepted
        ≡ is_acceptable e
  unfolding pre_check_edge edge_node_ids
  accepted-validate_proposed_edge e =
      rw (validate_proposed_edge_lem schema_is_valid min_edge_confidence graph silo_id seen e)
        (elim (Bool-cases (ltb e.confidence min_edge_confidence)) [
          | inl low ↦ rw (low, pre_check_edge, not_leb e.confidence min_edge_confidence low) refl
          | inr enough ↦
              elim (Bool-cases (schema_is_valid e.source_type e.relationship e.target_type)) [
                | inr invalid ↦ rw (enough, pre_check_edge, invalid) (ground arith)
                | inl valid ↦
                    rw
                      (
                        enough,
                        pre_check_edge,
                        valid,
                        is_leb e.confidence min_edge_confidence enough,
                      )
                      (accepted-check_node_ids graph silo_id seen (edge_node_ids e) ∙ cited)
              ]
        ])
    where
      raw : List ℕ
      raw = e.source_node_id ∷ e.target_node_id ∷ e.supporting_node_ids

      bad : ℕ → Bool
      bad nid = not (is_citable graph silo_id seen nid)

      cited : all_citable graph silo_id seen (edge_node_ids e) ≡ all_citable graph silo_id seen raw
      cited = ap not (sym (or-false _) ∙ any-dedupe_from bad [] raw ∙ or-false _)

keep-ext {ℓ} :
    {A : Type ℓ} (p q : A → Bool) (xs : List A) → ((x : A) → p x ≡ q x) → keep p xs ≡ keep q xs
keep-ext p q [] h = refl
keep-ext p q (x ∷ xs) h = rw (h x, keep-ext p q xs h) refl

-- The two halves of a list, by tests that agree.
split_same {ℓ} :
    {A : Type ℓ} (p q : A → Bool) (xs : List A)
    → ((x : A) → p x ≡ q x)
    → ◌≡◌ {A = List A × ℕ}
        (keep p xs, length (keep (λ x. not (p x)) xs))
        (keep q xs, length (keep (λ x. not (q x)) xs))
split_same p q xs h =
    rw (keep-ext p q xs h, keep-ext (λ x. not (p x)) (λ x. not (q x)) xs (λ x. ap not (h x))) refl

some-ne-none : {n : ℕ} → some n ≢ none
some-ne-none = λ e. cc

evaluate-none :
    (quality_score : List Claim → List ProposedEdge → ℕ) (f : FindingOutput) (claims : List Claim)
    (edges : List ProposedEdge)
    → (evaluate quality_score f claims edges ≡ none)
      ↔ ((claims ≡ []) × (is_silo_scope f.scope ≡ false))
unfolding evaluate
evaluate-none quality_score f [] edges = elim (Bool-cases (is_silo_scope f.scope)) [
  | inl whole ↦ rw whole (λ e. absurd (some-ne-none e), λ h. cc)
  | inr part ↦ rw part (λ e. (refl, refl), λ h. refl)
]
evaluate-none quality_score f (c ∷ cs) edges = (λ e. absurd (some-ne-none e), λ h. cc)

-- After the validation of a finding, the claims that survive are exactly those of which every
-- citation may be made, the edges exactly those that are acceptable, in order, and the counts of the
-- rejected are those of the others. The visit goes on to a quality score, unless no claim survives
-- and its scope is a cluster.
pub run_validation_exact :
    (schema_is_valid : ℕ → ℕ → ℕ → Bool) (min_edge_confidence : ℕ)
    (quality_score : List Claim → List ProposedEdge → ℕ) (graph : List ContentNode)
    (f : FindingOutput) (seen : List ℕ)
    → let r = run_validation schema_is_valid min_edge_confidence quality_score graph f seen in
      let cites_well : Claim → Bool = λ c. all_citable graph f.silo_id seen (citation_ids c) in
      let acceptable = is_acceptable schema_is_valid min_edge_confidence graph f.silo_id seen in
      (r.citation.surviving_claims ≡ keep cites_well f.claims)
      × (r.citation.claims_rejected ≡ length (keep (λ c. not (cites_well c)) f.claims))
      × (r.citation.surviving_edges ≡ keep acceptable f.inferred_relations)
      × (r.citation.edges_rejected ≡ length (keep (λ e. not (acceptable e)) f.inferred_relations))
      × ((r.business ≡ none) ↔ ((keep cites_well f.claims ≡ []) × (is_silo_scope f.scope ≡ false)))
unfolding run_validation validate_finding
run_validation_exact schema_is_valid min_edge_confidence quality_score graph f seen = (
  ap (λ p. p.0) claims_eq,
  ap (λ p. p.1) claims_eq,
  ap (λ p. p.0) edges_eq,
  ap (λ p. p.1) edges_eq,
  (
    λ h. (sym (ap (λ p. p.0) claims_eq) ∙ (business.0 h).0, (business.0 h).1),
    λ h. business.1 (ap (λ p. p.0) claims_eq ∙ h.0, h.1),
  ),
)
  where
    results : List ValidationResult × List ValidationResult
    results = validate_finding schema_is_valid min_edge_confidence graph f seen

    cites_well : Claim → Bool
    cites_well c = all_citable graph f.silo_id seen (citation_ids c)

    acceptable : ProposedEdge → Bool
    acceptable = is_acceptable schema_is_valid min_edge_confidence graph f.silo_id seen

    each : results ≡ (
      map (validate_claim graph f.silo_id seen) f.claims,
      map
          (validate_proposed_edge schema_is_valid min_edge_confidence graph f.silo_id seen)
          f.inferred_relations,
    )
    each = validate_finding_each schema_is_valid min_edge_confidence graph f seen

    claims_eq :
        surviving f.claims results.0
        ≡ (keep cites_well f.claims, length (keep (λ c. not (cites_well c)) f.claims))
    claims_eq =
        ap (λ (p : List ValidationResult × List ValidationResult). surviving f.claims p.0) each
        ∙ surviving-map (validate_claim graph f.silo_id seen) f.claims
        ∙ split_same (λ c. (validate_claim graph f.silo_id seen c).accepted) cites_well f.claims
            (accepted-validate_claim schema_is_valid min_edge_confidence graph f.silo_id seen)

    edges_eq : surviving f.inferred_relations results.1 ≡ (
      keep acceptable f.inferred_relations,
      length (keep (λ e. not (acceptable e)) f.inferred_relations),
    )
    edges_eq =
        ap
          (λ (p : List ValidationResult × List ValidationResult).
            surviving f.inferred_relations p.1)
          each
        ∙ surviving-map
            (validate_proposed_edge schema_is_valid min_edge_confidence graph f.silo_id seen)
            f.inferred_relations
        ∙ split_same
            (λ e.
              (validate_proposed_edge schema_is_valid min_edge_confidence graph f.silo_id seen
                e).accepted)
            acceptable f.inferred_relations
            (accepted-validate_proposed_edge schema_is_valid min_edge_confidence graph f.silo_id
              seen)

    business :
        (evaluate quality_score f
            (surviving f.claims results.0).0
            (surviving f.inferred_relations results.1).0
          ≡ none)
        ↔ (((surviving f.claims results.0).0 ≡ []) × (is_silo_scope f.scope ≡ false))
    business = evaluate-none quality_score f _ _
