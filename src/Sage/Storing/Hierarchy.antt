-- ===== src/Sage/Storing/Hierarchy.antt =====
-- `store_claim` and the hierarchical edge types (INV4).
use mathlib.Core.List.{Memᴰ}
use mathlib.Core.List.Memᴰ
use mathlib.Core.Path.{subst}
use engrammic.Base.{
  ℕ, ◌≡◌, refl, sym, ap, ◌∙◌, ◌≢◌, inl, inr, Bool, true, false, not, ◌&&◌, Option, none, some, List,
  [], ◌∷◌, arith, ◌==◌, ==→eq, Bool-cases, is_empty, any, All,
}
use engrammic.Graph.{
  Store, Edge, EdgeType, LinkType, link_edge, is_acyclic_type, link_code, derived_from, contradicts,
  has_type, matches, joins, set_where,
}
use engrammic.Graph.Types.{link_code_injective}
use engrammic.Graph.Paths.{has_path}
use engrammic.Graph.Paths.Walks.{Walk, last, step, IsAcyclic}
use engrammic.Graph.Paths.Search.{has_path_iff}
use engrammic.Graph.Paths.Cycles.{cons-IsAcyclic, cons-IsAcyclic_other}
use engrammic.Sage.Linking.{typed_edge}
use engrammic.Sage.Supersession.{create_supersedes_edge, supersedes_edge}
use engrammic.Sage.Contradictions.{
  all_given, conflict_ids, contradicts_edge, flag_conflicts, set_conflict_status,
  create_bidirectional_contradicts, detect_spo_conflict,
}
use engrammic.Sage.Corroboration.{Triple}
use engrammic.Sage.Results.{ok, Event, unless-eq-ok, first_error-none}
use engrammic.Sage.Storing.{
  ClaimRequest, node_refs, claim_error, claim_node, derive_one, create_derived_from_edges,
  supersede_named, write_claim, StoreClaimResult, store_claim,
}
use engrammic.Sage.Storing.Evidence.{is_evidence, validate_evidence-Sound, any_mono}

abbrev pub NotEntered : ℕ → List Edge → Type 0
NotEntered id es = (e : Edge) → Memᴰ e es → e.target ≢ id

-- An identifier that nothing uses yet, as a fresh UUID is.
pub record Fresh (st : Store) (id : ℕ) (r : ClaimRequest) : Type 0 where
  pub no_node : any (λ n. n.id == id) st.nodes ≡ false
  pub no_edge : NotEntered id st.edges
  pub not_named : r.supersedes ≢ some id

no_walk : {t : EdgeType} (es : List Edge) {id a : ℕ} → NotEntered id es → ¬ Walk t es id a
no_walk es f (last e m s) = f e m s.2
no_walk es f (step c e m s w) = no_walk es f w

no_path : (t : EdgeType) (es : List Edge) (id a : ℕ) → NotEntered id es → has_path t es a id ≡ false
no_path t es id a f = elim (Bool-cases (has_path t es a id)) [
  | inl yes_ ↦ absurd (no_walk es f ((has_path_iff t es a id).0 yes_))
  | inr no_ ↦ no_
]

-- The edges of a type form no cycle and none of any type enters the new claim.
abbrev pub Leaves : EdgeType → ℕ → List Edge → Type 0
Leaves t id es = IsAcyclic t es × NotEntered id es

cons-Leaves :
    (t : EdgeType) (id : ℕ) (e : Edge) (es : List Edge)
    → e.source ≡ id
    → e.target ≢ id
    → Leaves t id es
    → Leaves t id (e ∷ es)
cons-Leaves t id e es from_ away (acyclic, outside) = (
  cons-IsAcyclic t e es acyclic (λ same_. away (sym same_ ∙ from_))
      (subst (λ x. has_path t es e.target x ≡ false) (sym from_)
        (no_path t es id e.target outside)),
  λ x m. elim (Memᴰ.cases_cons m) [
    | inl same_ ↦ λ h. away (sym (ap (λ y. y.target) same_) ∙ h)
    | inr k ↦ outside x k
  ],
)

module _ (t : EdgeType) (id silo : ℕ) where
  derived-Leaves :
      (es : List ℕ) (st : Store)
      → All (λ e. e ≢ id) es
      → Leaves t id st.edges
      → Leaves t id (create_derived_from_edges id silo es st).edges
  unfolding create_derived_from_edges derive_one typed_edge
  derived-Leaves [] st away h = h
  derived-Leaves (e ∷ es) st (a, as_) h =
      derived-Leaves es (derive_one id silo e st) as_
        (elim (Bool-cases (
          (any (matches id silo) st.nodes && any (matches e silo) st.nodes)
          && not (any (joins (link_edge derived_from) id e) st.edges))) [
            | inl yes_ ↦
                rw yes_ (cons-Leaves t id (typed_edge derived_from id e 1000) st.edges refl a h)
            | inr no_ ↦ rw no_ h
          ])

  supersede-Leaves :
      (named : Option ℕ) (now : ℕ) (st : Store)
      → named ≢ some id
      → Leaves t id st.edges
      → Leaves t id (supersede_named named id silo now st).edges
  unfolding supersede_named create_supersedes_edge supersedes_edge set_where
  supersede-Leaves none now st other h = h
  supersede-Leaves (some loser) now st other h =
      elim (Bool-cases (any (matches loser silo) st.nodes)) [
        | inl yes_ ↦
            rw yes_
              (cons-Leaves t id (supersedes_edge id loser) st.edges refl (λ e. other (ap some e)) h)
        | inr no_ ↦ rw no_ h
      ]

-- CONTRADICTS edges matter to no other type.
flag-IsAcyclic :
    (kind : LinkType) (silo new : ℕ) (ids : List ℕ) (st : Store)
    → has_type (link_edge kind) (contradicts_edge new new) ≡ false
    → IsAcyclic (link_edge kind) st.edges
    → IsAcyclic (link_edge kind) (flag_conflicts silo new ids st).edges
unfolding flag_conflicts set_conflict_status create_bidirectional_contradicts contradicts_edge
    set_where
flag-IsAcyclic kind silo new [] st other h = h
flag-IsAcyclic kind silo new (i ∷ is) st other h =
    flag-IsAcyclic kind silo new is _ other
      (elim (Bool-cases (any (matches new silo) st.nodes && any (matches i silo) st.nodes)) [
        | inl yes_ ↦ rw yes_ (
            cons-IsAcyclic_other (link_edge kind) (contradicts_edge i new)
              (contradicts_edge new i ∷ st.edges)
              (cons-IsAcyclic_other (link_edge kind) (contradicts_edge new i) st.edges h other)
              other)
        | inr no_ ↦ rw no_ h
      ])

detect-IsAcyclic :
    (kind : LinkType) (st : Store) (new : ℕ) (s p o : Option ℕ) (silo : ℕ)
    → has_type (link_edge kind) (contradicts_edge new new) ≡ false
    → IsAcyclic (link_edge kind) st.edges
    → IsAcyclic (link_edge kind) (detect_spo_conflict st new s p o silo).0.edges
unfolding detect_spo_conflict
detect-IsAcyclic kind st new s p o silo other h = elim (Bool-cases (all_given s p o)) [
  | inl yes_ ↦ rw yes_ (flag-IsAcyclic kind silo new (conflict_ids st new s p o silo) st other h)
  | inr no_ ↦ rw no_ h
]

acyclic-other :
    (kind : LinkType) (new : ℕ)
    → is_acyclic_type kind ≡ true
    → has_type (link_edge kind) (contradicts_edge new new) ≡ false
unfolding contradicts_edge
acyclic-other kind new h = elim (Bool-cases (1 == link_code kind)) [
  | inl same_ ↦
      let eq_ : contradicts ≡ kind = link_code_injective contradicts kind (==→eq _ _ same_) in
      absurd (let flat = subst (λ k. is_acyclic_type k ≡ true) (sym eq_) h in cc)
  | inr other ↦ other
]

evidence_away :
    (st : Store) (id silo : ℕ) (es : List ℕ)
    → any (λ n. n.id == id) st.nodes ≡ false
    → All (λ e. is_evidence st silo e ≡ true) es
    → All (λ e. e ≢ id) es
evidence_away st id silo [] fresh h = tt
evidence_away st id silo (e ∷ es) fresh (h, hs) = (
  λ same_. absurd (
      let hit = any_mono (matches e silo) (λ n. n.id == e) st.nodes (λ n t. ground arith) h in
      let hit' = subst (λ x. any (λ n. n.id == x) st.nodes ≡ true) same_ hit in cc),
  evidence_away st id silo es fresh hs,
)

refs_away :
    (enforced : Bool) (st : Store) (r : ClaimRequest) (id silo : ℕ)
    → any (λ n. n.id == id) st.nodes ≡ false
    → claim_error enforced st r silo ≡ none
    → All (λ e. e ≢ id) (node_refs r.evidence_refs)
unfolding claim_error
refs_away enforced st r id silo fresh accepted =
    elim (Bool-cases (is_empty (node_refs r.evidence_refs))) [
      | inl unnamed ↦ nothing (node_refs r.evidence_refs) unnamed
      | inr named ↦
          evidence_away st id silo (node_refs r.evidence_refs) fresh
            (validate_evidence-Sound st r.evidence_refs silo named
              (first_error-none _ _ accepted).0).found
    ]
  where
    nothing : (es : List ℕ) → is_empty es ≡ true → All (λ e. e ≢ id) es
    nothing [] h = tt
    nothing (e ∷ es) h = cc

module _ (triple_close : Triple → Triple → Bool) (content_close : List ℕ → List ℕ → Bool)
    (enforced with_service : Bool) where
  -- A claim under a new identifier closes no cycle of a hierarchical edge type, whatever it names as
  -- evidence and as superseded.
  pub store_claim-IsAcyclic :
      (st : Store) (r : ClaimRequest) (id silo now : ℕ) (st' : Store) (result : StoreClaimResult)
      (events : List Event) (kind : LinkType)
      → Fresh st id r
      → is_acyclic_type kind ≡ true
      → IsAcyclic (link_edge kind) st.edges
      → store_claim triple_close content_close enforced with_service st r id silo now
        ≡ ok (st', result, events)
      → IsAcyclic (link_edge kind) st'.edges
  unfolding store_claim write_claim
  store_claim-IsAcyclic st r id silo now st' result events kind fresh hierarchical acyclic stored =
      let (accepted, same_) = unless-eq-ok (claim_error enforced st r silo) _ _ stored in
      subst (λ s. IsAcyclic (link_edge kind) s.edges) (ap (λ t. t.0) same_)
        (detect-IsAcyclic kind (write_claim st r id silo now) id r.subject r.predicate
          r.object_value silo (acyclic-other kind id hierarchical)
          (supersede-Leaves (link_edge kind) id silo r.supersedes now _ fresh.not_named (
            derived-Leaves (link_edge kind) id silo (node_refs r.evidence_refs)
              (record st { nodes = claim_node id r silo ∷ st.nodes })
              (refs_away enforced st r id silo fresh.no_node accepted) (acyclic, fresh.no_edge))).0)
