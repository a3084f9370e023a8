-- ===== src/Sage/Linking/Cycles.antt =====
-- Links and the hierarchical edge types, and links made again.
use mathlib.Core.Path.{subst}
use engrammic.Base.{
  ℕ, ◌≡◌, refl, sym, ap, ◌∙◌, ◌≢◌, inl, inr, true, false, none, some, List, [], ◌∷◌, arith, ◌==◌,
  ==→eq, ==_self, Bool-cases, Option-cases, any,
}
use engrammic.Graph.{
  Node, Store, LinkType, link_code, link_edge, is_acyclic_type, is_deleted, matches, find_node,
  set_where, joins,
}
use engrammic.Graph.Types.{link_code_injective}
use engrammic.Graph.Updates.{find_node-matches}
use engrammic.Graph.Paths.{has_path}
use engrammic.Graph.Paths.Walks.{IsAcyclic}
use engrammic.Graph.Paths.Cycles.{cons-IsAcyclic, cons-IsAcyclic_other}
use engrammic.Sage.Supersession.{would_create_cycle_check}
use engrammic.Sage.Results.{duplicate_edge, Event, ok, err, unless-eq-ok}
use engrammic.Sage.Linking.{
  check_link, validate_link, typed_edge, write_scores, propagate, link, link_events, spreads,
}

-- What `link` requires.
pub record Linkable (st : Store) (source target : ℕ) (type : LinkType) (silo : ℕ) : Type 0 where
  pub source_node : Node
  pub target_node : Node
  pub source_found : find_node st source silo ≡ some source_node
  pub target_found : find_node st target silo ≡ some target_node
  pub source_kept : is_deleted source_node.state ≡ false
  pub target_kept : is_deleted target_node.state ≡ false
  pub new : any (joins (link_edge type) source target) st.edges ≡ false
  pub clear : is_acyclic_type type ≡ true → has_path (link_edge type) st.edges target source ≡ false

matches-id : (id silo : ℕ) (n : Node) → matches id silo n ≡ true → n.id ≡ id
matches-id id silo n h = ground arith

edges-write_scores :
    (us : List (ℕ × ℕ)) (silo : ℕ) (st : Store) → (write_scores us silo st).edges ≡ st.edges
unfolding write_scores set_where
edges-write_scores [] silo st = refl
edges-write_scores ((id, score) ∷ us) silo st = edges-write_scores us silo _

validate_duplicate :
    (st : Store) (source target : ℕ) (type : LinkType) (silo : ℕ) (s t : Node)
    → find_node st source silo ≡ some s
    → find_node st target silo ≡ some t
    → is_deleted s.state ≡ false
    → is_deleted t.state ≡ false
    → any (joins (link_edge type) source target) st.edges ≡ true
    → validate_link st source target type silo ≡ some duplicate_edge
unfolding validate_link
validate_duplicate st source target type silo s t es et ds dt hit =
    let ms = find_node-matches st source silo s es in
    let mt = find_node-matches st target silo t et in
    rw (es, et, validate_link)
      (check_duplicate (matches-id source silo s ms) (matches-id target silo t mt) ms mt)
  where
    check_duplicate :
        s.id ≡ source
        → t.id ≡ target
        → matches source silo s ≡ true
        → matches target silo t ≡ true
        → check_link st s t type silo ≡ some duplicate_edge
    check_duplicate is it ms mt =
        let found : any (joins (link_edge type) s.id t.id) st.edges ≡ true =
          subst (λ x. any (joins (link_edge type) x t.id) st.edges ≡ true) (sym is)
            (subst (λ y. any (joins (link_edge type) source y) st.edges ≡ true) (sym it) hit) in
        unfold check_link in ground arith

module _ (st : Store) (source target : ℕ) (type : LinkType) (silo : ℕ) where
  check_link-none :
      (s t : Node)
      → find_node st source silo ≡ some s
      → find_node st target silo ≡ some t
      → s.id ≡ source
      → t.id ≡ target
      → check_link st s t type silo ≡ none
      → Linkable st source target type silo
  unfolding check_link would_create_cycle_check
  check_link-none s t es et is it h = record {
    source_node = s;
    target_node = t;
    source_found = es;
    target_found = et;
    source_kept = ground arith;
    target_kept = ground arith;
    new =
        subst (λ x. any (joins (link_edge type) x target) st.edges ≡ false) is
          (subst (λ y. any (joins (link_edge type) s.id y) st.edges ≡ false) it (ground arith));
    clear = λ acyclic.
        subst (λ x. has_path (link_edge type) st.edges target x ≡ false) is
          (subst (λ y. has_path (link_edge type) st.edges y s.id ≡ false) it (ground arith));
  }

  validate_link-none :
      validate_link st source target type silo ≡ none → Linkable st source target type silo
  unfolding validate_link
  validate_link-none h = elim (Option-cases (find_node st source silo)) [
    | inl miss ↦ absurd (ground arith)
    | inr (s, es) ↦ elim (Option-cases (find_node st target silo)) [
      | inl miss ↦ absurd (ground arith)
      | inr (t, et) ↦
          check_link-none s t es et
            (matches-id source silo s (find_node-matches st source silo s es))
            (matches-id target silo t (find_node-matches st target silo t et)) (ground arith)
    ]
  ]

  module _ (scores : Store → ℕ → ℕ → List (ℕ × ℕ)) (weight : ℕ) where
    pub link_inv :
        (st' : Store) (events : List Event)
        → link scores st source target type silo weight ≡ ok (st', events)
        → Linkable st source target type silo
          × (st'.edges ≡ typed_edge type source target weight ∷ st.edges)
          × (events ≡ link_events type source target)
    unfolding link
    link_inv st' events h =
        let (none_, same) = unless-eq-ok (validate_link st source target type silo) _ _ h in
        (
          validate_link-none none_,
          sym (ap (λ r. r.0.edges) same) ∙ propagated,
          sym (ap (λ r. r.1) same),
        )
      where
        propagated :
            (propagate scores type target silo
              (record st { edges = typed_edge type source target weight ∷ st.edges })).edges
            ≡ typed_edge type source target weight ∷ st.edges
        propagated =
            unfold propagate in
            (elim (Bool-cases (spreads type)) [
              | inl yes_ ↦ rw yes_ (edges-write_scores _ silo _)
              | inr no_ ↦ rw no_ refl
            ])

    -- A successful link between two different nodes keeps the edges of every hierarchical type
    -- acyclic, those of its own type and those of the others.
    pub link-IsAcyclic :
        (st' : Store) (events : List Event) (kind : LinkType)
        → source ≢ target
        → is_acyclic_type kind ≡ true
        → IsAcyclic (link_edge kind) st.edges
        → link scores st source target type silo weight ≡ ok (st', events)
        → IsAcyclic (link_edge kind) st'.edges
    link-IsAcyclic st' events kind distinct hierarchical acyclic h =
        let (ready, edges, _) = link_inv st' events h in
        subst (IsAcyclic (link_edge kind)) (sym edges)
          (elim (Bool-cases (link_code type == link_code kind)) [
            | inl same ↦ own ready same
            | inr other ↦
                cons-IsAcyclic_other (link_edge kind) (typed_edge type source target weight)
                  st.edges acyclic (unfold typed_edge in other)
          ])
      where
        own :
            Linkable st source target type silo
            → (link_code type == link_code kind) ≡ true
            → IsAcyclic (link_edge kind) (typed_edge type source target weight ∷ st.edges)
        own ready same =
            let kinds : type ≡ kind = link_code_injective type kind (==→eq _ _ same) in
            subst (λ k. IsAcyclic (link_edge k) (typed_edge type source target weight ∷ st.edges))
              kinds
              (unfold typed_edge in
                cons-IsAcyclic (link_edge type) (typed_edge type source target weight) st.edges
                  (subst (λ k. IsAcyclic (link_edge k) st.edges) (sym kinds) acyclic) distinct
                  (ready.clear (subst (λ k. is_acyclic_type k ≡ true) (sym kinds) hierarchical)))

    -- A link that was made is refused as a duplicate when it is made again at once, if both nodes
    -- are found and neither is deleted.
    pub link_duplicate :
        (st' : Store) (events : List Event) (s t : Node)
        → link scores st source target type silo weight ≡ ok (st', events)
        → find_node st' source silo ≡ some s
        → find_node st' target silo ≡ some t
        → is_deleted s.state ≡ false
        → is_deleted t.state ≡ false
        → link scores st' source target type silo weight ≡ err duplicate_edge
    unfolding link
    link_duplicate st' events s t h es et ds dt =
        rw (validate_duplicate st' source target type silo s t es et ds dt hit)
      where
        hit : any (joins (link_edge type) source target) st'.edges ≡ true
        hit = rw (link_inv st' events h).1 (
            unfold typed_edge in rw (==_self (link_code type), ==_self source, ==_self target) refl)
