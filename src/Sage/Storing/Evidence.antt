-- ===== src/Sage/Storing/Evidence.antt =====
-- The evidence that `store_claim` leaves a claim with (INV2).
use mathlib.Core.Path.{subst}
use engrammic.Base.{
  ℕ, ◌≡◌, refl, sym, ap, ◌∙◌, inl, inr, Bool, true, false, ◌&&◌, ◌||◌, Option, none, some, List, [],
  ◌∷◌, ◌++◌, arith, ◌==◌, ==_self, Bool-cases, is_empty, keep, any, All, any-and,
}
use engrammic.Graph.{
  Node, Store, Edge, EvidenceRef, derived_from, link_edge, is_tombstoned, matches, joins, set_where,
}
use engrammic.Sage.Linking.{typed_edge}
use engrammic.Sage.Supersession.{create_supersedes_edge}
use engrammic.Sage.Contradictions.{
  flag_conflicts, set_conflict_status, create_bidirectional_contradicts, detect_spo_conflict,
  conflict_ids, all_given,
}
use engrammic.Sage.Contradictions.Consistency.{All-map}
use engrammic.Sage.Corroboration.{Triple}
use engrammic.Sage.Results.{ok, Event, unless-eq-ok, first_error-none}
use engrammic.Sage.Storing.Fields.{claim_node-id, claim_node-silo}
use engrammic.Sage.Storing.{
  ClaimRequest, node_refs, is_memory, evidence_rows, is_missing, check_rows, validate_evidence,
  claim_error, claim_node, derive_one, create_derived_from_edges, supersede_named, write_claim,
  StoreClaimResult, store_claim,
}

-- A node of the store that may serve as evidence.
abbrev pub is_evidence : Store → ℕ → ℕ → Bool
is_evidence st silo id = any (matches id silo) st.nodes

-- A reference that names a memory of the silo.
abbrev pub names_memory : Store → ℕ → ℕ → Bool
names_memory st silo id = any (λ n. matches id silo n && is_memory n.layer) st.nodes

abbrev pub names_tombstoned : Store → ℕ → ℕ → Bool
names_tombstoned st silo id = any (λ n. matches id silo n && is_tombstoned n.state) st.nodes

any-append {ℓ} :
    {A : Type ℓ} (q : A → Bool) (xs ys : List A) → any q (xs ++ ys) ≡ (any q xs || any q ys)
any-append q [] ys = refl
any-append q (x ∷ xs) ys = ground (arith, any-append q xs ys)

-- What the rows say is what the store says of some reference.
any-evidence_rows :
    (q : Node → Bool) (st : Store) (silo : ℕ) (ids : List ℕ)
    → any q (evidence_rows st silo ids)
      ≡ any (λ id. any (λ n. matches id silo n && q n) st.nodes) ids
any-evidence_rows q st silo [] = refl
any-evidence_rows q st silo (id ∷ ids) =
    any-append q (keep (matches id silo) st.nodes) (evidence_rows st silo ids)
    ∙ rw (any-evidence_rows q st silo ids, any-and (matches id silo) q st.nodes) refl

nodes-derive_one : (claim silo e : ℕ) (st : Store) → (derive_one claim silo e st).nodes ≡ st.nodes
unfolding derive_one
nodes-derive_one claim silo e st = ground arith

pub derived_nodes :
    (claim silo : ℕ) (es : List ℕ) (st : Store)
    → (create_derived_from_edges claim silo es st).nodes ≡ st.nodes
unfolding create_derived_from_edges
derived_nodes claim silo [] st = refl
derived_nodes claim silo (e ∷ es) st =
    derived_nodes claim silo es (derive_one claim silo e st) ∙ nodes-derive_one claim silo e st

module _ (claim silo : ℕ) where
  derived_keeps :
      (q : Edge → Bool) (es : List ℕ) (st : Store)
      → any q st.edges ≡ true
      → any q (create_derived_from_edges claim silo es st).edges ≡ true
  unfolding create_derived_from_edges derive_one
  derived_keeps q [] st h = h
  derived_keeps q (e ∷ es) st h = derived_keeps q es (derive_one claim silo e st) (ground arith)

  derived_now :
      (e : ℕ) (st : Store)
      → any (matches claim silo) st.nodes ≡ true
      → is_evidence st silo e ≡ true
      → any (joins (link_edge derived_from) claim e) (derive_one claim silo e st).edges ≡ true
  unfolding derive_one typed_edge
  derived_now e st own found =
      elim (Bool-cases (any (joins (link_edge derived_from) claim e) st.edges)) [
        | inl old ↦ rw (own, found, old) old
        | inr new_ ↦ rw (own, found, new_) (rw (==_self claim, ==_self e) refl)
      ]

  -- Each reference that is found gets its edge, once the claim is there.
  derived_all :
      (es : List ℕ) (st : Store)
      → any (matches claim silo) st.nodes ≡ true
      → All (λ e. is_evidence st silo e ≡ true) es
      → All
          (λ e.
            any
              (joins (link_edge derived_from) claim e)
              (create_derived_from_edges claim silo es st).edges
            ≡ true)
          es
  unfolding create_derived_from_edges
  derived_all [] st own found = tt
  derived_all (e ∷ es) st own (f, fs) =
      let same_ = nodes-derive_one claim silo e st in
      (
        derived_keeps (joins (link_edge derived_from) claim e) es (derive_one claim silo e st)
            (derived_now e st own f),
        derived_all es (derive_one claim silo e st)
            (subst (λ ns. any (matches claim silo) ns ≡ true) (sym same_) own)
            (subst (λ ns. All (λ e'. any (matches e' silo) ns ≡ true) es) (sym same_) fs),
      )

flag_keeps_edges :
    (q : Edge → Bool) (silo new : ℕ) (ids : List ℕ) (st : Store)
    → any q st.edges ≡ true
    → any q (flag_conflicts silo new ids st).edges ≡ true
unfolding flag_conflicts set_conflict_status create_bidirectional_contradicts set_where
flag_keeps_edges q silo new [] st h = h
flag_keeps_edges q silo new (i ∷ is) st h = flag_keeps_edges q silo new is _ (ground arith)

detect_keeps_edges :
    (q : Edge → Bool) (st : Store) (new : ℕ) (s p o : Option ℕ) (silo : ℕ)
    → any q st.edges ≡ true
    → any q (detect_spo_conflict st new s p o silo).0.edges ≡ true
unfolding detect_spo_conflict
detect_keeps_edges q st new s p o silo h = elim (Bool-cases (all_given s p o)) [
  | inl yes_ ↦ rw yes_ (flag_keeps_edges q silo new (conflict_ids st new s p o silo) st h)
  | inr no_ ↦ rw no_ h
]

supersede_named_keeps :
    (q : Edge → Bool) (named : Option ℕ) (id silo now : ℕ) (st : Store)
    → any q st.edges ≡ true
    → any q (supersede_named named id silo now st).edges ≡ true
unfolding supersede_named create_supersedes_edge set_where
supersede_named_keeps q none id silo now st h = h
supersede_named_keeps q (some loser) id silo now st h = ground arith

pub any_mono {ℓ} :
    {A : Type ℓ} (q r : A → Bool) (xs : List A)
    → ((x : A) → q x ≡ true → r x ≡ true)
    → any q xs ≡ true
    → any r xs ≡ true
any_mono q r [] f h = h
any_mono q r (x ∷ xs) f h = elim (Bool-cases (q x)) [
  | inl yes_ ↦ rw (f x yes_) refl
  | inr no_ ↦ ground (arith, any_mono q r xs f (ground arith))
]

any_constant {ℓ} :
    {A : Type ℓ} (q : A → Bool) (b : Bool) (xs : List A)
    → ((x : A) → q x ≡ true → b ≡ true)
    → any q xs ≡ true
    → b ≡ true
any_constant q b [] f h = absurd cc
any_constant q b (x ∷ xs) f h = elim (Bool-cases (q x)) [
  | inl yes_ ↦ f x yes_
  | inr no_ ↦ any_constant q b xs f (ground arith)
]

-- The evidence of an accepted claim: its references to nodes are found, none is tombstoned and one
-- is a memory.
pub record Sound (st : Store) (silo : ℕ) (ids : List ℕ) : Type 0 where
  pub found : All (λ id. is_evidence st silo id ≡ true) ids
  pub kept : any (names_tombstoned st silo) ids ≡ false
  pub remembered : any (names_memory st silo) ids ≡ true

module _ (st : Store) (silo : ℕ) (ids : List ℕ) where
  row-is_evidence :
      (e : ℕ)
      → any (λ n. n.id == e) (evidence_rows st silo ids) ≡ true
      → is_evidence st silo e ≡ true
  row-is_evidence e h =
      any_constant (λ id. any (λ n. matches id silo n && n.id == e) st.nodes) _ ids
        (λ id k.
          any_mono (λ n. matches id silo n && n.id == e) (matches e silo) st.nodes
            (λ n t. ground arith) k)
        (sym (any-evidence_rows (λ n. n.id == e) st silo ids) ∙ h)

  pub all_found :
      (es : List ℕ)
      → any (is_missing (evidence_rows st silo ids)) es ≡ false
      → All (λ e. is_evidence st silo e ≡ true) es
  all_found [] h = tt
  all_found (e ∷ es) h = (row-is_evidence e (ground arith), all_found es (ground arith))

  check_rows-Sound : check_rows ids silo (evidence_rows st silo ids) ≡ none → Sound st silo ids
  check_rows-Sound h = record {
    found = all_found ids (ground arith);
    kept = sym (any-evidence_rows (λ n. is_tombstoned n.state) st silo ids) ∙ ground arith;
    remembered = sym (any-evidence_rows (λ n. is_memory n.layer) st silo ids) ∙ ground arith;
  }

pub validate_evidence-Sound :
    (st : Store) (refs : List EvidenceRef) (silo : ℕ)
    → is_empty (node_refs refs) ≡ false
    → validate_evidence st refs silo ≡ none
    → Sound st silo (node_refs refs)
unfolding validate_evidence
validate_evidence-Sound st [] silo named h = absurd cc
validate_evidence-Sound st (r ∷ rs) silo named h =
    check_rows-Sound st silo (node_refs (r ∷ rs)) (sym (rw named refl) ∙ h)

module _ (triple_close : Triple → Triple → Bool) (content_close : List ℕ → List ℕ → Bool)
    (enforced with_service : Bool) where
  -- INV2: when `store_claim` accepts a claim whose evidence names nodes, then each of these nodes is
  -- found in the silo, none is tombstoned and one is of the memory layer, and the claim has a
  -- DERIVED_FROM edge to each of them, also after the claim it supersedes and its conflicts are
  -- written.
  pub store_claim_evidence :
      (st : Store) (r : ClaimRequest) (id silo now : ℕ) (st' : Store) (result : StoreClaimResult)
      (events : List Event)
      → is_empty (node_refs r.evidence_refs) ≡ false
      → store_claim triple_close content_close enforced with_service st r id silo now
        ≡ ok (st', result, events)
      → Sound st silo (node_refs r.evidence_refs)
        × All
            (λ e. any (joins (link_edge derived_from) id e) st'.edges ≡ true)
            (node_refs r.evidence_refs)
  unfolding store_claim write_claim claim_error
  store_claim_evidence st r id silo now st' result events named stored =
      let (accepted, same_) = unless-eq-ok (claim_error enforced st r silo) _ _ stored in
      let sound =
        validate_evidence-Sound st r.evidence_refs silo named (first_error-none _ _ accepted).0 in
      (
        sound,
        subst
            (λ s.
              All (λ e. any (joins (link_edge derived_from) id e) s.edges ≡ true)
                (node_refs r.evidence_refs))
            (ap (λ t. t.0) same_) (linked sound),
      )
    where
      added : Store
      added = record st { nodes = claim_node id r silo ∷ st.nodes }

      own : any (matches id silo) added.nodes ≡ true
      own = rw (claim_node-id id r silo, claim_node-silo id r silo, ==_self id, ==_self silo) refl

      linked :
          Sound st silo (node_refs r.evidence_refs)
          → All
              (λ e.
                any
                  (joins (link_edge derived_from) id e)
                  (detect_spo_conflict
                    (write_claim st r id silo now)
                    id
                    r.subject
                    r.predicate
                    r.object_value
                    silo).0.edges
                ≡ true)
              (node_refs r.evidence_refs)
      linked sound =
          All-map
            (λ e.
              any (joins (link_edge derived_from) id e)
                (create_derived_from_edges id silo (node_refs r.evidence_refs) added).edges
              ≡ true)
            (λ e.
              any (joins (link_edge derived_from) id e)
                (detect_spo_conflict (write_claim st r id silo now) id r.subject r.predicate
                  r.object_value silo).0.edges
              ≡ true)
            (node_refs r.evidence_refs)
            (λ e h.
              detect_keeps_edges (joins (link_edge derived_from) id e) _ id r.subject r.predicate
                r.object_value silo
                (supersede_named_keeps (joins (link_edge derived_from) id e) r.supersedes id silo
                  now _ h))
            (derived_all id silo (node_refs r.evidence_refs) added own (
              All-map (λ e. is_evidence st silo e ≡ true) (λ e. is_evidence added silo e ≡ true)
                (node_refs r.evidence_refs) (λ e h. rw h (ground arith)) sound.found))
