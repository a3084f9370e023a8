-- ===== src/Sage/Supersession/Cycles.antt =====
-- What the validation of `supersede` accepts, and the SUPERSEDES edges after it.
use engrammic.Base.{
  ℕ, ◌≡◌, refl, sym, ◌≢◌, inl, inr, ◌↔◌, true, none, some, List, [], ◌∷◌, arith, Option-cases,
}
use engrammic.Graph.{Node, Store, SupersedeReason, link_edge, supersedes, is_active, find_node}
use mathlib.Core.List.{Memᴰ}
use mathlib.Core.Path.{subst}
use engrammic.Graph.Paths.Walks.{Walk, IsAcyclic}
use engrammic.Graph.Paths.Search.{no_path_iff}
use engrammic.Graph.Paths.Cycles.{cons-IsAcyclic}
use engrammic.Graph.Updates.{find_node-matches}
use engrammic.Sage.Results.{cross_silo_violation, err, Event, ok, cascade_staleness}
use engrammic.Sage.Supersession.{
  check_pair, validate_supersession, supersede, create_supersedes_edge, supersedes_edge,
}

-- What `supersede` requires.
pub record Supersedable (st : Store) (winner loser silo : ℕ) : Type 0 where
  pub winner_node : Node
  pub loser_node : Node
  pub winner_found : find_node st winner silo ≡ some winner_node
  pub loser_found : find_node st loser silo ≡ some loser_node
  pub winner_active : is_active winner_node.state ≡ true
  pub loser_active : is_active loser_node.state ≡ true
  pub clear : ¬ Walk (link_edge supersedes) st.edges winner loser

module _ (st : Store) (winner loser silo : ℕ) where
  check_pair-none :
      (w l : Node)
      → find_node st winner silo ≡ some w
      → find_node st loser silo ≡ some l
      → check_pair st w l silo ≡ none
      → Supersedable st winner loser silo
  unfolding check_pair
  check_pair-none w l ew el h = record {
    winner_node = w;
    loser_node = l;
    winner_found = ew;
    loser_found = el;
    winner_active = ground arith;
    loser_active = ground arith;
    clear = (no_path_iff (link_edge supersedes) st.edges loser winner).0 (
        ground
          (arith, find_node-matches st winner silo w ew, find_node-matches st loser silo l el));
  }

  validate-none :
      validate_supersession st winner loser silo ≡ none → Supersedable st winner loser silo
  unfolding validate_supersession
  validate-none h = elim (Option-cases (find_node st winner silo)) [
    | inl miss ↦ absurd (ground arith)
    | inr (w, ew) ↦ elim (Option-cases (find_node st loser silo)) [
      | inl miss ↦ absurd (ground arith)
      | inr (l, el) ↦ check_pair-none w l ew el (ground arith)
    ]
  ]

  validate_accepts :
      Supersedable st winner loser silo → validate_supersession st winner loser silo ≡ none
  unfolding validate_supersession check_pair
  validate_accepts s = ground (
    arith,
    (no_path_iff (link_edge supersedes) st.edges loser winner).1 s.clear,
    find_node-matches st winner silo s.winner_node s.winner_found,
    find_node-matches st loser silo s.loser_node s.loser_found,
  )

  -- The cross-silo error that `supersede` documents is never raised: the query already selects both
  -- nodes by silo.
  pub supersede-ne-cross_silo :
      (reason : SupersedeReason) (now : ℕ)
      → supersede st winner loser silo reason now ≢ err cross_silo_violation
  unfolding supersede validate_supersession check_pair
  supersede-ne-cross_silo reason now h = elim (Option-cases (find_node st winner silo)) [
    | inl miss ↦ ground arith
    | inr (w, ew) ↦ elim (Option-cases (find_node st loser silo)) [
      | inl miss ↦ ground arith
      | inr (l, el) ↦
          ground
            (arith, find_node-matches st winner silo w ew, find_node-matches st loser silo l el)
    ]
  ]

  pub supersede-ok :
      (reason : SupersedeReason) (now : ℕ)
      → Supersedable st winner loser silo
      → supersede st winner loser silo reason now
        ≡ ok (create_supersedes_edge st winner loser silo now, cascade_staleness loser ∷ [])
  unfolding supersede
  supersede-ok reason now s = rw (validate_accepts s) refl

  pub supersede_inv :
      (reason : SupersedeReason) (now : ℕ) (st' : Store) (events : List Event)
      → supersede st winner loser silo reason now ≡ ok (st', events)
      → Supersedable st winner loser silo
        × (st' ≡ create_supersedes_edge st winner loser silo now)
        × (events ≡ cascade_staleness loser ∷ [])
  unfolding supersede
  supersede_inv reason now st' events h = (validate-none (ground arith), ground arith, ground arith)

  -- A supersession succeeds exactly where both nodes are found in the silo and active and no walk
  -- along SUPERSEDES edges leads from the loser to the winner. Exactly there it succeeds with one
  -- edge more, the SUPERSEDES edge from the winner to the loser, and with one event, the cascade of
  -- staleness from the loser.
  pub supersede_ok_iff :
      (reason : SupersedeReason) (now : ℕ)
      → (((r : Store × List Event) × (supersede st winner loser silo reason now ≡ ok r))
          ↔ Supersedable st winner loser silo)
        × (((st' : Store) × (supersede st winner loser silo reason now
                ≡ ok (st', cascade_staleness loser ∷ []))
              × (st'.edges
                  ≡ record {
                    type = link_edge supersedes;
                    source = winner;
                    target = loser;
                    weight = 1000;
                  }
                    ∷ st.edges))
            ↔ Supersedable st winner loser silo)
  unfolding create_supersedes_edge supersedes_edge
  supersede_ok_iff reason now = (
    (
      λ (r, e). (supersede_inv reason now r.0 r.1 e).0,
      λ s. (
        (create_supersedes_edge st winner loser silo now, cascade_staleness loser ∷ []),
        supersede-ok reason now s,
      ),
    ),
    (
      λ (st', e, _). (supersede_inv reason now st' (cascade_staleness loser ∷ []) e).0,
      λ s. (create_supersedes_edge st winner loser silo now, supersede-ok reason now s, refl),
    ),
  )

  -- A successful supersession between two different nodes keeps the SUPERSEDES edges acyclic.
  pub supersede-IsAcyclic :
      (reason : SupersedeReason) (now : ℕ) (st' : Store) (events : List Event)
      → winner ≢ loser
      → IsAcyclic (link_edge supersedes) st.edges
      → supersede st winner loser silo reason now ≡ ok (st', events)
      → IsAcyclic (link_edge supersedes) st'.edges
  supersede-IsAcyclic reason now st' events distinct acyclic h =
      let (s, e, _) = supersede_inv reason now st' events h in
      subst (λ x. IsAcyclic (link_edge supersedes) x.edges) (sym e) (created s)
    where
      created :
          Supersedable st winner loser silo
          → IsAcyclic (link_edge supersedes) (create_supersedes_edge st winner loser silo now).edges
      created s =
          unfold create_supersedes_edge supersedes_edge in
          cons-IsAcyclic (link_edge supersedes) (supersedes_edge winner loser) st.edges acyclic
            distinct ((no_path_iff (link_edge supersedes) st.edges loser winner).1 s.clear)

-- Superseding a node by itself is not refused: where the node is active and the SUPERSEDES edges
-- form no cycle, it succeeds and closes a cycle of one edge.
pub supersede_self :
    (st : Store) (node silo : ℕ) (n : Node) (reason : SupersedeReason) (now : ℕ)
    → find_node st node silo ≡ some n
    → is_active n.state ≡ true
    → IsAcyclic (link_edge supersedes) st.edges
    → (st' : Store) × (supersede st node node silo reason now
        ≡ ok (st', cascade_staleness node ∷ []))
      × Walk (link_edge supersedes) st'.edges node node
supersede_self st node silo n reason now found live acyclic = (
  create_supersedes_edge st node node silo now,
  supersede-ok st node node silo reason now (record {
    winner_node = n;
    loser_node = n;
    winner_found = found;
    loser_found = found;
    winner_active = live;
    loser_active = live;
    clear = acyclic node;
  }),
  unfold create_supersedes_edge supersedes_edge in
      Walk.last (supersedes_edge node node) (Memᴰ.head refl) (refl, refl, refl),
)
