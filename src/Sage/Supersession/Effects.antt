-- ===== src/Sage/Supersession/Effects.antt =====
-- What a successful `supersede` does to the nodes.
use engrammic.Base.{
  change, ℕ, ◌≡◌, refl, ◌∙◌, ◌≢◌, inl, inr, false, ◌&&◌, some, List, arith, ◌==◌, Option-cases,
}
use engrammic.Graph.{
  Node, Store, SupersedeReason, superseded, matches, find_node, set_where, is_active,
}
use engrammic.Graph.Updates.{find_node-set_where, find_node-edges, find_node-matches}
use engrammic.Sage.Results.{Event, ok}
use engrammic.Sage.Supersession.{create_supersedes_edge, supersede_node, supersede}
use engrammic.Sage.Supersession.Cycles.{Supersedable, supersede_inv}

find_node-create :
    (st : Store) (winner loser silo now i s : ℕ)
    → find_node (create_supersedes_edge st winner loser silo now) i s
      ≡ change (matches loser silo) (supersede_node now) (find_node st i s)
unfolding create_supersedes_edge
find_node-create st winner loser silo now i s =
    find_node-edges (set_where (matches loser silo) (supersede_node now) st) _ i s
    ∙ find_node-set_where (matches loser silo) (supersede_node now) st i s (λ n. (refl, refl))

-- After a successful supersession the loser is SUPERSEDED with `valid_to` set to the clock, and
-- nothing else of it changes; every other node, the winner too where it is another one, is as it
-- was.
pub supersede_effects :
    (st : Store) (winner loser silo : ℕ) (reason : SupersedeReason) (now : ℕ) (st' : Store)
    (events : List Event)
    → supersede st winner loser silo reason now ≡ ok (st', events)
    → ((l : Node) × (find_node st loser silo ≡ some l)
        × (find_node st' loser silo
            ≡ some (record l { state = some superseded; valid_to = some now })))
      × ((i s : ℕ) → ((i == loser) && (s == silo)) ≡ false → find_node st' i s ≡ find_node st i s)
supersede_effects st winner loser silo reason now st' events h =
    let (v, e, _) = supersede_inv st winner loser silo reason now st' events h in
    (
      (
        v.loser_node,
        v.loser_found,
        rw (e, find_node-create st winner loser silo now loser silo, v.loser_found)
            (rw (find_node-matches st loser silo v.loser_node v.loser_found) refl),
      ),
      λ i s other. rw (e, find_node-create st winner loser silo now i s) (kept i s other),
    )
  where
    kept :
        (i s : ℕ)
        → ((i == loser) && (s == silo)) ≡ false
        → change (matches loser silo) (supersede_node now) (find_node st i s) ≡ find_node st i s
    kept i s other = elim (Option-cases (find_node st i s)) [
      | inl miss ↦ rw miss refl
      | inr (n, found) ↦ rw found (ground (arith, find_node-matches st i s n found))
    ]

-- A superseded node is out of the game: after a successful supersession, none that names its loser
-- again, as the loser or as the winner, succeeds.
pub supersede_twice :
    (st : Store) (winner loser silo : ℕ) (reason : SupersedeReason) (now : ℕ) (st' : Store)
    (events : List Event) (other later : ℕ) (why : SupersedeReason) (r : Store × List Event)
    → supersede st winner loser silo reason now ≡ ok (st', events)
    → (supersede st' other loser silo why later ≢ ok r)
      × (supersede st' loser other silo why later ≢ ok r)
supersede_twice st winner loser silo reason now st' events other later why r h = (
  λ again. as_loser (supersede_inv st' other loser silo why later r.0 r.1 again).0,
  λ again. as_winner (supersede_inv st' loser other silo why later r.0 r.1 again).0,
)
  where
    gone : (l : Node) → find_node st' loser silo ≡ some l → is_active l.state ≡ false
    gone l found =
        let (l', _, e) = (supersede_effects st winner loser silo reason now st' events h).0 in
        ground (arith, found, e)

    as_loser : Supersedable st' other loser silo → ⊥
    as_loser s = cc (gone s.loser_node s.loser_found, s.loser_active)

    as_winner : Supersedable st' loser other silo → ⊥
    as_winner s = cc (gone s.winner_node s.winner_found, s.winner_active)
